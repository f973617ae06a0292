-- ===== src/Tests/Confirms.antt =====
-- Prompts and confirmations at small inputs.
use rjrssync.Common.{
  arith, true, false, none, some, List, [], ◌∷◌, ok, ◌≡◌, refl, codes, Str, str_beq, ◌⊎◌,
}
use rjrssync.Confirm.{Terminal, confirm_actions}
use rjrssync.Confirm.Safety.{
  NothingRefused, delete_verdict, copy_verdict, confirm_actions_settled, confirm_actions-Unattended,
}
use rjrssync.Confirm.Verdicts.{taken}
use rjrssync.Common.HashMap.{get, insert}
use rjrssync.Interface.{file}
use rjrssync.OrderedMap.{OrderedMap, lookup, iter}
use rjrssync.OrderedMap
use rjrssync.OrderedMap.Contents.{IsValid, new-IsValid, add-IsValid}
use rjrssync.Path.{RootRelativePath, path_eq}
use rjrssync.Prompt.{Console, ResolvePromptResult, resolve_prompt, always}
use rjrssync.Prompt.Answers.{OneOf, resolve_prompt_answers}
use rjrssync.Spec.{DestFileUpdateBehaviour}
use rjrssync.Sync.{Actions, not_on_source, dest_older, ToDelete, ToCopy}
use rjrssync.Tests.Queries.{path, srcs, dests, context}

abbrev pub nobody : Console
nobody = record { responses = []; attended = false; selections = [] }

abbrev user : Console
user = record { responses = []; attended = true; selections = some 1 ∷ [] }

abbrev options : List (Str × DestFileUpdateBehaviour)
options =
    (codes "Skip", DestFileUpdateBehaviour.skip)
    ∷ (codes "Overwrite", DestFileUpdateBehaviour.overwrite)
    ∷ []

-- The user chooses to skip all.
abbrev skip_all : ResolvePromptResult DestFileUpdateBehaviour
skip_all = always DestFileUpdateBehaviour.skip

asked_run :
    resolve_prompt str_beq (codes "?") options true DestFileUpdateBehaviour.error user
    ≡ ok (skip_all, record user { selections = [] })
unfolding resolve_prompt
asked_run = refl

resolve_prompt_answers_example :
    (OneOf DestFileUpdateBehaviour.skip options
      ⊎ (DestFileUpdateBehaviour.skip ≡ DestFileUpdateBehaviour.error))
    × ((skip_all.remembered_behaviour ≡ none)
        ⊎ ((true ≡ true) × (skip_all.remembered_behaviour ≡ some (skip_all.immediate_behaviour))))
resolve_prompt_answers_example =
    resolve_prompt_answers str_beq (codes "?") options true DestFileUpdateBehaviour.error user
      (record user { selections = [] }) skip_all asked_run

abbrev pub terminal : Terminal
terminal = record { is_match = str_beq; italic = λ s. s }

-- One deletion and one copy. The context deletes entries and overwrites older files.
abbrev to_delete : ToDelete
to_delete = OrderedMap.add (path "b") (file 1 1, not_on_source) OrderedMap.new

abbrev to_copy : ToCopy
to_copy = OrderedMap.add (path "a") (file 5 10, dest_older) OrderedMap.new

abbrev pub actions : Actions
actions = record { to_delete = to_delete; to_copy = to_copy }

delete-IsValid : IsValid to_delete
unfolding OrderedMap.new
delete-IsValid = add-IsValid (path "b") (file 1 1, not_on_source) OrderedMap.new refl new-IsValid

copy-IsValid : IsValid to_copy
unfolding OrderedMap.new
copy-IsValid = add-IsValid (path "a") (file 5 10, dest_older) OrderedMap.new refl new-IsValid

nothing_refused : NothingRefused (context srcs dests) actions
unfolding lookup OrderedMap.add OrderedMap.new get insert
nothing_refused = ((λ p v e r. cc), (λ p v e r. ground arith))

confirm_actions_settled_example :
    (confirmed : Actions) × (confirm_actions terminal (context srcs dests) nobody actions
      ≡ ok (context srcs dests, nobody, confirmed))
    × ((p : RootRelativePath)
        → lookup p confirmed.to_delete
          ≡ taken (delete_verdict (context srcs dests)) (lookup p to_delete))
    × ((p : RootRelativePath)
        → lookup p confirmed.to_copy ≡ taken (copy_verdict (context srcs dests)) (lookup p to_copy))
confirm_actions_settled_example =
    confirm_actions_settled terminal (context srcs dests) nobody actions delete-IsValid copy-IsValid
      nothing_refused

confirmed_run :
    confirm_actions terminal (context srcs dests) nobody actions
    ≡ ok (context srcs dests, nobody, actions)
unfolding confirm_actions iter OrderedMap.add OrderedMap.new get insert OrderedMap.iter_over
confirmed_run = refl

confirm_actions-Unattended_example : NothingRefused (context srcs dests) actions
confirm_actions-Unattended_example =
    confirm_actions-Unattended terminal (context srcs dests) (context srcs dests) nobody nobody
      actions actions delete-IsValid copy-IsValid (refl, refl) confirmed_run
