-- ===== src/Confirm/Safety.antt =====
-- `confirm_actions` when nobody is asked, or nobody answers.
use rjrssync.Common.{
  sym, ap, ◌∙◌, true, false, some, List, [], ◌∷◌, ◌++◌, append-nil, ok, err, ◌>>=◌, >>=-eq-ok, inl,
  inr, ◌≡◌, ◌≢◌, refl, arith, Str, codes,
}
use rjrssync.Interface.{EntryDetails}
use rjrssync.OrderedMap.{iter, lookup}
use rjrssync.OrderedMap.Contents.{IsValid, iter-lookup}
use rjrssync.Path.{RootRelativePath, path_eq}
use rjrssync.Prompt.{Console, once, resolve_prompt}
use rjrssync.Comms.{will_not_delete, will_not_overwrite}
use rjrssync.Prompt.Answers.{resolve_prompt_unattended}
use rjrssync.Spec.{DestFileUpdateBehaviour, DestEntryNeedsDeletingBehaviour}
use rjrssync.Sync.{
  SyncContext, Actions, DeleteReason, CopyReason, not_on_dest, dest_newer, dest_older,
  same_time_and_not_skipped,
}
use rjrssync.Confirm.{
  Terminal, Confirming, confirm_delete, confirm_deletes, confirm_copy, confirm_copies,
  confirm_actions, delete_message, copy_message,
}
use rjrssync.Confirm.Verdicts.{
  Verdict, take, leave, refuse, left_out, NoneRefused, taken, NoneRefused-get, get-NoneRefused,
  lookup-left_out, append-left_out, refuse_or_not,
}

-- Prompting amounts to refusing where nobody answers.
abbrev entry_verdict : DestEntryNeedsDeletingBehaviour → Verdict
entry_verdict DestEntryNeedsDeletingBehaviour.prompt = refuse
entry_verdict DestEntryNeedsDeletingBehaviour.error = refuse
entry_verdict DestEntryNeedsDeletingBehaviour.skip = leave
entry_verdict DestEntryNeedsDeletingBehaviour.delete = take

abbrev file_verdict : DestFileUpdateBehaviour → Verdict
file_verdict DestFileUpdateBehaviour.prompt = refuse
file_verdict DestFileUpdateBehaviour.error = refuse
file_verdict DestFileUpdateBehaviour.skip = leave
file_verdict DestFileUpdateBehaviour.overwrite = take

-- The verdicts of a context.
abbrev pub delete_verdict : SyncContext → EntryDetails × DeleteReason → Verdict
delete_verdict ctx _ = entry_verdict ctx.dest_entry_needs_deleting_behaviour

abbrev pub copy_verdict : SyncContext → EntryDetails × CopyReason → Verdict
copy_verdict ctx (_, not_on_dest) = take
copy_verdict ctx (_, dest_newer) = file_verdict ctx.dest_file_newer_behaviour
copy_verdict ctx (_, dest_older) = file_verdict ctx.dest_file_older_behaviour
copy_verdict ctx (_, same_time_and_not_skipped) = file_verdict ctx.files_same_time_behaviour

-- No prepared answer is left, and nobody is at the terminal.
abbrev pub Unattended : Console → Type 0
Unattended console = (console.responses ≡ []) × (console.attended ≡ false)

-- No deletion and no copy that is planned is refused.
abbrev pub NothingRefused : SyncContext → Actions → Type 0
NothingRefused ctx actions =
    ((p : RootRelativePath) (v : EntryDetails × DeleteReason)
      → lookup p actions.to_delete ≡ some v
      → delete_verdict ctx v ≢ refuse)
    × ((p : RootRelativePath) (v : EntryDetails × CopyReason)
        → lookup p actions.to_copy ≡ some v
        → copy_verdict ctx v ≢ refuse)

abbrev start : SyncContext → Console → Confirming
start ctx console = record { ctx = ctx; console = console; to_remove = [] }

abbrev entry_options : List (Str × DestEntryNeedsDeletingBehaviour)
entry_options =
    (codes "Skip", DestEntryNeedsDeletingBehaviour.skip)
    ∷ (codes "Delete", DestEntryNeedsDeletingBehaviour.delete)
    ∷ []

abbrev file_options : List (Str × DestFileUpdateBehaviour)
file_options =
    (codes "Skip", DestFileUpdateBehaviour.skip)
    ∷ (codes "Overwrite", DestFileUpdateBehaviour.overwrite)
    ∷ []

module _ (t : Terminal) where
  -- The prompt about a file, when nobody answers.
  unanswered :
      (ctx : SyncContext) (path : RootRelativePath) (console : Console)
      → console.responses ≡ []
      → console.attended ≡ false
      → (relation : Str)
      → resolve_prompt t.is_match
          (copy_message t ctx path relation ++ codes ". What do?")
          file_options
          true
          DestFileUpdateBehaviour.error
          console
        ≡ ok (once DestFileUpdateBehaviour.error, console)
  unanswered ctx path console no_answer nobody relation =
      resolve_prompt_unattended t.is_match (copy_message t ctx path relation ++ codes ". What do?")
        file_options true DestFileUpdateBehaviour.error console no_answer nobody

  settle_delete :
      (path : RootRelativePath) (v : EntryDetails × DeleteReason) (s : Confirming)
      → delete_verdict s.ctx v ≢ refuse
      → confirm_delete t path v.0 v.1 s
        ≡ ok (record s {
          to_remove = s.to_remove ++ left_out (delete_verdict s.ctx) ((path, v) ∷ []);
        })
  unfolding confirm_delete
  settle_delete path v s h = ground (arith, append-nil s.to_remove)

  settle_deletes :
      (items : List (RootRelativePath × (EntryDetails × DeleteReason))) (s : Confirming)
      → NoneRefused (delete_verdict s.ctx) items
      → confirm_deletes t items s
        ≡ ok (record s { to_remove = s.to_remove ++ left_out (delete_verdict s.ctx) items })
  unfolding confirm_deletes
  settle_deletes [] s _ = rw append-nil refl
  settle_deletes ((p, v) ∷ items) s (first, rest) =
      rw (settle_delete p v s first, ◌>>=◌)
        (settle_deletes items _ rest
          ∙ ap (λ r. ok (record s { to_remove = r }))
              (append-left_out (delete_verdict s.ctx) s.to_remove p v items))

  settle_copy :
      (path : RootRelativePath) (v : EntryDetails × CopyReason) (s : Confirming)
      → copy_verdict s.ctx v ≢ refuse
      → confirm_copy t path v.1 s
        ≡ ok
            (record s { to_remove = s.to_remove ++ left_out (copy_verdict s.ctx) ((path, v) ∷ []) })
  unfolding confirm_copy
  settle_copy path v s h = ground (arith, append-nil s.to_remove)

  settle_copies :
      (items : List (RootRelativePath × (EntryDetails × CopyReason))) (s : Confirming)
      → NoneRefused (copy_verdict s.ctx) items
      → confirm_copies t items s
        ≡ ok (record s { to_remove = s.to_remove ++ left_out (copy_verdict s.ctx) items })
  unfolding confirm_copies
  settle_copies [] s _ = rw append-nil refl
  settle_copies ((p, v) ∷ items) s (first, rest) =
      rw (settle_copy p v s first, ◌>>=◌)
        (settle_copies items _ rest
          ∙ ap (λ r. ok (record s { to_remove = r }))
              (append-left_out (copy_verdict s.ctx) s.to_remove p v items))

  -- If the behaviours refuse none of the planned actions, and prompt for none, `confirm_actions`
  -- returns, changes no behaviour, and uses no answer: the actions that are left are just those
  -- planned whose behaviour is not to skip them.
  pub confirm_actions_settled :
      (ctx : SyncContext) (console : Console) (actions : Actions)
      → IsValid actions.to_delete
      → IsValid actions.to_copy
      → NothingRefused ctx actions
      → (confirmed : Actions) × (confirm_actions t ctx console actions
          ≡ ok (ctx, console, confirmed))
        × ((p : RootRelativePath)
            → lookup p confirmed.to_delete
              ≡ taken (delete_verdict ctx) (lookup p actions.to_delete))
        × ((p : RootRelativePath)
            → lookup p confirmed.to_copy ≡ taken (copy_verdict ctx) (lookup p actions.to_copy))
  unfolding confirm_actions
  confirm_actions_settled ctx console actions valid_delete valid_copy (delete_ok, copy_ok) =
      let (once_deleted, same_deleted, _) = iter-lookup actions.to_delete valid_delete in
      let (once_copied, same_copied, _) = iter-lookup actions.to_copy valid_copy in
      let no_delete_refused : NoneRefused (delete_verdict ctx) (iter actions.to_delete) =
        NoneRefused-get (delete_verdict ctx) (iter actions.to_delete) once_deleted
          (λ p v e. delete_ok p v (sym (same_deleted p) ∙ e)) in
      let no_copy_refused : NoneRefused (copy_verdict ctx) (iter actions.to_copy) =
        NoneRefused-get (copy_verdict ctx) (iter actions.to_copy) once_copied
          (λ p v e. copy_ok p v (sym (same_copied p) ∙ e)) in
      (
        _,
        rw (settle_deletes (iter actions.to_delete) (start ctx console) no_delete_refused, ◌>>=◌)
            (rw (settle_copies (iter actions.to_copy) (start ctx console) no_copy_refused, ◌>>=◌)
              refl),
        lookup-left_out (delete_verdict ctx) actions.to_delete valid_delete,
        lookup-left_out (copy_verdict ctx) actions.to_copy valid_copy,
      )

  refuse_delete :
      (path : RootRelativePath) (v : EntryDetails × DeleteReason) (s : Confirming)
      → Unattended s.console
      → delete_verdict s.ctx v ≡ refuse
      → confirm_delete t path v.0 v.1 s ≡ err (will_not_delete path)
  unfolding confirm_delete
  refuse_delete path v s (no_answer, nobody) h = ground (
    arith,
    resolve_prompt_unattended t.is_match (delete_message t s.ctx path v.0 v.1 ++ codes ". What do?")
        entry_options true DestEntryNeedsDeletingBehaviour.error s.console no_answer nobody,
  )

  confirm_deletes-NoneRefused :
      (items : List (RootRelativePath × (EntryDetails × DeleteReason))) (s s' : Confirming)
      → Unattended s.console
      → confirm_deletes t items s ≡ ok s'
      → NoneRefused (delete_verdict s.ctx) items
  unfolding confirm_deletes
  confirm_deletes-NoneRefused [] s s' quiet h = tt
  confirm_deletes-NoneRefused ((p, v) ∷ items) s s' quiet h =
      elim (refuse_or_not (delete_verdict s.ctx v)) [
        | inl e ↦ absurd (cc (rw (refuse_delete p v s quiet e, ◌>>=◌) at h))
        | inr n ↦ (
          n,
          confirm_deletes-NoneRefused items _ s' quiet (rw (settle_delete p v s n, ◌>>=◌) at h),
        )
      ]

  refuse_copy :
      (path : RootRelativePath) (v : EntryDetails × CopyReason) (s : Confirming)
      → Unattended s.console
      → copy_verdict s.ctx v ≡ refuse
      → confirm_copy t path v.1 s ≡ err (will_not_overwrite path)
  unfolding confirm_copy
  refuse_copy path (d, not_on_dest) s (no_answer, nobody) h = cc
  refuse_copy path (d, dest_newer) s (no_answer, nobody) h =
      ground (arith, unanswered s.ctx path s.console no_answer nobody (codes " is newer than "))
  refuse_copy path (d, dest_older) s (no_answer, nobody) h =
      ground (arith, unanswered s.ctx path s.console no_answer nobody (codes " is older than "))
  refuse_copy path (d, same_time_and_not_skipped) s (no_answer, nobody) h = ground (
    arith,
    unanswered s.ctx path s.console no_answer nobody (codes " has the same modified time as "),
  )

  confirm_copies-NoneRefused :
      (items : List (RootRelativePath × (EntryDetails × CopyReason))) (s s' : Confirming)
      → Unattended s.console
      → confirm_copies t items s ≡ ok s'
      → NoneRefused (copy_verdict s.ctx) items
  unfolding confirm_copies
  confirm_copies-NoneRefused [] s s' quiet h = tt
  confirm_copies-NoneRefused ((p, v) ∷ items) s s' quiet h =
      elim (refuse_or_not (copy_verdict s.ctx v)) [
        | inl e ↦ absurd (cc (rw (refuse_copy p v s quiet e, ◌>>=◌) at h))
        | inr n ↦
            (n, confirm_copies-NoneRefused items _ s' quiet (rw (settle_copy p v s n, ◌>>=◌) at h))
      ]

  -- With no prepared answer left and nobody at the terminal, `confirm_actions` returns only if no
  -- planned action is refused, a prompt counting as a refusal. So nothing is ever deleted or
  -- overwritten for want of an answer.
  pub confirm_actions-Unattended :
      (ctx ctx' : SyncContext) (console console' : Console) (actions confirmed : Actions)
      → IsValid actions.to_delete
      → IsValid actions.to_copy
      → Unattended console
      → confirm_actions t ctx console actions ≡ ok (ctx', console', confirmed)
      → NothingRefused ctx actions
  unfolding confirm_actions
  confirm_actions-Unattended ctx ctx' console console' actions confirmed valid_delete valid_copy
        quiet h =
      let (s, deletes_returned, _) = >>=-eq-ok _ _ h in
      let no_delete_refused : NoneRefused (delete_verdict ctx) (iter actions.to_delete) =
        confirm_deletes-NoneRefused (iter actions.to_delete) (start ctx console) s quiet
          deletes_returned in
      let (s', copies_returned, _) =
        >>=-eq-ok (confirm_copies t (iter actions.to_copy) (start ctx console)) _ (
          rw (settle_deletes (iter actions.to_delete) (start ctx console) no_delete_refused, ◌>>=◌)
            at h) in
      let (_, same_deleted, _) = iter-lookup actions.to_delete valid_delete in
      let (_, same_copied, _) = iter-lookup actions.to_copy valid_copy in
      (
        λ p v e.
            get-NoneRefused (delete_verdict ctx) (iter actions.to_delete) no_delete_refused p v
              (same_deleted p ∙ e),
        λ p v e.
            get-NoneRefused (copy_verdict ctx) (iter actions.to_copy)
              (confirm_copies-NoneRefused (iter actions.to_copy) (start ctx console) s' quiet
                copies_returned)
              p v (same_copied p ∙ e),
      )
