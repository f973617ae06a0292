-- ===== src/Prompt.antt =====
-- src/boss_frontend.rs, `resolve_prompt`: asking the user what to do.
pub mod Answers
use rjrssync.Common.{
  ℕ, zero, suc, ◌+◌, ◌-◌, Bool, true, false, not, ◌&&◌, Option, none, some, List, [], ◌∷◌, ◌++◌,
  Str, codes, str_beq, str_eq, Outcome, ok, err, panic, blocked, ◌>>=◌, if◌then◌else◌, length,
  get_elem?, ltb,
}
use rjrssync.Comms.{SyncError}

-- One answer that a test has prepared: how often it may still be used, the pattern of the prompts
-- that it answers, and the answer.
pub record TestResponse : Type 0 where
  pub max_occurences : ℕ
  pub regex : Str
  pub response : Str

-- What answers a prompt: the prepared answers, whether a user is there, and the choices that the
-- user will make, `none` for a cancelled menu.
pub record Console : Type 0 where
  pub responses : List TestResponse
  pub attended : Bool
  pub selections : List (Option ℕ)

pub record ResolvePromptResult (B : Type 0) : Type 0 where
  pub immediate_behaviour : B
  pub remembered_behaviour : Option B

abbrev pub once : {B : Type 0} → B → ResolvePromptResult B
once b = record { immediate_behaviour = b; remembered_behaviour = none }

abbrev pub always : {B : Type 0} → B → ResolvePromptResult B
always b = record { immediate_behaviour = b; remembered_behaviour = some b }

abbrev Items : Type 0 → Type 0
Items B = List (Str × ResolvePromptResult B)

module _ {B : Type 0} where
  -- The loop over the options.
  unfoldable pub option_items : List (Str × B) → Bool → Items B
  option_items [] include_always_versions = []
  option_items ((name, b) ∷ options) true =
      (name ++ codes " (just this occurence)", once b)
      ∷ (name ++ codes " (all occurences)", always b)
      ∷ option_items options true
  option_items ((name, b) ∷ options) false = (name, once b) ∷ option_items options false

  unfoldable pub menu : List (Str × B) → Bool → B → Items B
  unfolding option_items
  menu options include_always_versions cancel_behaviour =
      option_items options include_always_versions
      ++ (codes "Cancel sync", once cancel_behaviour) ∷ []

  -- `items.iter().position(..)`
  unfoldable pub position : Str → Items B → Option ℕ
  position name [] = none
  position name ((n, _) ∷ items) =
      let later = position name items in
      if str_beq n name then some 0 else elim later [ none ↦ none | some i ↦ some (suc i) ]

  abbrev pick : ℕ → Items B → Console → Outcome SyncError (ResolvePromptResult B × Console)
  pick i items console = elim (get_elem? items i) [ none ↦ panic | some (_, r) ↦ ok (r, console) ]

  -- Without a prepared answer: the user's choice, or the last item, which cancels.
  unfoldable pub ask : Items B → Console → Outcome SyncError (ResolvePromptResult B × Console)
  ask items console =
      if not console.attended
      then pick (length items - 1) items console
      else elim console.selections [
        | [] ↦ blocked
        | some i ∷ rest ↦ pick i items (record console { selections = rest })
        | none ∷ rest ↦ pick (length items - 1) items (record console { selections = rest })
      ]

-- `is_match` is the `regex` crate's: pattern, then text.
module _ (is_match : Str → Str → Bool) where
  unfoldable pub get_response : Str → List TestResponse → Option Str × List TestResponse
  get_response prompt [] = (none, [])
  get_response prompt (r ∷ rs) =
      let (answer, rest) = get_response prompt rs in
      if is_match r.regex prompt && ltb 0 r.max_occurences
      then (some (r.response), record r { max_occurences = r.max_occurences - 1 } ∷ rs)
      else (answer, r ∷ rest)

  unfoldable pub resolve_prompt :
      {B : Type 0}
      → Str
      → List (Str × B)
      → Bool
      → B
      → Console
      → Outcome SyncError (ResolvePromptResult B × Console)
  unfolding get_response menu position ask
  resolve_prompt prompt options include_always_versions cancel_behaviour console =
      let items = menu options include_always_versions cancel_behaviour in
      let (answer, responses) = get_response prompt console.responses in
      let console' : Console = record console { responses = responses } in
      elim answer [
        | some name ↦ elim (position name items) [ none ↦ panic | some i ↦ pick i items console' ]
        | none ↦ ask items console'
      ]
