-- ===== src/Prompt/Answers.antt =====
-- What a prompt can be answered with.
use rjrssync.Common.{
  ℕ, zero, suc, ◌-◌, Bool, true, false, Option, none, some, List, [], ◌∷◌, ◌++◌, Str, ok, length,
  length-append, get_elem?, ◌≡◌, refl, arith, codes, ◌⊎◌, inl, inr, Option-cases, Bool-cases,
}
use rjrssync.Prompt.{
  Console, ResolvePromptResult, once, resolve_prompt, menu, option_items, ask, get_response, pick,
  position,
}

get_elem?-last : {A : Type 0} (xs : List A) (a : A) → get_elem? (xs ++ a ∷ []) (length xs) ≡ some a
get_elem?-last [] a = refl
get_elem?-last (x ∷ xs) a = get_elem?-last xs a

-- The last item of a menu is the cancel behaviour.
last_is_cancel :
    {B : Type 0} (options : List (Str × B)) (always_too : Bool) (cancel : B)
    → get_elem? (menu options always_too cancel) (length (menu options always_too cancel) - 1)
      ≡ some (codes "Cancel sync", once cancel)
unfolding menu
last_is_cancel options always_too cancel =
    rw (length-append (option_items options always_too) ((codes "Cancel sync", once cancel) ∷ [])) (
      ground (
        arith,
        get_elem?-last (option_items options always_too) (codes "Cancel sync", once cancel),
      ))

abbrev pub OneOf : {B : Type 0} → B → List (Str × B) → Type 0
OneOf b [] = ⊥
OneOf b ((_, c) ∷ options) = (b ≡ c) ⊎ OneOf b options

module _ {B : Type 0} where
  abbrev pub Allowed : List (Str × B) → Bool → B → ResolvePromptResult B → Type 0
  Allowed options include_always_versions cancel r =
      (OneOf r.immediate_behaviour options ⊎ (r.immediate_behaviour ≡ cancel))
      × ((r.remembered_behaviour ≡ none)
          ⊎ ((include_always_versions ≡ true)
              × (r.remembered_behaviour ≡ some (r.immediate_behaviour))))

  menu-Allowed :
      (options : List (Str × B)) (always_too : Bool) (cancel : B) (i : ℕ) (name : Str)
      (r : ResolvePromptResult B)
      → get_elem? (menu options always_too cancel) i ≡ some (name, r)
      → Allowed options always_too cancel r
  unfolding menu
  menu-Allowed [] always_too cancel zero name r h = ground arith
  menu-Allowed [] always_too cancel (suc i) name r h = absurd (ground arith)
  menu-Allowed ((n, b) ∷ options) true cancel zero name r h = ground arith
  menu-Allowed ((n, b) ∷ options) true cancel (suc zero) name r h = ground arith
  menu-Allowed ((n, b) ∷ options) true cancel (suc (suc i)) name r h =
      ground (arith, menu-Allowed options true cancel i name r h)
  menu-Allowed ((n, b) ∷ options) false cancel zero name r h = ground arith
  menu-Allowed ((n, b) ∷ options) false cancel (suc i) name r h =
      ground (arith, menu-Allowed options false cancel i name r h)

  module _ (options : List (Str × B)) (always_too : Bool) (cancel : B) where
    pick-Allowed :
        (i : ℕ) (console console' : Console) (r : ResolvePromptResult B)
        → pick i (menu options always_too cancel) console ≡ ok (r, console')
        → Allowed options always_too cancel r
    pick-Allowed i console console' r h =
        elim (Option-cases (get_elem? (menu options always_too cancel) i)) [
          | inl missing ↦ absurd (ground arith)
          | inr ((name, r'), found) ↦ menu-Allowed options always_too cancel i name r (ground arith)
        ]

    chosen-Allowed :
        (selections : List (Option ℕ)) (console console' : Console) (r : ResolvePromptResult B)
        → console.selections ≡ selections
        → console.attended ≡ true
        → ask (menu options always_too cancel) console ≡ ok (r, console')
        → Allowed options always_too cancel r
    unfolding ask
    chosen-Allowed [] console console' r e here h = absurd (ground arith)
    chosen-Allowed (some i ∷ rest) console console' r e here h =
        pick-Allowed i (record console { selections = rest }) console' r (ground arith)
    chosen-Allowed (none ∷ rest) console console' r e here h =
        pick-Allowed (length (menu options always_too cancel) - 1)
          (record console { selections = rest }) console' r (ground arith)

    ask-Allowed :
        (console console' : Console) (r : ResolvePromptResult B)
        → ask (menu options always_too cancel) console ≡ ok (r, console')
        → Allowed options always_too cancel r
    unfolding ask
    ask-Allowed console console' r h = elim (Bool-cases console.attended) [
      | inl here ↦ chosen-Allowed console.selections console console' r refl here h
      | inr nobody ↦
          pick-Allowed (length (menu options always_too cancel) - 1) console console' r
            (ground arith)
    ]

module _ {B : Type 0} (is_match : Str → Str → Bool) where
  -- With no prepared answer and nobody at the terminal, a prompt is answered by its cancel
  -- behaviour, which is not remembered, and nothing is used up.
  pub resolve_prompt_unattended :
      (prompt : Str) (options : List (Str × B)) (include_always_versions : Bool) (cancel : B)
      (console : Console)
      → console.responses ≡ []
      → console.attended ≡ false
      → resolve_prompt is_match prompt options include_always_versions cancel console
        ≡ ok (once cancel, console)
  unfolding resolve_prompt
  resolve_prompt_unattended prompt options always_too cancel console none_left nobody =
      ground (arith, last_is_cancel options always_too cancel)

  -- Whatever answers it, a prompt that returns gives one of the options or the cancel behaviour, and
  -- remembers either nothing or just that behaviour; it remembers nothing unless the menu offers to.
  pub resolve_prompt_answers :
      (prompt : Str) (options : List (Str × B)) (include_always_versions : Bool) (cancel : B)
      (console console' : Console) (r : ResolvePromptResult B)
      → resolve_prompt is_match prompt options include_always_versions cancel console
        ≡ ok (r, console')
      → (OneOf r.immediate_behaviour options ⊎ (r.immediate_behaviour ≡ cancel))
        × ((r.remembered_behaviour ≡ none)
            ⊎ ((include_always_versions ≡ true)
                × (r.remembered_behaviour ≡ some (r.immediate_behaviour))))
  unfolding resolve_prompt
  resolve_prompt_answers prompt options always_too cancel console console' r h =
      elim (Option-cases (get_response is_match prompt console.responses).0) [
        | inl unanswered ↦
            ask-Allowed options always_too cancel _ console' r
              (rw (unanswered, resolve_prompt) at h)
        | inr (name, answered) ↦
            elim (Option-cases (position name (menu options always_too cancel))) [
              | inl unknown ↦ absurd (ground arith)
              | inr (i, known) ↦
                  pick-Allowed options always_too cancel i
                    (record console {
                      responses = (get_response is_match prompt console.responses).1;
                    })
                    console' r (ground arith)
            ]
      ]
