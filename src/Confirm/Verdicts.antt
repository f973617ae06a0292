-- ===== src/Confirm/Verdicts.antt =====
-- Actions that are taken, left out or refused, each by a verdict on what it is.
use rjrssync.Common.{
  append_assoc, ◌⊎◌, Bool, true, false, Option, none, some, List, [], ◌∷◌, ◌++◌, Bool-cases, inl,
  inr, if◌then◌else◌, ◌≡◌, ◌≢◌, refl, arith, contains, eq_self,
}
use rjrssync.Common.HashMap.{get, NodupKeys}
use rjrssync.OrderedMap.{OrderedMap, iter, lookup}
use rjrssync.OrderedMap
use rjrssync.OrderedMap.Contents.{IsValid, iter-lookup, lookup-remove}
use rjrssync.Path.{RootRelativePath, path_eq}
use rjrssync.Confirm.{remove_all}

pub data Verdict : Type 0 where
  take leave refuse : Verdict

pub refuse_or_not : (v : Verdict) → (v ≡ refuse) ⊎ (v ≢ refuse)
refuse_or_not take = inr (λ e. cc)
refuse_or_not leave = inr (λ e. cc)
refuse_or_not refuse = inl refl

abbrev pub leaves : Verdict → Bool
leaves leave = true
leaves _ = false

module _ {V : Type 0} (verdict : V → Verdict) where
  abbrev pub left_out : List (RootRelativePath × V) → List RootRelativePath
  left_out [] = []
  left_out ((p, v) ∷ items) = elim (verdict v) [
    | take ↦ left_out items
    | leave ↦ p ∷ left_out items
    | refuse ↦ left_out items
  ]

  abbrev pub NoneRefused : List (RootRelativePath × V) → Type 0
  NoneRefused [] = Unit
  NoneRefused ((_, v) ∷ items) = (verdict v ≢ refuse) × NoneRefused items

  pub append-left_out :
      (ps : List RootRelativePath) (p : RootRelativePath) (v : V)
      (items : List (RootRelativePath × V))
      → (ps ++ left_out ((p, v) ∷ [])) ++ left_out items ≡ ps ++ left_out ((p, v) ∷ items)
  append-left_out ps p v items =
      ground (arith, append_assoc ps (left_out ((p, v) ∷ [])) (left_out items))

  -- What is left of an action.
  abbrev pub taken : Option V → Option V
  taken none = none
  taken (some v) = if leaves (verdict v) then none else some v

  leaves_at : Option V → Bool
  leaves_at none = false
  leaves_at (some v) = leaves (verdict v)

  contains-left_out :
      (items : List (RootRelativePath × V)) (p : RootRelativePath)
      → NodupKeys items
      → contains (left_out items) p ≡ leaves_at (get p items)
  unfolding get leaves_at
  contains-left_out [] p _ = refl
  contains-left_out ((q, v) ∷ items) p (fresh, u) =
      ground (arith, contains-left_out items p u, path_eq.beq_iff q p)

  pub NoneRefused-get :
      (items : List (RootRelativePath × V))
      → NodupKeys items
      → ((p : RootRelativePath) (v : V) → get p items ≡ some v → verdict v ≢ refuse)
      → NoneRefused items
  unfolding get
  NoneRefused-get [] _ h = tt
  NoneRefused-get ((q, v) ∷ items) (fresh, u) h = (
    h q v (rw (eq_self q) refl),
    NoneRefused-get items u (λ p w e. h p w (ground (arith, path_eq.beq_iff q p))),
  )

  pub get-NoneRefused :
      (items : List (RootRelativePath × V))
      → NoneRefused items
      → (p : RootRelativePath) (v : V) → get p items ≡ some v
      → verdict v ≢ refuse
  unfolding get
  get-NoneRefused [] _ p v h = cc
  get-NoneRefused ((q, w) ∷ items) (first, rest) p v h = elim (Bool-cases (path_eq.beq q p)) [
    | inl here ↦ λ e. first (ground arith)
    | inr there ↦ get-NoneRefused items rest p v (ground arith)
  ]

  lookup-remove_all :
      (ps : List RootRelativePath) (m : OrderedMap RootRelativePath V) (p : RootRelativePath)
      → lookup p (remove_all ps m) ≡ (if contains ps p then none else lookup p m)
  unfolding remove_all
  lookup-remove_all [] m p = refl
  lookup-remove_all (q ∷ ps) m p =
      ground (arith, lookup-remove_all ps (OrderedMap.remove q m) p, lookup-remove q p m)

  -- Removing what is left out.
  pub lookup-left_out :
      (m : OrderedMap RootRelativePath V)
      → IsValid m
      → (p : RootRelativePath) → lookup p (remove_all (left_out (iter m)) m) ≡ taken (lookup p m)
  unfolding leaves_at
  lookup-left_out m i p =
      let (u, same, _) = iter-lookup m i in
      ground
        (arith, lookup-remove_all (left_out (iter m)) m p, contains-left_out (iter m) p u, same p)
