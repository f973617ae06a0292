-- ===== src/Common/HashMap.antt =====
-- `std::collections::HashMap`, as far as the program sees it: a finite map. The order of the pairs
-- is never observed.
use rjrssync.Common.Tests.{if◌then◌else◌}
use rjrssync.Common.Equality.{Eq, ◌==◌}
use rjrssync.Common.Lists.{length}
use Prim.Native.Nat.{suc}
use mathlib.Core.Path.{◌≡◌, refl}
use mathlib.Core.Option.{Option, none, some}
use mathlib.Core.List.{List, [], ◌∷◌, ◌++◌}
use native.Mathlib.Omega.{arith}

abbrev pub HashMap {ℓ κ} : Type ℓ → Type κ → Type (ℓ ⊔ κ)
HashMap K V = List (K × V)

abbrev pub keys {ℓ κ} : {K : Type ℓ} {V : Type κ} → HashMap K V → List K
keys [] = []
keys ((k, _) ∷ m) = k ∷ keys m

module _ {ℓ κ} {K : Type ℓ} {V : Type κ} ⦃e : Eq K⦄ where
  unfoldable pub get : K → HashMap K V → Option V
  get k [] = none
  get k ((j, v) ∷ m) = if j == k then some v else get k m

  unfoldable pub insert : K → V → HashMap K V → HashMap K V
  insert k v [] = (k, v) ∷ []
  insert k v ((j, w) ∷ m) = if j == k then (k, v) ∷ m else (j, w) ∷ insert k v m

  unfoldable pub remove : K → HashMap K V → HashMap K V
  remove k [] = []
  remove k ((j, w) ∷ m) = let rest = remove k m in if j == k then rest else (j, w) ∷ rest

  -- No key is listed twice.
  abbrev pub NodupKeys : HashMap K V → Type κ
  NodupKeys [] = Unit
  NodupKeys ((k, _) ∷ m) = (get k m ≡ none) × NodupKeys m

  pub get-nil : (k : K) → get k [] ≡ none
  unfolding get
  get-nil k = refl

  pub get-cons :
      (k j : K) (v : V) (m : HashMap K V)
      → get k ((j, v) ∷ m) ≡ (if j == k then some v else get k m)
  unfolding get
  get-cons k j v m = refl

  pub get-insert :
      (k j : K) (v : V) (m : HashMap K V)
      → get j (insert k v m) ≡ (if k == j then some v else get j m)
  unfolding get insert
  get-insert k j v [] = refl
  get-insert k j v ((i, w) ∷ m) =
      ground (arith, e.beq_iff k j, e.beq_iff i k, e.beq_iff i j, get-insert k j v m)

  pub get-remove :
      (k j : K) (m : HashMap K V) → get j (remove k m) ≡ (if k == j then none else get j m)
  unfolding get remove
  get-remove k j [] = ground arith
  get-remove k j ((i, w) ∷ m) =
      ground (arith, e.beq_iff k j, e.beq_iff i k, e.beq_iff i j, get-remove k j m)

  pub insert-NodupKeys : (k : K) (v : V) (m : HashMap K V) → NodupKeys m → NodupKeys (insert k v m)
  unfolding insert
  insert-NodupKeys k v [] _ = (get-nil k, tt)
  insert-NodupKeys k v ((j, w) ∷ m) (fresh, u) =
      ground (arith, insert-NodupKeys k v m u, get-insert k j v m, e.beq_iff j k, e.beq_iff k j)

  pub remove-NodupKeys : (k : K) (m : HashMap K V) → NodupKeys m → NodupKeys (remove k m)
  unfolding remove
  remove-NodupKeys k [] _ = tt
  remove-NodupKeys k ((j, w) ∷ m) (fresh, u) =
      ground (arith, remove-NodupKeys k m u, get-remove k j m)

  pub length-remove :
      (k : K) (m : HashMap K V) {v : V}
      → NodupKeys m
      → get k m ≡ some v
      → length m ≡ suc (length (remove k m))
  unfolding get remove
  length-remove k [] u h = cc
  length-remove k ((j, w) ∷ m) {v} (fresh, u) h =
      ground (arith, length-remove k m {v = v} u, remove_absent k m, e.beq_iff j k)
    where
      remove_absent : (k : K) (m : HashMap K V) → get k m ≡ none → remove k m ≡ m
      remove_absent k [] h = refl
      remove_absent k ((j, w) ∷ m) h = ground (arith, remove_absent k m)

  pub get-append :
      (k : K) (m n : HashMap K V) {r : Option V}
      → get k m ≡ r
      → get k (m ++ n) ≡ (elim r [ some v ↦ some v | none ↦ get k n ])
  unfolding get
  get-append k [] n {r} h = ground arith
  get-append k ((j, w) ∷ m) n {r} h = ground (arith, get-append k m n {r = r})
