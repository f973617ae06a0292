-- ===== src/OrderedMap.antt =====
-- src/ordered_map.rs: a map that iterates in the order of insertion. A vector holds the keys in
-- that order, and a `HashMap` the values; removed keys stay in the vector.
pub mod Contents
pub mod Tracks
use rjrssync.Common.{ℕ, Option, none, some, List, [], ◌∷◌, ◌++◌, Eq, if◌then◌else◌, reverse, length}
use rjrssync.Common.HashMap.{HashMap, get, insert}
use rjrssync.Common.HashMap

pub record OrderedMap {ℓ κ} (K : Type ℓ) (V : Type κ) : Type (ℓ ⊔ κ) where
  pub vec : List K
  pub map : HashMap K V

unfoldable pub new {ℓ κ} : {K : Type ℓ} {V : Type κ} → OrderedMap K V
new = record { vec = []; map = [] }

module _ {ℓ κ} {K : Type ℓ} {V : Type κ} ⦃e : Eq K⦄ where
  unfoldable pub add : K → V → OrderedMap K V → OrderedMap K V
  add k v m = record { vec = m.vec ++ (k ∷ []); map = insert k v m.map }

  unfoldable pub len : OrderedMap K V → ℕ
  len m = length m.map

  -- `vec.iter().filter_map(..)`
  unfoldable pub iter_over : HashMap K V → List K → List (K × V)
  iter_over map [] = []
  iter_over map (k ∷ ks) =
      let rest = iter_over map ks in elim (get k map) [ none ↦ rest | some v ↦ (k, v) ∷ rest ]

  unfoldable pub iter : OrderedMap K V → List (K × V)
  iter m = iter_over m.map m.vec

  unfoldable pub lookup : K → OrderedMap K V → Option V
  lookup k m = get k m.map

  unfoldable pub remove : K → OrderedMap K V → OrderedMap K V
  remove k m = record m { map = HashMap.remove k m.map }

  unfoldable pub reverse_order : OrderedMap K V → OrderedMap K V
  reverse_order m = record m { vec = reverse m.vec }

  -- `none` is the panic of `get_mut(k).unwrap()` on a missing key.
  unfoldable pub update : K → V → OrderedMap K V → Option (OrderedMap K V)
  update k v m = elim (get k m.map) [
    | none ↦ none
    | some _ ↦ some (record m { map = insert k v m.map })
  ]
