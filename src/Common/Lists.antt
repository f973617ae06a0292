-- ===== src/Common/Lists.antt =====
-- Lists measured and indexed by native numbers, under the library's names, and subsequences.
use Prim.Native.Nat.{ℕ, zero, suc, ◌+◌}
use mathlib.Core.Path.{◌≡◌, refl, ap}
use mathlib.Core.List.{List, [], ◌∷◌, ◌++◌}
use mathlib.Core.Option.{Option, none, some}
use native.Mathlib.Omega.{arith}

module _ {ℓ} {A : Type ℓ} where
  abbrev pub length : List A → ℕ
  length [] = 0
  length (x ∷ xs) = suc (length xs)

  abbrev pub get_elem? : List A → ℕ → Option A
  get_elem? [] i = none
  get_elem? (x ∷ xs) zero = some x
  get_elem? (x ∷ xs) (suc i) = get_elem? xs i

  abbrev pub last? : List A → Option A
  last? [] = none
  last? (x ∷ []) = some x
  last? (x ∷ y ∷ xs) = last? (y ∷ xs)

  pub length-append : (xs ys : List A) → length (xs ++ ys) ≡ length xs + length ys
  length-append [] ys = omega arith
  length-append (x ∷ xs) ys = omega (arith, length-append xs ys)

module _ {ℓ κ} {A : Type ℓ} {B : Type κ} where
  abbrev pub map : (A → B) → List A → List B
  map f [] = []
  map f (x ∷ xs) = f x ∷ map f xs

  pub map-append : (f : A → B) (xs ys : List A) → map f (xs ++ ys) ≡ map f xs ++ map f ys
  map-append f [] ys = refl
  map-append f (x ∷ xs) ys = ap (◌∷◌ (f x)) (map-append f xs ys)

-- The first list is a subsequence of the second: its members in their order.
pub data Subseq {ℓ} {A : Type ℓ} : List A → List A → Type ℓ where
  nil : Subseq [] []
  skip : {x : A} {xs ys : List A} → Subseq xs ys → Subseq xs (x ∷ ys)
  keep : {x : A} {xs ys : List A} → Subseq xs ys → Subseq (x ∷ xs) (x ∷ ys)

module _ {ℓ} {A : Type ℓ} where
  pub Subseq-refl : (xs : List A) → Subseq xs xs
  Subseq-refl [] = nil
  Subseq-refl (x ∷ xs) = keep (Subseq-refl xs)

  pub Subseq-trans : {ys zs : List A} → Subseq ys zs → {xs : List A} → Subseq xs ys → Subseq xs zs
  Subseq-trans nil s = s
  Subseq-trans (skip t) s = skip (Subseq-trans t s)
  Subseq-trans (keep t) (skip s) = skip (Subseq-trans t s)
  Subseq-trans (keep t) (keep s) = keep (Subseq-trans t s)

  pub Subseq-append :
      {xs ys us vs : List A} → Subseq xs us → Subseq ys vs → Subseq (xs ++ ys) (us ++ vs)
  Subseq-append nil t = t
  Subseq-append (skip s) t = skip (Subseq-append s t)
  Subseq-append (keep s) t = keep (Subseq-append s t)

  -- `Vec::reverse`
  abbrev pub reverse : List A → List A
  reverse [] = []
  reverse (x ∷ xs) = reverse xs ++ (x ∷ [])

  Subseq-snoc : (x : A) {us vs : List A} → Subseq us vs → Subseq us (vs ++ (x ∷ []))
  Subseq-snoc x nil = skip nil
  Subseq-snoc x (skip t) = skip (Subseq-snoc x t)
  Subseq-snoc x (keep t) = keep (Subseq-snoc x t)

  pub Subseq-reverse : {xs ys : List A} → Subseq xs ys → Subseq (reverse xs) (reverse ys)
  Subseq-reverse nil = nil
  Subseq-reverse (skip {x = x} s) = Subseq-snoc x (Subseq-reverse s)
  Subseq-reverse (keep s) = Subseq-append (Subseq-reverse s) (keep nil)

abbrev pub All : {A : Type 0} → (A → Type 0) → List A → Type 0
All P [] = Unit
All P (x ∷ xs) = P x × All P xs

pub All-map :
    {A B : Type 0} (f : A → B) (P : B → Type 0)
    → ((x : A) → P (f x))
    → (xs : List A) → All P (map f xs)
All-map f P h [] = tt
All-map f P h (x ∷ xs) = (h x, All-map f P h xs)

pub All-append :
    {A : Type 0} (P : A → Type 0) (xs ys : List A) → All P xs → All P ys → All P (xs ++ ys)
All-append P [] ys h k = k
All-append P (x ∷ xs) ys (p, h) k = (p, All-append P xs ys h k)

module _ {ℓ} {A : Type ℓ} where
  abbrev pub take : ℕ → List A → List A
  take zero xs = []
  take (suc n) [] = []
  take (suc n) (x ∷ xs) = x ∷ take n xs

  abbrev pub drop : ℕ → List A → List A
  drop zero xs = xs
  drop (suc n) [] = []
  drop (suc n) (x ∷ xs) = drop n xs
