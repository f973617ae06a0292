-- ===== src/OrderedMap/Tracks.antt =====
-- An ordered map against what it should hold: a value for each key, and a list that bounds the keys
-- and their order.
use rjrssync.Common.{
  Option, none, some, List, [], ◌∷◌, ◌++◌, Eq, ◌==◌, if◌then◌else◌, true, false, ◌≡◌, ◌≢◌, refl,
  ◌∙◌, sym, arith, contains, Subseq, nil, skip, keep, Subseq-append, Subseq-refl, Subseq-reverse,
  reverse, Option-cases, inl, inr, eq_self,
}
use rjrssync.Common.HashMap.{HashMap, get, keys, get-nil}
use rjrssync.OrderedMap.{
  OrderedMap, new, add, lookup, remove, update, iter_over, iter, reverse_order,
}
use rjrssync.OrderedMap.Contents.{
  lookup-add, lookup-remove, update_present, IsValid, new-IsValid, add-IsValid, remove-IsValid,
  update-IsValid, reverse_order-IsValid, Nodup,
}

module _ {ℓ} {K : Type ℓ} ⦃e : Eq K⦄ where
  contains-Subseq :
      (k : K) {xs ys : List K} → Subseq xs ys → contains ys k ≡ false → contains xs k ≡ false
  contains-Subseq k nil h = h
  contains-Subseq k (skip s) h = contains-Subseq k s (ground arith)
  contains-Subseq k (keep s) h = ground (arith, contains-Subseq k s)

  Subseq-append_nothing : {xs ys : List K} (zs : List K) → Subseq xs ys → Subseq xs (ys ++ zs)
  Subseq-append_nothing zs nil = Subseq-none zs
    where
      Subseq-none : (zs : List K) → Subseq [] zs
      Subseq-none [] = nil
      Subseq-none (z ∷ zs) = skip (Subseq-none zs)
  Subseq-append_nothing zs (skip s) = skip (Subseq-append_nothing zs s)
  Subseq-append_nothing zs (keep s) = keep (Subseq-append_nothing zs s)

module _ {ℓ κ} {K : Type ℓ} {V : Type κ} ⦃e : Eq K⦄ where
  pub record Tracks (m : OrderedMap K V) (want : K → Option V) (order : List K) : Type (ℓ ⊔ κ) where
    pub holds : (k : K) → lookup k m ≡ want k
    pub ordered : Subseq m.vec order
    pub valid : IsValid m

  module _ {m : OrderedMap K V} {want : K → Option V} {order : List K}
      (t : Tracks m want order) where
    -- A key that the list does not have is added at the end of both.
    pub Tracks-add :
        (k : K) (v : V) (want' : K → Option V)
        → contains order k ≡ false
        → ((j : K) → want' j ≡ (if k == j then some v else want j))
        → Tracks (add k v m) want' (order ++ k ∷ [])
    unfolding add
    Tracks-add k v want' fresh h = record {
      holds = λ j. ground (arith, lookup-add k j v m, t.holds j, h j);
      ordered = Subseq-append t.ordered (Subseq-refl (k ∷ []));
      valid = add-IsValid k v m (contains-Subseq k t.ordered fresh) t.valid;
    }

    pub Tracks-remove :
        (k : K) (want' : K → Option V)
        → ((j : K) → want' j ≡ (if k == j then none else want j))
        → Tracks (remove k m) want' order
    unfolding remove
    Tracks-remove k want' h = record {
      holds = λ j. ground (arith, lookup-remove k j m, t.holds j, h j);
      ordered = t.ordered;
      valid = remove-IsValid k m t.valid;
    }

    -- An update succeeds where a value is wanted.
    pub Tracks-update :
        (k : K) (v w : V) (want' : K → Option V)
        → want k ≡ some w
        → ((j : K) → want' j ≡ (if k == j then some v else want j))
        → (m' : OrderedMap K V) × (update k v m ≡ some m') × Tracks m' want' order
    Tracks-update k v w want' present h =
        let (m', updated, same_vec, after) = update_present k v w m (t.holds k ∙ present) in
        (
          m',
          updated,
          record {
            holds = λ j. ground (arith, after j, t.holds j, h j);
            ordered = rw same_vec t.ordered;
            valid = update-IsValid k v m m' updated t.valid;
          },
        )

    -- The map stays, and the list may grow.
    pub Tracks-keep :
        (want' : K → Option V) (more : List K)
        → ((j : K) → want' j ≡ want j)
        → Tracks m want' (order ++ more)
    Tracks-keep want' more h = record {
      holds = λ j. t.holds j ∙ sym (h j);
      ordered = Subseq-append_nothing more t.ordered;
      valid = t.valid;
    }

    pub Tracks-same : (want' : K → Option V) → ((j : K) → want' j ≡ want j) → Tracks m want' order
    Tracks-same want' h = record {
      holds = λ j. t.holds j ∙ sym (h j);
      ordered = t.ordered;
      valid = t.valid;
    }

  pub new-Tracks : (want : K → Option V) → ((k : K) → want k ≡ none) → Tracks new want []
  unfolding new lookup
  new-Tracks want h = record {
    holds = λ k. get-nil k ∙ sym (h k);
    ordered = nil;
    valid = new-IsValid;
  }

module _ {ℓ κ} {K : Type ℓ} {V : Type κ} ⦃e : Eq K⦄ where
  -- The keys of a list that have a value, with the value, in the order of the list.
  unfoldable pub select : (K → Option V) → List K → List (K × V)
  select want [] = []
  select want (k ∷ ks) =
      let rest = select want ks in elim (want k) [ none ↦ rest | some v ↦ (k, v) ∷ rest ]

  iter_over-select :
      (map : HashMap K V) (want : K → Option V) {xs ys : List K}
      → Subseq xs ys
      → Nodup ys
      → ((k : K) → get k map ≡ want k)
      → ((k : K) (v : V) → want k ≡ some v → contains ys k ≡ true → contains xs k ≡ true)
      → iter_over map xs ≡ select want ys
  unfolding iter_over select
  iter_over-select map want nil u h c = refl
  iter_over-select map want (skip {x = x} {xs = xs} {ys = ys} s) (fresh, u) h c =
      elim (Option-cases (want x)) [
        | inl absent ↦
            rw (absent, select)
              (iter_over-select map want s u h (λ k v p q. c k v p (ground arith)))
        | inr (v, present) ↦
            absurd (ground (arith, c x v present, contains-Subseq x s fresh, eq_self x))
      ]
  iter_over-select map want (keep {x = x} {xs = xs} {ys = ys} s) (fresh, u) h c =
      let rest : iter_over map xs ≡ select want ys =
        iter_over-select map want s u h (λ k v p q. ground (arith, c k v p, e.beq_iff x k)) in
      ground (arith, h x, rest)

  -- What iteration yields is settled by the values and the order alone.
  pub iter-select :
      {m : OrderedMap K V} {want : K → Option V} {order : List K}
      → Nodup order
      → Tracks m want order
      → iter m ≡ select want order
  unfolding iter lookup
  iter-select {m} {want} {order} u t =
      iter_over-select m.map want t.ordered u t.holds
        (λ k v p q. t.valid.covered k v (t.holds k ∙ p))

  pub reverse_order-Tracks :
      {m : OrderedMap K V} {want : K → Option V} {order : List K}
      → Tracks m want order
      → Tracks (reverse_order m) want (reverse order)
  unfolding reverse_order lookup
  reverse_order-Tracks {m} t = record {
    holds = t.holds;
    ordered = Subseq-reverse t.ordered;
    valid = unfold reverse_order in reverse_order-IsValid m t.valid;
  }

  -- Keys with a value keep their order in the selection.
  pub Subseq-select :
      (want : K → Option V) {xs ys : List K}
      → Subseq xs ys
      → ((k : K) → contains xs k ≡ true → want k ≢ none)
      → Subseq xs (keys (select want ys))
  unfolding select
  Subseq-select want nil h = nil
  Subseq-select want (skip {x = x} s) h = elim (Option-cases (want x)) [
    | inl absent ↦ rw (absent, select) (Subseq-select want s h)
    | inr (v, present) ↦ rw (present, select) (skip (Subseq-select want s h))
  ]
  Subseq-select want (keep {x = x} s) h = elim (Option-cases (want x)) [
    | inl absent ↦ absurd (h x (ground (arith, eq_self x)) absent)
    | inr (v, present) ↦
        rw (present, select) (keep (Subseq-select want s (λ k q. h k (ground arith))))
  ]

  -- Where no key has a value nothing is selected.
  pub select-none :
      (want : K → Option V) (ks : List K) → ((k : K) → want k ≡ none) → select want ks ≡ []
  unfolding select
  select-none want [] h = refl
  select-none want (k ∷ ks) h = rw (h k, select) (select-none want ks h)
