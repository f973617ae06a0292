-- ===== src/OrderedMap/Contents.antt =====
-- What an ordered map holds: the operations by `lookup`, and iteration against the map.
use rjrssync.Common.{
  Option, none, some, Option-cases, List, [], ◌∷◌, ◌++◌, Eq, ◌==◌, if◌then◌else◌, reverse, length,
  true, false, ◌≡◌, refl, inl, inr, arith, contains, Subseq, nil, skip, keep, eq_self, ap,
}
use rjrssync.Common.HashMap.{
  HashMap, get, keys, NodupKeys, get-nil, get-cons, get-insert, get-remove, insert-NodupKeys,
  remove-NodupKeys, length-remove,
}
use rjrssync.Common.HashMap
use rjrssync.OrderedMap.{
  OrderedMap, new, add, len, iter_over, iter, lookup, remove, reverse_order, update,
}

module _ {ℓ} {K : Type ℓ} ⦃e : Eq K⦄ where
  abbrev pub Nodup : List K → Type 0
  Nodup [] = Unit
  Nodup (k ∷ ks) = (contains ks k ≡ false) × Nodup ks

  pub contains-append :
      (xs ys : List K) (k : K)
      → contains (xs ++ ys) k ≡ (if contains xs k then true else contains ys k)
  contains-append [] ys k = refl
  contains-append (x ∷ xs) ys k = ground (arith, contains-append xs ys k)

  pub contains-reverse : (xs : List K) (k : K) → contains (reverse xs) k ≡ contains xs k
  contains-reverse [] k = refl
  contains-reverse (x ∷ xs) k =
      ground (arith, contains-append (reverse xs) (x ∷ []) k, contains-reverse xs k)

  Nodup-snoc : (xs : List K) (k : K) → Nodup xs → contains xs k ≡ false → Nodup (xs ++ (k ∷ []))
  Nodup-snoc [] k _ h = (refl, tt)
  Nodup-snoc (x ∷ xs) k (fresh, u) h =
      ground (arith, contains-append xs (k ∷ []) x, Nodup-snoc xs k u, e.beq_iff x k, e.beq_iff k x)

  pub Nodup-reverse : (xs : List K) → Nodup xs → Nodup (reverse xs)
  Nodup-reverse [] _ = tt
  Nodup-reverse (x ∷ xs) (fresh, u) =
      Nodup-snoc (reverse xs) x (Nodup-reverse xs u) (ground (arith, contains-reverse xs x))

module _ {ℓ κ} {K : Type ℓ} {V : Type κ} ⦃e : Eq K⦄ where
  pub lookup-add :
      (k j : K) (v : V) (m : OrderedMap K V)
      → lookup j (add k v m) ≡ (if k == j then some v else lookup j m)
  unfolding lookup add
  lookup-add k j v m = get-insert k j v m.map

  pub lookup-remove :
      (k j : K) (m : OrderedMap K V) → lookup j (remove k m) ≡ (if k == j then none else lookup j m)
  unfolding lookup remove
  lookup-remove k j m = get-remove k j m.map

  -- An update of a key that is there succeeds, and leaves the order alone.
  pub update_present :
      (k : K) (v w : V) (m : OrderedMap K V)
      → lookup k m ≡ some w
      → (m' : OrderedMap K V) × (update k v m ≡ some m')
        × (m'.vec ≡ m.vec)
        × ((j : K) → lookup j m' ≡ (if k == j then some v else lookup j m))
  unfolding lookup update
  update_present k v w m h =
      (record m { map = HashMap.insert k v m.map }, ground arith, refl, λ j. get-insert k j v m.map)

  -- The representation invariant.
  pub record IsValid (m : OrderedMap K V) : Type (ℓ ⊔ κ) where
    pub vec_nodup : Nodup m.vec
    pub map_nodup : NodupKeys m.map
    pub covered : (k : K) (v : V) → lookup k m ≡ some v → contains m.vec k ≡ true

  pub new-IsValid : IsValid new
  unfolding new lookup
  new-IsValid = record { vec_nodup = tt; map_nodup = tt; covered = λ k v h. cc (get-nil {V = V} k) }

  -- Adding a key that was never added before.
  pub add-IsValid :
      (k : K) (v : V) (m : OrderedMap K V)
      → contains m.vec k ≡ false
      → IsValid m
      → IsValid (add k v m)
  unfolding add lookup
  add-IsValid k v m fresh i = record {
    vec_nodup = Nodup-snoc m.vec k i.vec_nodup fresh;
    map_nodup = insert-NodupKeys k v m.map i.map_nodup;
    covered = λ j w h.
        ground (arith, contains-append m.vec (k ∷ []) j, get-insert k j v m.map, i.covered j w);
  }

  pub remove-IsValid : (k : K) (m : OrderedMap K V) → IsValid m → IsValid (remove k m)
  unfolding remove lookup
  remove-IsValid k m i = record {
    vec_nodup = i.vec_nodup;
    map_nodup = remove-NodupKeys k m.map i.map_nodup;
    covered = λ j w h. ground (arith, get-remove k j m.map, i.covered j w);
  }

  update_eq :
      (k : K) (v : V) (m m' : OrderedMap K V)
      → update k v m ≡ some m'
      → (w : V) × (get k m.map ≡ some w) × (m' ≡ record m { map = HashMap.insert k v m.map })
  unfolding update
  update_eq k v m m' h = elim (Option-cases (get k m.map)) [
    | inl absent ↦ absurd (ground arith)
    | inr (w, present) ↦ (w, present, ground arith)
  ]

  inserted-IsValid :
      (k : K) (v w : V) (m : OrderedMap K V)
      → get k m.map ≡ some w
      → IsValid m
      → IsValid (record m { map = HashMap.insert k v m.map })
  unfolding lookup
  inserted-IsValid k v w m present i = record {
    vec_nodup = i.vec_nodup;
    map_nodup = insert-NodupKeys k v m.map i.map_nodup;
    covered = λ j x h.
        ground (arith, get-insert k j v m.map, i.covered j x, i.covered k w present, e.beq_iff k j);
  }

  pub update-IsValid :
      (k : K) (v : V) (m m' : OrderedMap K V) → update k v m ≡ some m' → IsValid m → IsValid m'
  update-IsValid k v m m' h i =
      let (w, present, result) = update_eq k v m m' h in
      rw result (inserted-IsValid k v w m present i)

  pub reverse_order-IsValid : (m : OrderedMap K V) → IsValid m → IsValid (reverse_order m)
  unfolding reverse_order lookup
  reverse_order-IsValid m i = record {
    vec_nodup = Nodup-reverse m.vec i.vec_nodup;
    map_nodup = i.map_nodup;
    covered = λ j w h. ground (arith, contains-reverse m.vec j, i.covered j w);
  }

  get-iter_over :
      (map : HashMap K V) (ks : List K) (j : K)
      → get j (iter_over map ks) ≡ (if contains ks j then get j map else none)
  unfolding iter_over get
  get-iter_over map [] j = refl
  get-iter_over map (k ∷ ks) j = ground (arith, get-iter_over map ks j, e.beq_iff k j)

  iter_over-NodupKeys : (map : HashMap K V) (ks : List K) → Nodup ks → NodupKeys (iter_over map ks)
  unfolding iter_over
  iter_over-NodupKeys map [] _ = tt
  iter_over-NodupKeys map (k ∷ ks) (fresh, u) =
      ground (arith, iter_over-NodupKeys map ks u, get-iter_over map ks k)

  iter_over-remove :
      (map : HashMap K V) (k : K) (ks : List K)
      → contains ks k ≡ false
      → iter_over (HashMap.remove k map) ks ≡ iter_over map ks
  unfolding iter_over
  iter_over-remove map k [] h = refl
  iter_over-remove map k (j ∷ ks) h =
      ground (arith, iter_over-remove map k ks, get-remove k j map, e.beq_iff j k, e.beq_iff k j)

  length-iter_over :
      (ks : List K) (map : HashMap K V)
      → Nodup ks
      → NodupKeys map
      → ((k : K) (v : V) → get k map ≡ some v → contains ks k ≡ true)
      → length (iter_over map ks) ≡ length map
  unfolding iter_over
  length-iter_over [] [] _ _ c = refl
  length-iter_over [] ((k, v) ∷ map) _ _ c =
      absurd (ground (arith, c k v, get-cons k k v map, eq_self k))
  length-iter_over (k ∷ ks) map (fresh, u) n c = elim (Option-cases (get k map)) [
    | inl absent ↦
        rw (absent, iter_over)
          (length-iter_over ks map u n (λ j v h. ground (arith, c j v h, e.beq_iff k j)))
    | inr (v, present) ↦
        rw (present, iter_over)
          (omega (
            arith,
            length-remove k map n present,
            ap length (iter_over-remove map k ks fresh),
            length-iter_over ks (HashMap.remove k map) u (remove-NodupKeys k map n)
                (λ j w h. ground (arith, c j w, get-remove k j map, e.beq_iff k j)),
          ))
  ]

  keys-iter_over : (map : HashMap K V) (ks : List K) → Subseq (keys (iter_over map ks)) ks
  unfolding iter_over
  keys-iter_over map [] = nil
  keys-iter_over map (k ∷ ks) = elim (Option-cases (get k map)) [
    | inl e ↦ rw (e, iter_over) (skip (keys-iter_over map ks))
    | inr (v, e) ↦ rw (e, iter_over) (keep (keys-iter_over map ks))
  ]

  -- On a valid map iteration yields every key of the map once, with its value, and nothing else, and
  -- `len` counts what it yields.
  pub iter-lookup :
      (m : OrderedMap K V)
      → IsValid m
      → NodupKeys (iter m) × ((k : K) → get k (iter m) ≡ lookup k m) × (length (iter m) ≡ len m)
  unfolding iter lookup len
  iter-lookup m i = (
    iter_over-NodupKeys m.map m.vec i.vec_nodup,
    λ k. iter_get k (get k m.map) refl,
    length-iter_over m.vec m.map i.vec_nodup i.map_nodup i.covered,
  )
    where
      iter_get :
          (k : K) (o : Option V) → get k m.map ≡ o → get k (iter_over m.map m.vec) ≡ get k m.map
      iter_get k none h = ground (arith, get-iter_over m.map m.vec k)
      iter_get k (some v) h = ground (arith, get-iter_over m.map m.vec k, i.covered k v)

  -- Iteration keeps the order of the vector.
  pub keys-iter : (m : OrderedMap K V) → Subseq (keys (iter m)) m.vec
  unfolding iter
  keys-iter m = keys-iter_over m.map m.vec
