-- ===== src/Query/Steps.antt =====
-- One entry, on either side: the maps agree with the plan before and after it, and nothing panics.
use rjrssync.Common.{
  ℕ, Bool, true, false, Option, none, some, [], ◌∷◌, ◌++◌, ok, if◌then◌else◌, ◌≡◌, refl, arith, inl,
  inr, Bool-cases, Option-cases, contains,
}
use rjrssync.Common.HashMap.{HashMap, get, keys}
use rjrssync.OrderedMap
use rjrssync.OrderedMap.{lookup}
use rjrssync.OrderedMap.Tracks.{
  Tracks, Tracks-add, Tracks-remove, Tracks-update, Tracks-keep, Tracks-same,
}
use rjrssync.Interface.{EntryDetails}
use rjrssync.Path.{RootRelativePath, path_eq}
use rjrssync.Spec.{DestFileUpdateBehaviour}
use rjrssync.Sync.{SyncContext, CopyReason, incompatible, not_on_dest, not_on_source}
use rjrssync.Sync.Decide.{
  plan_delete, plan_copy, compatible, refresh, needs_delete-compatible, needs_copy-refresh,
}
use rjrssync.Query.{Query, count_src, count_dest, process_src_entry, process_dest_entry}

-- Entries in the order of their arrival.
abbrev pub Listing : Type 0
Listing = HashMap RootRelativePath EntryDetails

pub get-snoc :
    (p q : RootRelativePath) (d : EntryDetails) (l : Listing)
    → get p l ≡ none
    → get q (l ++ (p, d) ∷ []) ≡ (if path_eq.beq p q then some d else get q l)
unfolding get
get-snoc p q d [] h = refl
get-snoc p q d ((k, e) ∷ l) h =
    ground (arith, get-snoc p q d l, path_eq.beq_iff k p, path_eq.beq_iff k q, path_eq.beq_iff p q)

pub keys-snoc :
    (p : RootRelativePath) (d : EntryDetails) (l : Listing)
    → keys (l ++ (p, d) ∷ []) ≡ keys l ++ p ∷ []
keys-snoc p d [] = refl
keys-snoc p d ((k, e) ∷ l) = ground (arith, keys-snoc p d l)

pub contains-keys :
    (p : RootRelativePath) (l : Listing) → get p l ≡ none → contains (keys l) p ≡ false
unfolding get
contains-keys p [] h = refl
contains-keys p ((k, e) ∷ l) h = ground (arith, contains-keys p l)

module _ (differentiates : Bool) (same_time : DestFileUpdateBehaviour) where
  -- The maps after the source entries `srcs` and the destination entries `dests`, in any
  -- interleaving.
  pub record Agrees (srcs dests : Listing) (q : Query) : Type 0 where
    pub src_entries : Tracks q.src_entries (λ p. get p srcs) (keys srcs)
    pub dest_entries : Tracks q.dest_entries (λ p. get p dests) (keys dests)
    pub to_delete :
        Tracks q.to_delete (λ p. plan_delete differentiates (get p srcs) (get p dests)) (keys dests)
    pub to_copy :
        Tracks q.to_copy
          (λ p. plan_copy differentiates same_time (get p srcs) (get p dests))
          (keys srcs)

  module _ (log10 : ℕ → ℕ) (ctx : SyncContext)
      (behaviour : ctx.files_same_time_behaviour ≡ same_time) (srcs dests : Listing) (q : Query)
      (p : RootRelativePath) (s : EntryDetails) (a : Agrees srcs dests q)
      (fresh : get p srcs ≡ none) where
    same_time-count_src : (count_src log10 ctx s).files_same_time_behaviour ≡ same_time
    unfolding count_src
    same_time-count_src = ground arith

    abbrev pub SrcSettled : Type 0
    SrcSettled =
        (q' : Query) × (process_src_entry log10 ctx p s differentiates q
          ≡ ok (count_src log10 ctx s, q'))
        × Agrees (srcs ++ (p, s) ∷ []) dests q'

    -- The source's map is the same in all cases.
    src-Agrees :
        {q' : Query}
        → q'.src_entries ≡ OrderedMap.add p s q.src_entries
        → q'.dest_entries ≡ q.dest_entries
        → Tracks q'.to_delete
            (λ j. plan_delete differentiates (get j (srcs ++ (p, s) ∷ [])) (get j dests))
            (keys dests)
        → Tracks q'.to_copy
            (λ j. plan_copy differentiates same_time (get j (srcs ++ (p, s) ∷ [])) (get j dests))
            (keys srcs ++ p ∷ [])
        → Agrees (srcs ++ (p, s) ∷ []) dests q'
    src-Agrees e f deletes copies = record {
      src_entries =
          rw (e, keys-snoc p s srcs)
            (Tracks-add a.src_entries p s _ (contains-keys p srcs fresh)
              (λ j. get-snoc p j s srcs fresh));
      dest_entries = rw f a.dest_entries;
      to_delete = deletes;
      to_copy = rw (keys-snoc p s srcs) copies;
    }

    src_absent : get p dests ≡ none → SrcSettled
    unfolding process_src_entry
    src_absent absent = (
      record q {
        to_copy = OrderedMap.add p (s, not_on_dest) q.to_copy;
        src_entries = OrderedMap.add p s q.src_entries;
      },
      rw (a.dest_entries.holds p, absent, process_src_entry),
      src-Agrees refl refl
          (Tracks-same a.to_delete _
            (λ j. ground (arith, get-snoc p j s srcs, path_eq.beq_iff p j)))
          (Tracks-add a.to_copy p (s, not_on_dest) _ (contains-keys p srcs fresh)
            (λ j. ground (arith, get-snoc p j s srcs, path_eq.beq_iff p j))),
    )

    src_incompatible :
        (d : EntryDetails)
        → get p dests ≡ some d
        → compatible differentiates s d ≡ false
        → SrcSettled
    unfolding process_src_entry
    src_incompatible d present clash =
        let (to_delete, updated, deletes) =
          Tracks-update a.to_delete p (d, incompatible) (d, not_on_source)
            (λ j. plan_delete differentiates (get j (srcs ++ (p, s) ∷ [])) (get j dests))
            (ground arith) (λ j. ground (arith, get-snoc p j s srcs, path_eq.beq_iff p j)) in
        (
          record q {
            to_delete = to_delete;
            to_copy = OrderedMap.add p (s, not_on_dest) q.to_copy;
            src_entries = OrderedMap.add p s q.src_entries;
          },
          ground
              (arith, a.dest_entries.holds p, needs_delete-compatible differentiates s d, updated),
          src-Agrees refl refl deletes (
              Tracks-add a.to_copy p (s, not_on_dest) _ (contains-keys p srcs fresh)
                (λ j. ground (arith, get-snoc p j s srcs, path_eq.beq_iff p j))),
        )

    src_compatible :
        (d : EntryDetails) (reason : Option CopyReason)
        → get p dests ≡ some d
        → compatible differentiates s d ≡ true
        → refresh same_time s d ≡ reason
        → SrcSettled
    unfolding process_src_entry
    src_compatible d none present fits why = (
      record q {
        to_delete = OrderedMap.remove p q.to_delete;
        src_entries = OrderedMap.add p s q.src_entries;
      },
      ground (
        arith,
        a.dest_entries.holds p,
        needs_delete-compatible differentiates s d,
        needs_copy-refresh (count_src log10 ctx s) differentiates s d fits,
        same_time-count_src,
      ),
      src-Agrees refl refl
          (Tracks-remove a.to_delete p _
            (λ j. ground (arith, get-snoc p j s srcs, path_eq.beq_iff p j)))
          (Tracks-keep a.to_copy _ (p ∷ [])
            (λ j. ground (arith, get-snoc p j s srcs, path_eq.beq_iff p j))),
    )
    src_compatible d (some r) present fits why = (
      record q {
        to_delete = OrderedMap.remove p q.to_delete;
        to_copy = OrderedMap.add p (s, r) q.to_copy;
        src_entries = OrderedMap.add p s q.src_entries;
      },
      ground (
        arith,
        a.dest_entries.holds p,
        needs_delete-compatible differentiates s d,
        needs_copy-refresh (count_src log10 ctx s) differentiates s d fits,
        same_time-count_src,
      ),
      src-Agrees refl refl
          (Tracks-remove a.to_delete p _
            (λ j. ground (arith, get-snoc p j s srcs, path_eq.beq_iff p j)))
          (Tracks-add a.to_copy p (s, r) _ (contains-keys p srcs fresh)
            (λ j. ground (arith, get-snoc p j s srcs, path_eq.beq_iff p j))),
    )

    -- A source entry at a path that is new on the source is taken up, whatever the destination has
    -- there so far.
    pub process_src_entry-Agrees : SrcSettled
    process_src_entry-Agrees = elim (Option-cases (get p dests)) [
      | inl absent ↦ src_absent absent
      | inr (d, present) ↦ elim (Bool-cases (compatible differentiates s d)) [
        | inl fits ↦ src_compatible d (refresh same_time s d) present fits refl
        | inr clash ↦ src_incompatible d present clash
      ]
    ]

  module _ (ctx : SyncContext) (behaviour : ctx.files_same_time_behaviour ≡ same_time)
      (srcs dests : Listing) (q : Query) (p : RootRelativePath) (d : EntryDetails)
      (a : Agrees srcs dests q) (fresh : get p dests ≡ none) where
    same_time-count_dest : (count_dest ctx d).files_same_time_behaviour ≡ same_time
    unfolding count_dest
    same_time-count_dest = ground arith

    abbrev pub DestSettled : Type 0
    DestSettled =
        (q' : Query) × (process_dest_entry ctx p d differentiates q ≡ ok (count_dest ctx d, q'))
        × Agrees srcs (dests ++ (p, d) ∷ []) q'

    dest-Agrees :
        {q' : Query}
        → q'.src_entries ≡ q.src_entries
        → q'.dest_entries ≡ OrderedMap.add p d q.dest_entries
        → Tracks q'.to_delete
            (λ j. plan_delete differentiates (get j srcs) (get j (dests ++ (p, d) ∷ [])))
            (keys dests ++ p ∷ [])
        → Tracks q'.to_copy
            (λ j. plan_copy differentiates same_time (get j srcs) (get j (dests ++ (p, d) ∷ [])))
            (keys srcs)
        → Agrees srcs (dests ++ (p, d) ∷ []) q'
    dest-Agrees e f deletes copies = record {
      src_entries = rw e a.src_entries;
      dest_entries =
          rw (f, keys-snoc p d dests)
            (Tracks-add a.dest_entries p d _ (contains-keys p dests fresh)
              (λ j. get-snoc p j d dests fresh));
      to_delete = rw (keys-snoc p d dests) deletes;
      to_copy = copies;
    }

    dest_absent : get p srcs ≡ none → DestSettled
    unfolding process_dest_entry
    dest_absent absent = (
      record q {
        to_delete = OrderedMap.add p (d, not_on_source) q.to_delete;
        dest_entries = OrderedMap.add p d q.dest_entries;
      },
      rw (a.src_entries.holds p, absent, process_dest_entry),
      dest-Agrees refl refl
          (Tracks-add a.to_delete p (d, not_on_source) _ (contains-keys p dests fresh)
            (λ j. ground (arith, get-snoc p j d dests, path_eq.beq_iff p j)))
          (Tracks-same a.to_copy _
            (λ j. ground (arith, get-snoc p j d dests, path_eq.beq_iff p j))),
    )

    dest_incompatible :
        (s : EntryDetails)
        → get p srcs ≡ some s
        → compatible differentiates s d ≡ false
        → DestSettled
    unfolding process_dest_entry
    dest_incompatible s present clash = (
      record q {
        to_delete = OrderedMap.add p (d, incompatible) q.to_delete;
        dest_entries = OrderedMap.add p d q.dest_entries;
      },
      ground (arith, a.src_entries.holds p, needs_delete-compatible differentiates s d),
      dest-Agrees refl refl
          (Tracks-add a.to_delete p (d, incompatible) _ (contains-keys p dests fresh)
            (λ j. ground (arith, get-snoc p j d dests, path_eq.beq_iff p j)))
          (Tracks-same a.to_copy _
            (λ j. ground (arith, get-snoc p j d dests, path_eq.beq_iff p j))),
    )

    dest_compatible :
        (s : EntryDetails) (reason : Option CopyReason)
        → get p srcs ≡ some s
        → compatible differentiates s d ≡ true
        → refresh same_time s d ≡ reason
        → DestSettled
    unfolding process_dest_entry
    dest_compatible s none present fits why = (
      record q {
        to_copy = OrderedMap.remove p q.to_copy;
        dest_entries = OrderedMap.add p d q.dest_entries;
      },
      ground (
        arith,
        a.src_entries.holds p,
        needs_delete-compatible differentiates s d,
        needs_copy-refresh (count_dest ctx d) differentiates s d fits,
        same_time-count_dest,
      ),
      dest-Agrees refl refl
          (Tracks-keep a.to_delete _ (p ∷ [])
            (λ j. ground (arith, get-snoc p j d dests, path_eq.beq_iff p j)))
          (Tracks-remove a.to_copy p _
            (λ j. ground (arith, get-snoc p j d dests, path_eq.beq_iff p j))),
    )
    dest_compatible s (some r) present fits why =
        let (to_copy, updated, copies) =
          Tracks-update a.to_copy p (s, r) (s, not_on_dest)
            (λ j. plan_copy differentiates same_time (get j srcs) (get j (dests ++ (p, d) ∷ [])))
            (ground arith) (λ j. ground (arith, get-snoc p j d dests, path_eq.beq_iff p j)) in
        (
          record q { to_copy = to_copy; dest_entries = OrderedMap.add p d q.dest_entries },
          ground (
            arith,
            a.src_entries.holds p,
            needs_delete-compatible differentiates s d,
            needs_copy-refresh (count_dest ctx d) differentiates s d fits,
            same_time-count_dest,
            updated,
          ),
          dest-Agrees refl refl
              (Tracks-keep a.to_delete _ (p ∷ [])
                (λ j. ground (arith, get-snoc p j d dests, path_eq.beq_iff p j)))
              copies,
        )

    pub process_dest_entry-Agrees : DestSettled
    process_dest_entry-Agrees = elim (Option-cases (get p srcs)) [
      | inl absent ↦ dest_absent absent
      | inr (s, present) ↦ elim (Bool-cases (compatible differentiates s d)) [
        | inl fits ↦ dest_compatible s (refresh same_time s d) present fits refl
        | inr clash ↦ dest_incompatible s present clash
      ]
    ]
