-- ===== src/Query/Plan.antt =====
-- What `query_entries` returns: the plan of the two listings, whatever order they arrived in.
use rjrssync.Common.{
  ℕ, Bool, true, Option, none, some, List, [], ◌∷◌, ok, ◌>>=◌, ◌≡◌, ◌≢◌, refl, arith, reverse,
  Subseq, Subseq-reverse, contains, Bool-cases, inl, inr, eq_self, ◌∙◌,
}
use rjrssync.Common.HashMap.{get, keys, NodupKeys}
use rjrssync.Interface.{EntryDetails, file, folder, symlink, Response, kind_eq, target_eq}
use rjrssync.OrderedMap.{iter}
use rjrssync.OrderedMap.Contents.{Nodup-reverse}
use rjrssync.OrderedMap.Tracks.{
  select, iter-select, reverse_order-Tracks, Subseq-select, select-none,
}
use rjrssync.Path.{RootRelativePath, path_eq}
use rjrssync.Spec.{DestFileUpdateBehaviour}
use rjrssync.Sync.{SyncContext, Actions, DeleteReason, CopyReason}
use rjrssync.Sync.Decide.{plan_delete, plan_copy}
use rjrssync.Query.{Pick, query_entries, finish}
use rjrssync.Query.Steps.{Listing}
use rjrssync.Query.Loop.{coming, messages, src_picks, dest_picks, loop-Ends}
use rjrssync.Query.Begin.{asked, asked_dest, contents, dest_contents, Nodup-keys, begin-Waiting}

-- The deletions of the whole plan, last entry first.
abbrev pub deletions :
    Bool → Listing → Listing → List (RootRelativePath × (EntryDetails × DeleteReason))
deletions differentiates srcs dests =
    select (λ p. plan_delete differentiates (get p srcs) (get p dests)) (reverse (keys dests))

-- The copies of the whole plan, in the order of the source.
abbrev pub copies :
    Bool
    → DestFileUpdateBehaviour
    → Listing
    → Listing
    → List (RootRelativePath × (EntryDetails × CopyReason))
copies differentiates same_time srcs dests =
    select (λ p. plan_copy differentiates same_time (get p srcs) (get p dests)) (keys srcs)

both_some :
    {V : Type 0} (want : RootRelativePath → Option V) (p q : RootRelativePath)
    → want p ≢ none
    → want q ≢ none
    → (k : RootRelativePath) → contains (p ∷ q ∷ []) k ≡ true
    → want k ≢ none
both_some want p q hp hq k h = elim (Bool-cases (path_eq.beq p k)) [
  | inl e ↦ rw ((path_eq.beq_iff p k).0 e) at hp
  | inr n ↦ rw ((path_eq.beq_iff q k).0 (ground arith)) at hq
]

-- An entry needs nothing for itself.
plan_delete_same :
    (differentiates : Bool) (o : Option EntryDetails) → plan_delete differentiates o o ≡ none
plan_delete_same differentiates none = refl
plan_delete_same differentiates (some (file t n)) = refl
plan_delete_same differentiates (some folder) = refl
plan_delete_same differentiates (some (symlink k t)) = rw (eq_self t, eq_self k) refl

plan_copy_same :
    (differentiates : Bool) (o : Option EntryDetails)
    → plan_copy differentiates DestFileUpdateBehaviour.skip o o ≡ none
plan_copy_same differentiates none = refl
plan_copy_same differentiates (some (file t n)) = ground arith
plan_copy_same differentiates (some folder) = refl
plan_copy_same differentiates (some (symlink k t)) = rw (eq_self t, eq_self k) refl

module _ (log10 : ℕ → ℕ) (differentiates : Bool) (ctx : SyncContext) (src_root : EntryDetails)
    (dest_root : Option EntryDetails) (srcs dests : Listing) (src_later dest_later : List Response)
    (picks : List Pick) (src_sends : ctx.src_comms.sends ≡ true)
    (dest_sends : ctx.dest_comms.sends ≡ true)
    (src_inbox : ctx.src_comms.inbox ≡ coming (asked src_root srcs) src_later)
    (dest_inbox : ctx.dest_comms.inbox ≡ coming (asked_dest dest_root dests) dest_later)
    (src_once : NodupKeys (contents src_root srcs))
    (dest_once : NodupKeys (dest_contents dest_root dests))
    (src_turns : src_picks picks ≡ messages (asked src_root srcs))
    (dest_turns : dest_picks picks ≡ messages (asked_dest dest_root dests)) where
  abbrev delete_at : RootRelativePath → Option (EntryDetails × DeleteReason)
  delete_at p =
      plan_delete differentiates (get p (contents src_root srcs))
        (get p (dest_contents dest_root dests))

  abbrev copy_at : RootRelativePath → Option (EntryDetails × CopyReason)
  copy_at p =
      plan_copy differentiates ctx.files_same_time_behaviour (get p (contents src_root srcs))
        (get p (dest_contents dest_root dests))

  -- With both doers connected, complete listings in which no path comes twice, and a turn for each
  -- message, `query_entries` returns, without an error or a panic: its deletions are those of the plan
  -- in the reverse order of the destination's listing, and its copies those of the plan in the order
  -- of the source's listing. So neither depends on the order in which the two sides are served.
  pub query_entries-plan :
      (ctx' : SyncContext) × (actions : Actions) × (query_entries log10 differentiates ctx src_root
          dest_root picks
        ≡ ok (ctx', actions))
      × (iter actions.to_delete
          ≡ deletions differentiates (contents src_root srcs) (dest_contents dest_root dests))
      × (iter actions.to_copy
          ≡ copies differentiates ctx.files_same_time_behaviour
              (contents src_root srcs)
              (dest_contents dest_root dests))
  unfolding query_entries finish
  query_entries-plan =
      let (r, begun, w) =
        begin-Waiting log10 differentiates ctx.files_same_time_behaviour src_later dest_later ctx
          src_root dest_root srcs dests refl src_sends dest_sends src_inbox dest_inbox in
      let (last, ended, w') =
        loop-Ends log10 differentiates ctx.files_same_time_behaviour src_later dest_later picks r _
          _ _ _ w src_once dest_once src_turns dest_turns in
      (
        (finish log10 differentiates last).0,
        (finish log10 differentiates last).1,
        rw (begun, ◌>>=◌) (rw (ended, ◌>>=◌)),
        iter-select (Nodup-reverse _ (Nodup-keys (dest_contents dest_root dests) dest_once))
            (reverse_order-Tracks w'.agrees.to_delete),
        iter-select (Nodup-keys (contents src_root srcs) src_once) w'.agrees.to_copy,
      )

  -- Under the same conditions: of two paths that the plan deletes, the one that the destination
  -- listed later, such as an entry below a folder, is deleted first.
  pub query_entries_children_deleted_first :
      (parent child : RootRelativePath)
      → Subseq (parent ∷ child ∷ []) (keys (dest_contents dest_root dests))
      → delete_at parent ≢ none
      → delete_at child ≢ none
      → (ctx' : SyncContext) × (actions : Actions) × (query_entries log10 differentiates ctx
            src_root dest_root picks
          ≡ ok (ctx', actions))
        × Subseq (child ∷ parent ∷ []) (keys (iter actions.to_delete))
  query_entries_children_deleted_first parent child listed p c =
      let (ctx', actions, returned, deleted, _) = query_entries-plan in
      (
        ctx',
        actions,
        returned,
        rw deleted (
            Subseq-select delete_at (Subseq-reverse listed) (both_some delete_at child parent c p)),
      )

  -- Under the same conditions: of two paths that the plan copies, the one that the source listed
  -- first, such as a folder above an entry, is copied first.
  pub query_entries_parents_copied_first :
      (parent child : RootRelativePath)
      → Subseq (parent ∷ child ∷ []) (keys (contents src_root srcs))
      → copy_at parent ≢ none
      → copy_at child ≢ none
      → (ctx' : SyncContext) × (actions : Actions) × (query_entries log10 differentiates ctx
            src_root dest_root picks
          ≡ ok (ctx', actions))
        × Subseq (parent ∷ child ∷ []) (keys (iter actions.to_copy))
  query_entries_parents_copied_first parent child listed p c =
      let (ctx', actions, returned, _, copied) = query_entries-plan in
      (
        ctx',
        actions,
        returned,
        rw copied (Subseq-select copy_at listed (both_some copy_at parent child p c)),
      )

  -- Under the same conditions: where both sides have the same entries, and files of the same time are
  -- skipped, there is nothing to delete and nothing to copy.
  pub query_entries_in_sync :
      ((p : RootRelativePath)
        → get p (contents src_root srcs) ≡ get p (dest_contents dest_root dests))
      → ctx.files_same_time_behaviour ≡ DestFileUpdateBehaviour.skip
      → (ctx' : SyncContext) × (actions : Actions) × (query_entries log10 differentiates ctx
            src_root dest_root picks
          ≡ ok (ctx', actions))
        × (iter actions.to_delete ≡ [])
        × (iter actions.to_copy ≡ [])
  query_entries_in_sync same skips =
      let (ctx', actions, returned, deleted, copied) = query_entries-plan in
      (
        ctx',
        actions,
        returned,
        deleted
            ∙ select-none delete_at _ (λ p.
              rw (same p)
                (plan_delete_same differentiates (get p (dest_contents dest_root dests)))),
        copied
            ∙ select-none copy_at _ (λ p.
              rw (same p, skips)
                (plan_copy_same differentiates (get p (dest_contents dest_root dests)))),
      )
