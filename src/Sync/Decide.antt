-- ===== src/Sync/Decide.antt =====
-- src/boss_sync.rs: what one entry needs, from its details on both sides.
use rjrssync.Common.{
  Bool, true, false, ◌&&◌, ◌||◌, not, Option, none, some, Outcome, ok, panic, ◌==◌, compare,
  Ordering, if◌then◌else◌, ◌≡◌, arith,
}
use rjrssync.Comms.{SyncError}
use rjrssync.Interface.{EntryDetails, file, folder, symlink, kind_eq, target_eq}
use rjrssync.Spec.{DestFileUpdateBehaviour}
use rjrssync.Sync.{
  SyncContext, CopyReason, dest_newer, dest_older, same_time_and_not_skipped, DeleteReason,
  not_on_source, incompatible, not_on_dest,
}

unfoldable pub needs_delete : EntryDetails → EntryDetails → Bool → Bool
needs_delete (file _ _) (file _ _) differentiates = false
needs_delete (file _ _) _ differentiates = true
needs_delete folder folder differentiates = false
needs_delete folder _ differentiates = true
needs_delete (symlink src_kind src_target) (symlink dest_kind dest_target) differentiates =
    if not (src_target == dest_target)
    then true
    else if not (src_kind == dest_kind) && differentiates
    then true
    else false
needs_delete (symlink _ _) _ differentiates = true

abbrev pub is_skip : DestFileUpdateBehaviour → Bool
is_skip DestFileUpdateBehaviour.skip = true
is_skip _ = false

-- A file on the source that is none on the destination panics.
unfoldable pub needs_copy :
    SyncContext → EntryDetails → EntryDetails → Outcome SyncError (Option CopyReason)
needs_copy ctx (file src_modified_time _) (file dest_modified_time _) =
    elim (compare src_modified_time dest_modified_time) [
      | Ordering.eq ↦
          if is_skip ctx.files_same_time_behaviour
          then ok none
          else ok (some same_time_and_not_skipped)
      | Ordering.gt ↦ ok (some dest_older)
      | Ordering.lt ↦ ok (some dest_newer)
    ]
needs_copy ctx (file _ _) _ = panic
needs_copy ctx folder _ = ok none
needs_copy ctx (symlink _ _) _ = ok none

-- The specification: which entries can be brought up to date in place, and why a file is copied
-- over another.
abbrev pub compatible : Bool → EntryDetails → EntryDetails → Bool
compatible differentiates (file _ _) (file _ _) = true
compatible differentiates folder folder = true
compatible differentiates (symlink k t) (symlink l u) = t == u && (k == l || not differentiates)
compatible differentiates _ _ = false

abbrev pub refresh : DestFileUpdateBehaviour → EntryDetails → EntryDetails → Option CopyReason
refresh same_time (file t _) (file u _) = elim (compare t u) [
  | Ordering.lt ↦ some dest_newer
  | Ordering.gt ↦ some dest_older
  | Ordering.eq ↦ if is_skip same_time then none else some same_time_and_not_skipped
]
refresh same_time _ _ = none

pub needs_delete-compatible :
    (differentiates : Bool) (s d : EntryDetails)
    → needs_delete s d differentiates ≡ not (compatible differentiates s d)
unfolding needs_delete
needs_delete-compatible differentiates s d = ground arith

pub needs_copy-refresh :
    (ctx : SyncContext) (differentiates : Bool) (s d : EntryDetails)
    → compatible differentiates s d ≡ true
    → needs_copy ctx s d ≡ ok (refresh ctx.files_same_time_behaviour s d)
unfolding needs_copy
needs_copy-refresh ctx differentiates s d h = ground arith

-- What is to be deleted at a path, from what is there on the source and on the destination.
abbrev pub plan_delete :
    Bool → Option EntryDetails → Option EntryDetails → Option (EntryDetails × DeleteReason)
plan_delete differentiates src none = none
plan_delete differentiates none (some d) = some (d, not_on_source)
plan_delete differentiates (some s) (some d) =
    if compatible differentiates s d then none else some (d, incompatible)

abbrev for_reason : EntryDetails → Option CopyReason → Option (EntryDetails × CopyReason)
for_reason s none = none
for_reason s (some r) = some (s, r)

-- What is to be copied at a path.
abbrev pub plan_copy :
    Bool
    → DestFileUpdateBehaviour
    → Option EntryDetails
    → Option EntryDetails
    → Option (EntryDetails × CopyReason)
plan_copy differentiates same_time none dest = none
plan_copy differentiates same_time (some s) none = some (s, not_on_dest)
plan_copy differentiates same_time (some s) (some d) =
    if compatible differentiates s d
    then for_reason s (refresh same_time s d)
    else some (s, not_on_dest)
