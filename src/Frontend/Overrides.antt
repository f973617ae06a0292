-- ===== src/Frontend/Overrides.antt =====
-- What `resolve_spec` promises of the specs that it returns.
use rjrssync.Common.{All, All-map, some, [], map, Outcome, ok, >>=-eq-ok, ◌≡◌, ◌≢◌, arith}
use rjrssync.Frontend.{UsageError}
use rjrssync.Frontend.SpecFile.{Reading}
use rjrssync.Frontend.Resolve.{BossCliArgs, resolve_spec, override_sync, initial_spec, given}
use rjrssync.Spec.{
  SyncSpec, Spec, DestFileUpdateBehaviour, DestEntryNeedsDeletingBehaviour,
  DestRootNeedsDeletingBehaviour, AllDestructiveBehaviour,
}

-- Nothing on the destination is overwritten or deleted without asking.
abbrev pub NeverDestroys : SyncSpec → Type 0
NeverDestroys sync =
    (sync.dest_file_newer_behaviour ≢ DestFileUpdateBehaviour.overwrite)
    × (sync.dest_file_older_behaviour ≢ DestFileUpdateBehaviour.overwrite)
    × (sync.files_same_time_behaviour ≢ DestFileUpdateBehaviour.overwrite)
    × (sync.dest_entry_needs_deleting_behaviour ≢ DestEntryNeedsDeletingBehaviour.delete)
    × (sync.dest_root_needs_deleting_behaviour ≢ DestRootNeedsDeletingBehaviour.delete)

-- No flag for a single behaviour asks to overwrite or to delete.
abbrev pub NoDestructiveFlag : BossCliArgs → Type 0
NoDestructiveFlag args =
    (args.dest_file_newer ≢ some DestFileUpdateBehaviour.overwrite)
    × (args.dest_file_older ≢ some DestFileUpdateBehaviour.overwrite)
    × (args.files_same_time ≢ some DestFileUpdateBehaviour.overwrite)
    × (args.dest_entry_needs_deleting ≢ some DestEntryNeedsDeletingBehaviour.delete)
    × (args.dest_root_needs_deleting ≢ some DestRootNeedsDeletingBehaviour.delete)

override_sync-NeverDestroys :
    (args : BossCliArgs) (b : AllDestructiveBehaviour) (sync : SyncSpec)
    → args.all_destructive_behaviour ≡ some b
    → b ≢ AllDestructiveBehaviour.proceed
    → NoDestructiveFlag args
    → NeverDestroys (override_sync args sync)
unfolding override_sync
override_sync-NeverDestroys args b sync h n (a1, a2, a3, a4, a5) = ground arith

pub syncs_made :
    (args : BossCliArgs) (initial spec : Spec)
    → ◌≡◌ {A = Outcome UsageError Spec}
        (ok (record initial {
          deploy_behaviour = given args.deploy initial.deploy_behaviour;
          syncs = map (override_sync args) initial.syncs;
        }))
        (ok spec)
    → spec.syncs ≡ map (override_sync args) initial.syncs
syncs_made args initial spec h = cc

-- With `--all-destructive-behaviour` at anything but `proceed`, and no flag of its own that asks to
-- overwrite or delete, no sync that `resolve_spec` returns overwrites or deletes without asking,
-- whatever the spec file says.
pub resolve_spec-NeverDestroys :
    (reading : Reading) (args : BossCliArgs) (spec : Spec) (b : AllDestructiveBehaviour)
    → resolve_spec reading args ≡ ok spec
    → args.all_destructive_behaviour ≡ some b
    → b ≢ AllDestructiveBehaviour.proceed
    → NoDestructiveFlag args
    → All NeverDestroys spec.syncs
unfolding resolve_spec
resolve_spec-NeverDestroys reading args spec b returned h n flags =
    let (initial, _, made) = >>=-eq-ok (initial_spec reading args) _ returned in
    rw (syncs_made args initial spec made) (
      All-map (override_sync args) NeverDestroys
        (λ sync. override_sync-NeverDestroys args b sync h n flags) initial.syncs)

-- The sync has each behaviour that a flag gives, and the filters of the command line if it has any.
abbrev pub Obeys : BossCliArgs → SyncSpec → Type 0
Obeys args sync =
    ((b : DestFileUpdateBehaviour)
      → args.dest_file_newer ≡ some b
      → sync.dest_file_newer_behaviour ≡ b)
    × ((b : DestFileUpdateBehaviour)
        → args.dest_file_older ≡ some b
        → sync.dest_file_older_behaviour ≡ b)
    × ((b : DestFileUpdateBehaviour)
        → args.files_same_time ≡ some b
        → sync.files_same_time_behaviour ≡ b)
    × ((b : DestEntryNeedsDeletingBehaviour)
        → args.dest_entry_needs_deleting ≡ some b
        → sync.dest_entry_needs_deleting_behaviour ≡ b)
    × ((b : DestRootNeedsDeletingBehaviour)
        → args.dest_root_needs_deleting ≡ some b
        → sync.dest_root_needs_deleting_behaviour ≡ b)
    × (args.filter ≢ [] → sync.filters ≡ args.filter)

override_sync-Obeys : (args : BossCliArgs) (sync : SyncSpec) → Obeys args (override_sync args sync)
unfolding override_sync
override_sync-Obeys args sync = (
  λ b h. ground arith,
  λ b h. ground arith,
  λ b h. ground arith,
  λ b h. ground arith,
  λ b h. ground arith,
  λ h. ground arith,
)

-- In every sync that `resolve_spec` returns, a flag for a behaviour beats the spec file and
-- `--all-destructive-behaviour`, and filters on the command line replace those of the spec file.
pub resolve_spec-Obeys :
    (reading : Reading) (args : BossCliArgs) (spec : Spec)
    → resolve_spec reading args ≡ ok spec
    → All (Obeys args) spec.syncs
unfolding resolve_spec
resolve_spec-Obeys reading args spec returned =
    let (initial, _, made) = >>=-eq-ok (initial_spec reading args) _ returned in
    rw (syncs_made args initial spec made)
      (All-map (override_sync args) (Obeys args) (override_sync-Obeys args) initial.syncs)
