-- ===== src/Frontend/Resolve.antt =====
-- src/boss_frontend.rs, `resolve_spec`: the spec file or the two paths, and what the command line
-- changes of them.
use rjrssync.Common.{Option, none, some, List, [], ◌∷◌, Str, map, Outcome, ok, panic, ◌>>=◌}
use rjrssync.Frontend.{UsageError}
use rjrssync.Frontend.RemotePath.{RemotePathDesc}
use rjrssync.Frontend.SpecFile.{Reading, parse_spec_file}
use rjrssync.Spec.{
  SyncSpec, default_sync_spec, Spec, default_spec, DestFileUpdateBehaviour,
  DestEntryNeedsDeletingBehaviour, DestRootNeedsDeletingBehaviour, AllDestructiveBehaviour,
  DeployBehaviour,
}

-- The command line, as far as `resolve_spec` reads it.
pub record BossCliArgs : Type 0 where
  pub src : Option RemotePathDesc
  pub dest : Option RemotePathDesc
  pub spec : Option Str
  pub filter : List Str
  pub deploy : Option DeployBehaviour
  pub dest_file_newer : Option DestFileUpdateBehaviour
  pub dest_file_older : Option DestFileUpdateBehaviour
  pub dest_entry_needs_deleting : Option DestEntryNeedsDeletingBehaviour
  pub dest_root_needs_deleting : Option DestRootNeedsDeletingBehaviour
  pub files_same_time : Option DestFileUpdateBehaviour
  pub all_destructive_behaviour : Option AllDestructiveBehaviour

-- The command line rules out the panic of a missing `src` or `dest`.
unfoldable pub initial_spec : Reading → BossCliArgs → Outcome UsageError Spec
initial_spec reading args = elim args.spec [
  | some path ↦ parse_spec_file reading path
  | none ↦ elim args.src [
    | none ↦ panic
    | some s ↦ elim args.dest [
      | none ↦ panic
      | some d ↦ ok (record default_spec {
        src_hostname = s.hostname;
        src_username = s.username;
        dest_hostname = d.hostname;
        dest_username = d.username;
        syncs = record default_sync_spec { src = s.path; dest = d.path } ∷ [];
      })
    ]
  ]
]

abbrev update_for : AllDestructiveBehaviour → DestFileUpdateBehaviour → DestFileUpdateBehaviour
update_for b DestFileUpdateBehaviour.skip = DestFileUpdateBehaviour.skip
update_for AllDestructiveBehaviour.prompt _ = DestFileUpdateBehaviour.prompt
update_for AllDestructiveBehaviour.error _ = DestFileUpdateBehaviour.error
update_for AllDestructiveBehaviour.skip _ = DestFileUpdateBehaviour.skip
update_for AllDestructiveBehaviour.proceed _ = DestFileUpdateBehaviour.overwrite

abbrev entry_for :
    AllDestructiveBehaviour → DestEntryNeedsDeletingBehaviour → DestEntryNeedsDeletingBehaviour
entry_for b DestEntryNeedsDeletingBehaviour.skip = DestEntryNeedsDeletingBehaviour.skip
entry_for AllDestructiveBehaviour.prompt _ = DestEntryNeedsDeletingBehaviour.prompt
entry_for AllDestructiveBehaviour.error _ = DestEntryNeedsDeletingBehaviour.error
entry_for AllDestructiveBehaviour.skip _ = DestEntryNeedsDeletingBehaviour.skip
entry_for AllDestructiveBehaviour.proceed _ = DestEntryNeedsDeletingBehaviour.delete

abbrev root_for :
    AllDestructiveBehaviour → DestRootNeedsDeletingBehaviour → DestRootNeedsDeletingBehaviour
root_for b DestRootNeedsDeletingBehaviour.skip = DestRootNeedsDeletingBehaviour.skip
root_for AllDestructiveBehaviour.prompt _ = DestRootNeedsDeletingBehaviour.prompt
root_for AllDestructiveBehaviour.error _ = DestRootNeedsDeletingBehaviour.error
root_for AllDestructiveBehaviour.skip _ = DestRootNeedsDeletingBehaviour.skip
root_for AllDestructiveBehaviour.proceed _ = DestRootNeedsDeletingBehaviour.delete

abbrev apply_filter_args : List Str → SyncSpec → SyncSpec
apply_filter_args [] sync = sync
apply_filter_args (f ∷ fs) sync = record sync { filters = f ∷ fs }

abbrev apply_all_destructive : Option AllDestructiveBehaviour → SyncSpec → SyncSpec
apply_all_destructive none sync = sync
apply_all_destructive (some b) sync = record sync {
  dest_file_newer_behaviour = update_for b sync.dest_file_newer_behaviour;
  dest_file_older_behaviour = update_for b sync.dest_file_older_behaviour;
  files_same_time_behaviour = update_for b sync.files_same_time_behaviour;
  dest_entry_needs_deleting_behaviour = entry_for b sync.dest_entry_needs_deleting_behaviour;
  dest_root_needs_deleting_behaviour = root_for b sync.dest_root_needs_deleting_behaviour;
}

-- `if let Some(b) = flag { field = b }`
abbrev pub given : {B : Type 0} → Option B → B → B
given none old = old
given (some b) old = b

abbrev apply_flags : BossCliArgs → SyncSpec → SyncSpec
apply_flags args sync = record sync {
  dest_file_newer_behaviour = given args.dest_file_newer sync.dest_file_newer_behaviour;
  dest_file_older_behaviour = given args.dest_file_older sync.dest_file_older_behaviour;
  files_same_time_behaviour = given args.files_same_time sync.files_same_time_behaviour;
  dest_entry_needs_deleting_behaviour =
      given args.dest_entry_needs_deleting sync.dest_entry_needs_deleting_behaviour;
  dest_root_needs_deleting_behaviour =
      given args.dest_root_needs_deleting sync.dest_root_needs_deleting_behaviour;
}

-- One round of the loop over `spec.syncs`.
unfoldable pub override_sync : BossCliArgs → SyncSpec → SyncSpec
override_sync args sync =
    apply_flags args
      (apply_all_destructive args.all_destructive_behaviour (apply_filter_args args.filter sync))

unfoldable pub resolve_spec : Reading → BossCliArgs → Outcome UsageError Spec
unfolding initial_spec override_sync
resolve_spec reading args = do
  spec ← initial_spec reading args
  ok (record spec {
    deploy_behaviour = given args.deploy spec.deploy_behaviour;
    syncs = map (override_sync args) spec.syncs;
  })
