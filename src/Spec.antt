-- ===== src/Spec.antt =====
-- src/boss_frontend.rs: what is to be synced, and the behaviours that the user chooses.
use rjrssync.Common.{List, [], Str}

-- `DeployBehaviour::Prompt`, `Error`, `Ok`, `Force`
pub data DeployBehaviour : Type 0 where
  prompt error allowed force : DeployBehaviour

pub data DestFileUpdateBehaviour : Type 0 where
  prompt error skip overwrite : DestFileUpdateBehaviour

pub data DestEntryNeedsDeletingBehaviour : Type 0 where
  prompt error skip delete : DestEntryNeedsDeletingBehaviour

pub data DestRootNeedsDeletingBehaviour : Type 0 where
  prompt error skip delete : DestRootNeedsDeletingBehaviour

pub data AllDestructiveBehaviour : Type 0 where
  prompt error skip proceed : AllDestructiveBehaviour

pub record SyncSpec : Type 0 where
  pub src : Str
  pub dest : Str
  pub filters : List Str
  pub dest_file_newer_behaviour : DestFileUpdateBehaviour
  pub dest_file_older_behaviour : DestFileUpdateBehaviour
  pub files_same_time_behaviour : DestFileUpdateBehaviour
  pub dest_entry_needs_deleting_behaviour : DestEntryNeedsDeletingBehaviour
  pub dest_root_needs_deleting_behaviour : DestRootNeedsDeletingBehaviour

abbrev pub default_sync_spec : SyncSpec
default_sync_spec = record {
  src = [];
  dest = [];
  filters = [];
  dest_file_newer_behaviour = DestFileUpdateBehaviour.prompt;
  dest_file_older_behaviour = DestFileUpdateBehaviour.overwrite;
  files_same_time_behaviour = DestFileUpdateBehaviour.skip;
  dest_entry_needs_deleting_behaviour = DestEntryNeedsDeletingBehaviour.delete;
  dest_root_needs_deleting_behaviour = DestRootNeedsDeletingBehaviour.prompt;
}

pub record Spec : Type 0 where
  pub src_hostname : Str
  pub src_username : Str
  pub dest_hostname : Str
  pub dest_username : Str
  pub deploy_behaviour : DeployBehaviour
  pub syncs : List SyncSpec

abbrev pub default_spec : Spec
default_spec = record {
  src_hostname = [];
  src_username = [];
  dest_hostname = [];
  dest_username = [];
  deploy_behaviour = DeployBehaviour.prompt;
  syncs = [];
}
