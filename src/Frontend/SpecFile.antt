-- ===== src/Frontend/SpecFile.antt =====
-- src/boss_frontend.rs, `parse_string`, `parse_sync_spec` and `parse_spec_file`. A YAML document is
-- what the `yaml_rust` crate reads it to: of its values the source tells strings, arrays and
-- dictionaries from the rest.
use rjrssync.Common.{
  Option, none, some, List, [], ◌∷◌, ◌++◌, Str, codes, str_eq, ◌==◌, if◌then◌else◌, Outcome, ok,
  err, ◌>>=◌,
}
use rjrssync.Frontend.{
  UsageError, expected_string, expected_dictionary, expected_array, bad_filter_element,
  unknown_behaviour, unexpected_key, src_not_given, dest_not_given, unreadable, no_document,
}
use rjrssync.Frontend.RemotePath.{is_empty}
use rjrssync.Spec.{
  SyncSpec, default_sync_spec, Spec, default_spec, DestFileUpdateBehaviour,
  DestEntryNeedsDeletingBehaviour, DestRootNeedsDeletingBehaviour, DeployBehaviour,
}

mutual
  pub data Yaml : Type 0 where
    text : Str → Yaml
    array : Yamls → Yaml
    hash : Entries → Yaml
    other : Yaml

  pub data Yamls : Type 0 where
    nil : Yamls
    cons : Yaml → Yamls → Yamls

  pub data Entries : Type 0 where
    end : Entries
    entry : Yaml → Yaml → Entries → Entries

-- The crates that reading needs: a file's documents, `none` if it cannot be read or is not YAML, and
-- `ValueEnum::from_str`, which `clap` derives.
pub record Reading : Type 0 where
  pub load : Str → Option (List Yaml)
  pub file_update : Str → Option DestFileUpdateBehaviour
  pub entry_needs_deleting : Str → Option DestEntryNeedsDeletingBehaviour
  pub root_needs_deleting : Str → Option DestRootNeedsDeletingBehaviour
  pub deploy : Str → Option DeployBehaviour

unfoldable pub parse_string : Yaml → Str → Outcome UsageError Str
parse_string (text s) key_name = ok s
parse_string _ key_name = err (expected_string key_name)

abbrev known : {B : Type 0} → Str → Option B → Outcome UsageError B
known name none = err (unknown_behaviour name)
known name (some b) = ok b

unfoldable pub parse_behaviour : {B : Type 0} → (Str → Option B) → Yaml → Str → Outcome UsageError B
unfolding parse_string
parse_behaviour from_str yaml key_name = do s ← parse_string yaml key_name; known s (from_str s)

-- The loop over the elements of `filters`.
unfoldable pub push_filters : Yamls → List Str → Outcome UsageError (List Str)
push_filters nil filters = ok filters
push_filters (cons (text x) more) filters = push_filters more (filters ++ x ∷ [])
push_filters (cons (array _) more) filters = err bad_filter_element
push_filters (cons (hash _) more) filters = err bad_filter_element
push_filters (cons other more) filters = err bad_filter_element

unfoldable pub parse_filters : Yaml → List Str → Outcome UsageError (List Str)
unfolding push_filters
parse_filters (array elements) filters = push_filters elements filters
parse_filters _ filters = err expected_array

abbrev pub as_hash : Yaml → Outcome UsageError Entries
as_hash (hash entries) = ok entries
as_hash _ = err expected_dictionary

abbrev pub check_sync : SyncSpec → Outcome UsageError SyncSpec
check_sync r =
    if is_empty r.src
    then err src_not_given
    else if is_empty r.dest
    then err dest_not_given
    else ok r

module _ (reading : Reading) where
  abbrev sync_key : Str → Yaml → SyncSpec → Outcome UsageError SyncSpec
  sync_key k v r =
      if k == codes "src"
      then (do x ← parse_string v k; ok (record r { src = x }))
      else if k == codes "dest"
      then (do x ← parse_string v k; ok (record r { dest = x }))
      else if k == codes "filters"
      then (do x ← parse_filters v r.filters; ok (record r { filters = x }))
      else if k == codes "dest_file_newer_behaviour"
      then (do
        b ← parse_behaviour reading.file_update v k
        ok (record r { dest_file_newer_behaviour = b }))
      else if k == codes "dest_file_older_behaviour"
      then (do
        b ← parse_behaviour reading.file_update v k
        ok (record r { dest_file_older_behaviour = b }))
      else if k == codes "files_same_time_behaviour"
      then (do
        b ← parse_behaviour reading.file_update v k
        ok (record r { files_same_time_behaviour = b }))
      else if k == codes "dest_entry_needs_deleting_behaviour"
      then (do
        b ← parse_behaviour reading.entry_needs_deleting v k
        ok (record r { dest_entry_needs_deleting_behaviour = b }))
      else if k == codes "dest_root_needs_deleting_behaviour"
      then (do
        b ← parse_behaviour reading.root_needs_deleting v k
        ok (record r { dest_root_needs_deleting_behaviour = b }))
      else err (unexpected_key k)

  unfoldable pub sync_keys : Entries → SyncSpec → Outcome UsageError SyncSpec
  sync_keys end r = ok r
  sync_keys (entry (text k) v more) r = do r' ← sync_key k v r; sync_keys more r'
  sync_keys (entry (array _) v more) r = err (unexpected_key [])
  sync_keys (entry (hash _) v more) r = err (unexpected_key [])
  sync_keys (entry other v more) r = err (unexpected_key [])

  unfoldable pub parse_sync_spec : Yaml → Outcome UsageError SyncSpec
  unfolding sync_keys
  parse_sync_spec yaml = do
    entries ← as_hash yaml
    r ← sync_keys entries default_sync_spec
    check_sync r

  unfoldable pub push_syncs : Yamls → List SyncSpec → Outcome UsageError (List SyncSpec)
  unfolding parse_sync_spec
  push_syncs nil syncs = ok syncs
  push_syncs (cons y more) syncs = do sync ← parse_sync_spec y; push_syncs more (syncs ++ sync ∷ [])

  abbrev pub parse_syncs : Yaml → List SyncSpec → Outcome UsageError (List SyncSpec)
  parse_syncs (array elements) syncs = push_syncs elements syncs
  parse_syncs _ syncs = err expected_array

  abbrev pub spec_key : Str → Yaml → Spec → Outcome UsageError Spec
  spec_key k v r =
      if k == codes "src_hostname"
      then (do x ← parse_string v k; ok (record r { src_hostname = x }))
      else if k == codes "src_username"
      then (do x ← parse_string v k; ok (record r { src_username = x }))
      else if k == codes "dest_hostname"
      then (do x ← parse_string v k; ok (record r { dest_hostname = x }))
      else if k == codes "dest_username"
      then (do x ← parse_string v k; ok (record r { dest_username = x }))
      else if k == codes "deploy_behaviour"
      then (do b ← parse_behaviour reading.deploy v k; ok (record r { deploy_behaviour = b }))
      else if k == codes "syncs"
      then (do x ← parse_syncs v r.syncs; ok (record r { syncs = x }))
      else err (unexpected_key k)

  unfoldable pub spec_keys : Entries → Spec → Outcome UsageError Spec
  spec_keys end r = ok r
  spec_keys (entry (text k) v more) r = do r' ← spec_key k v r; spec_keys more r'
  spec_keys (entry (array _) v more) r = err (unexpected_key [])
  spec_keys (entry (hash _) v more) r = err (unexpected_key [])
  spec_keys (entry other v more) r = err (unexpected_key [])

  unfoldable pub parse_spec_file : Str → Outcome UsageError Spec
  unfolding spec_keys
  parse_spec_file path = elim (reading.load path) [
    | none ↦ err unreadable
    | some [] ↦ err no_document
    | some (doc ∷ _) ↦ do entries ← as_hash doc; spec_keys entries default_spec
  ]
