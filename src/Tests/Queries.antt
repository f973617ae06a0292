-- ===== src/Tests/Queries.antt =====
-- The querying phase between two small folders.
use rjrssync.Common.{
  ℕ, true, false, none, some, List, [], ◌∷◌, ok, ◌≡◌, refl, codes, String, Subseq, skip, keep, nil,
}
use rjrssync.Common.HashMap.{get, keys, NodupKeys}
use rjrssync.Comms.{Comms}
use rjrssync.Interface.{file, folder, symlink, unknown_link, normalized}
use rjrssync.OrderedMap.{iter}
use rjrssync.OrderedMap.Tracks.{select}
use rjrssync.Path.{RootRelativePath, root, path_eq}
use rjrssync.Spec.{
  DestFileUpdateBehaviour, DestEntryNeedsDeletingBehaviour, DestRootNeedsDeletingBehaviour,
}
use rjrssync.Sync.{
  SyncContext, Actions, default_stats, dest_older, not_on_dest, incompatible, not_on_source,
}
use rjrssync.Query.{Pick, from_src, from_dest, query_entries}
use rjrssync.Query.Steps.{Listing}
use rjrssync.Query.Loop.{answers}
use rjrssync.Query.Plan.{
  query_entries-plan, query_entries_children_deleted_first, query_entries_parents_copied_first,
  query_entries_in_sync, deletions, copies,
}

abbrev pub path : String → RootRelativePath
path s = record { inner = codes s }

abbrev pub srcs : Listing
srcs =
    (path "a", file 5 10)
    ∷ (path "d", folder)
    ∷ (path "d/x", symlink unknown_link (normalized (codes "y")))
    ∷ []

abbrev pub dests : Listing
dests =
    (path "a", file 4 9) ∷ (path "b", folder) ∷ (path "b/c", file 1 1) ∷ (path "d", file 1 1) ∷ []

abbrev pub doer : Listing → Comms
doer l = record {
  name = codes "doer";
  outbox = [];
  sends = true;
  inbox = answers l;
  closes = false;
  arrivals = [];
}

abbrev pub context : Listing → Listing → SyncContext
context src dest = record {
  src_comms = doer src;
  dest_comms = doer dest;
  filters = record { regex_set = []; kinds = [] };
  stats = default_stats;
  dry_run = false;
  dest_file_newer_behaviour = DestFileUpdateBehaviour.prompt;
  dest_file_older_behaviour = DestFileUpdateBehaviour.overwrite;
  files_same_time_behaviour = DestFileUpdateBehaviour.skip;
  dest_entry_needs_deleting_behaviour = DestEntryNeedsDeletingBehaviour.delete;
  dest_root_needs_deleting_behaviour = DestRootNeedsDeletingBehaviour.prompt;
  show_progress = false;
  show_stats = false;
  src_root = codes "s";
  dest_root = codes "t";
  src_dir_separator = none;
  dest_dir_separator = none;
}

abbrev pub picks : List Pick
picks =
    from_src ∷ from_dest ∷ from_dest ∷ from_src ∷ from_dest ∷ from_dest ∷ from_src ∷ from_src
    ∷ from_dest ∷ []

abbrev pub no_log : ℕ → ℕ
no_log n = 0

once_src : NodupKeys ((root, folder) ∷ srcs)
unfolding get
once_src = (refl, (refl, (refl, (refl, tt))))

once_dest : NodupKeys ((root, folder) ∷ dests)
unfolding get
once_dest = (refl, (refl, (refl, (refl, (refl, tt)))))

query_entries-plan_example :
    (ctx' : SyncContext) × (actions : Actions) × (query_entries no_log false
        (context srcs dests)
        folder
        (some folder)
        picks
      ≡ ok (ctx', actions))
    × (iter actions.to_delete ≡ deletions false ((root, folder) ∷ srcs) ((root, folder) ∷ dests))
    × (iter actions.to_copy
        ≡ copies false DestFileUpdateBehaviour.skip
            ((root, folder) ∷ srcs)
            ((root, folder) ∷ dests))
query_entries-plan_example =
    query_entries-plan no_log false (context srcs dests) folder (some folder) srcs dests [] [] picks
      refl refl refl refl once_src once_dest refl refl

query_entries_children_deleted_first_example :
    (ctx' : SyncContext) × (actions : Actions) × (query_entries no_log false
        (context srcs dests)
        folder
        (some folder)
        picks
      ≡ ok (ctx', actions))
    × Subseq (path "b/c" ∷ path "b" ∷ []) (keys (iter actions.to_delete))
unfolding get
query_entries_children_deleted_first_example =
    query_entries_children_deleted_first no_log false (context srcs dests) folder (some folder) srcs
      dests [] [] picks refl refl refl refl once_src once_dest refl refl (path "b") (path "b/c")
      (skip (skip (keep (keep (skip nil))))) (λ h. cc) (λ h. cc)

query_entries_parents_copied_first_example :
    (ctx' : SyncContext) × (actions : Actions) × (query_entries no_log false
        (context srcs dests)
        folder
        (some folder)
        picks
      ≡ ok (ctx', actions))
    × Subseq (path "d" ∷ path "d/x" ∷ []) (keys (iter actions.to_copy))
unfolding get
query_entries_parents_copied_first_example =
    query_entries_parents_copied_first no_log false (context srcs dests) folder (some folder) srcs
      dests [] [] picks refl refl refl refl once_src once_dest refl refl (path "d") (path "d/x")
      (skip (skip (keep (keep nil)))) (λ h. cc) (λ h. cc)

abbrev same_picks : List Pick
same_picks =
    from_dest ∷ from_src ∷ from_src ∷ from_dest ∷ from_src ∷ from_src ∷ from_dest ∷ from_dest ∷ []

query_entries_in_sync_example :
    (ctx' : SyncContext) × (actions : Actions) × (query_entries no_log false
        (context srcs srcs)
        folder
        (some folder)
        same_picks
      ≡ ok (ctx', actions))
    × (iter actions.to_delete ≡ [])
    × (iter actions.to_copy ≡ [])
query_entries_in_sync_example =
    query_entries_in_sync no_log false (context srcs srcs) folder (some folder) srcs srcs [] []
      same_picks refl refl refl refl once_src once_src refl refl (λ p. refl) refl

-- The file is older on the destination; the folder `b` is not on the source; `d` is a file in the way
-- of a folder.
deletions_run :
    deletions false ((root, folder) ∷ srcs) ((root, folder) ∷ dests)
    ≡ (path "d", (file 1 1, incompatible))
      ∷ (path "b/c", (file 1 1, not_on_source))
      ∷ (path "b", (folder, not_on_source))
      ∷ []
unfolding get select
deletions_run = refl

copies_run :
    copies false DestFileUpdateBehaviour.skip ((root, folder) ∷ srcs) ((root, folder) ∷ dests)
    ≡ (path "a", (file 5 10, dest_older))
      ∷ (path "d", (folder, not_on_dest))
      ∷ (path "d/x", (symlink unknown_link (normalized (codes "y")), not_on_dest))
      ∷ []
unfolding get select
copies_run = refl
