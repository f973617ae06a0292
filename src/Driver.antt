-- ===== src/Driver.antt =====
-- src/boss_sync.rs, `sync` and `sync_impl`: one sync from its spec to its last response.
pub mod Roots
pub mod Sends
pub mod Opening
pub mod Performs
pub mod Copies
pub mod Requests
pub mod Whole
pub mod Safety
pub mod Slashes
use rjrssync.Common.{
  ℕ, Bool, true, false, ◌||◌, ◌&&◌, Option, none, some, List, [], ◌∷◌, ◌++◌, Str, codes, Outcome,
  ok, err, panic, ◌>>=◌, if◌then◌else◌, last?, nat_beq,
}
use rjrssync.Comms.{
  SyncError, src_missing, src_trailing_slash, dest_trailing_slash, unexpected_from_src,
  unexpected_from_dest, root_will_not_delete, send_command, receive_response,
}
use rjrssync.Confirm.{Terminal, confirm_actions, pretty_src, pretty_dest}
use rjrssync.Filter.{RegexCrate, compile_filters}
use rjrssync.Interface.{
  EntryDetails, file, folder, symlink, set_root, create_root_ancestors, marker, ProgressMarker,
  Response, root_details,
}
use rjrssync.OrderedMap.{iter}
use rjrssync.Path.{RootRelativePath, root, path_eq, pretty}
use rjrssync.Progress.{Progress, get_progress_marker, all_work_sent}
use rjrssync.Prompt.{Console, resolve_prompt}
use rjrssync.Query.{Pick, query_entries}
use rjrssync.Spec.{SyncSpec, DestRootNeedsDeletingBehaviour}
use rjrssync.Sync.{SyncContext, Actions, DeleteReason, CopyReason, default_stats}
use rjrssync.Sync.Decide.{needs_delete}
use rjrssync.Transfer.{Sending, send_dest, delete_dest_entry, copy_entry, process_dest_responses}
use rjrssync.Progress
use rjrssync.Comms.{Comms}
use rjrssync.Driver.Roots.{get_root_details, check_dest_root, create_ancestors}

module _ (times : ProgressMarker → ℕ) where
  unfoldable pub delete_all :
      List (RootRelativePath × (EntryDetails × DeleteReason)) → Sending → Outcome SyncError Sending
  delete_all [] s = ok s
  delete_all ((path, (d, _)) ∷ rest) s = do
    s1 ← delete_dest_entry path d s
    s2 ← process_dest_responses times false s1
    delete_all rest s2

  unfoldable pub copy_all :
      (ℕ → ℕ)
      → List (RootRelativePath × (EntryDetails × CopyReason))
      → Sending
      → Outcome SyncError Sending
  copy_all log10 [] s = ok s
  copy_all log10 ((path, (d, _)) ∷ rest) s = do
    s1 ← copy_entry times log10 path d s
    s2 ← process_dest_responses times false s1
    copy_all log10 rest s2

-- The state when the confirmed actions start.
abbrev pub ready : ℕ → Bool → SyncContext → Actions → Sending
ready delete_start hidden ctx actions = record {
  ctx = record ctx { stats = record (ctx.stats) { delete_start_time = some delete_start } };
  progress = Progress.new actions hidden ctx.show_progress;
}

-- The marker at the exact start of copying.
abbrev pub start_copies : Sending → Outcome SyncError Sending
start_copies s =
    let (m, progress) = get_progress_marker s.progress in
    send_dest (marker m) (record s { progress = progress })

abbrev pub finish_stats : ℕ → Sending → SyncContext
finish_stats copy_end s = record (s.ctx) {
  stats = record (s.ctx.stats) {
    delete_end_time = s.progress.first_copy_time;
    copy_start_time = s.progress.first_copy_time;
    copy_end_time = some copy_end;
  };
}

-- The `console` crate, the clock when a marker comes back, at the start of the deletions and at
-- the end, the logarithm, and whether the progress bar is hidden.
module _ (t : Terminal) (times : ProgressMarker → ℕ) (delete_start copy_end : ℕ) (log10 : ℕ → ℕ)
    (hidden : Bool) where
  unfoldable pub perform : SyncContext → Actions → Outcome SyncError SyncContext
  unfolding delete_all copy_all
  perform ctx actions = do
    s1 ← delete_all times (iter actions.to_delete) (ready delete_start hidden ctx actions)
    s2 ← start_copies s1
    s3 ← copy_all times log10 (iter actions.to_copy) s2
    s4 ← send_dest (marker (all_work_sent s3.progress)) s3
    s5 ← process_dest_responses times true s4
    ok (finish_stats copy_end s5)

  -- From the details of the roots on.
  unfoldable pub sync_entries :
      SyncContext
      → EntryDetails
      → Option EntryDetails
      → Bool
      → List Pick
      → Console
      → Outcome SyncError (SyncContext × Console)
  unfolding perform
  sync_entries ctx src_root dest_root differentiates picks console = do
    ctx1 ← create_ancestors dest_root ctx
    (ctx2, actions) ← query_entries log10 differentiates ctx1 src_root dest_root picks
    (ctx3, console', confirmed) ← confirm_actions t ctx2 console actions
    ctx4 ← perform ctx3 confirmed
    ok (ctx4, console')

  unfoldable pub sync_impl :
      SyncContext → List Pick → Console → Outcome SyncError (SyncContext × Console)
  unfolding get_root_details check_dest_root sync_entries
  sync_impl ctx picks console = do
    ((src_root, (dest_root, differentiates)), ctx1) ← get_root_details ctx
    (go_on, console') ← check_dest_root t ctx1 src_root dest_root differentiates console
    if go_on
        then sync_entries ctx1 src_root dest_root differentiates picks console'
        else ok (ctx1, console')

  unfoldable pub sync :
      RegexCrate
      → SyncSpec
      → Bool
      → Bool
      → Bool
      → Comms
      → Comms
      → List Pick
      → Console
      → Outcome SyncError (SyncContext × Console)
  unfolding sync_impl
  sync crate spec dry_run show_progress show_stats src_comms dest_comms picks console = do
    filters ← compile_filters crate spec.filters
    sync_impl
        (record {
          src_comms = src_comms;
          dest_comms = dest_comms;
          filters = filters;
          stats = default_stats;
          dry_run = dry_run;
          dest_file_newer_behaviour = spec.dest_file_newer_behaviour;
          dest_file_older_behaviour = spec.dest_file_older_behaviour;
          files_same_time_behaviour = spec.files_same_time_behaviour;
          dest_entry_needs_deleting_behaviour = spec.dest_entry_needs_deleting_behaviour;
          dest_root_needs_deleting_behaviour = spec.dest_root_needs_deleting_behaviour;
          show_progress = show_progress;
          show_stats = show_stats;
          src_root = spec.src;
          dest_root = spec.dest;
          src_dir_separator = none;
          dest_dir_separator = none;
        })
        picks console
