-- ===== src/Tests/Drivers.antt =====
-- Whole syncs between two small folders, and of one file.
use rjrssync.Common.HashMap.{get}
use rjrssync.Common.HashMap.{insert}
use rjrssync.Common.HashMap.{remove}
use rjrssync.Comms.{receive_response}
use rjrssync.Comms.{send_command}
use rjrssync.Confirm.{confirm_actions}
use rjrssync.Confirm.{confirm_copies}
use rjrssync.Confirm.{confirm_copy}
use rjrssync.Confirm.{confirm_deletes}
use rjrssync.Confirm.{confirm_delete}
use rjrssync.Confirm.{remove_all}
use rjrssync.Driver.Roots.{create_ancestors}
use rjrssync.Driver.Roots.{dest_details}
use rjrssync.Driver.Roots.{move_inside}
use rjrssync.Driver.Roots.{src_details}
use rjrssync.Driver.Roots.{take_dest_details}
use rjrssync.Driver.Roots.{take_src_details}
use rjrssync.Driver.Roots.{validate_trailing_slash}
use rjrssync.Driver.{copy_all}
use rjrssync.Driver.{delete_all}
use rjrssync.Driver.{sync_entries}
use rjrssync.OrderedMap
use rjrssync.Progress.{all_work_sent}
use rjrssync.Progress.{copy_sent_partial}
use rjrssync.Progress.{copy_sent}
use rjrssync.Progress.{delete_sent}
use rjrssync.Progress.{get_progress_marker_limited}
use rjrssync.Progress.{get_progress_marker}
use rjrssync.Progress.{new}
use rjrssync.Progress.{update_completed}
use rjrssync.Query.{begin_dest}
use rjrssync.Query.{begin}
use rjrssync.Query.{count_dest}
use rjrssync.Query.{count_src}
use rjrssync.Query.{finish}
use rjrssync.Query.{loop}
use rjrssync.Query.{process_dest_entry}
use rjrssync.Query.{process_src_entry}
use rjrssync.Query.{query_entries}
use rjrssync.Query.{round}
use rjrssync.Query.{take_dest}
use rjrssync.Query.{take_src}
use rjrssync.Sync.Decide.{needs_copy}
use rjrssync.Sync.Decide.{needs_delete}
use rjrssync.Transfer.{copy_entry}
use rjrssync.Transfer.{copy_file}
use rjrssync.Transfer.{delete_dest_entry}
use rjrssync.Transfer.{process_dest_responses}
use rjrssync.Transfer.{process_inbox}
use rjrssync.Transfer.{send_progress_marker_limited}
use rjrssync.Common.{
  true, false, none, some, List, [], ◌∷◌, ◌++◌, ok, ◌≡◌, refl, codes, if◌then◌else◌, ◌⊎◌,
}
use rjrssync.Comms.{Comms}
use rjrssync.Driver.{sync_impl, perform}
use rjrssync.Driver.Roots.{get_root_details, check_dest_root, is_file_or_symlink, ends_in_slash}
use rjrssync.Driver.Safety.{
  only_reads, harmless, sync_impl-source, sync_impl_dry_run, check_dest_root-Unattended,
  with_console, root_verdict,
}
use rjrssync.Driver.Sends.{Extends, Sends, asks}
use rjrssync.Driver.Slashes.{get_root_details_slashes, moved}
use rjrssync.Driver.Whole.{Performed, perform-Performed}
use rjrssync.Interface.{file, folder, root_details, marker_echo, done, Response, file_content}
use rjrssync.Prompt.{Console}
use rjrssync.Query.Loop.{answers}
use rjrssync.Sync.{SyncContext}
use rjrssync.Tests.Confirms.{nobody, terminal, actions}
use rjrssync.Tests.Queries.{srcs, dests, doer, context, picks, no_log}
use rjrssync.Tests.Transfers.{times}

abbrev talks : List Response → Comms
talks inbox = record (doer []) { inbox = inbox }

-- A sync of the two folders, in a dry run.
abbrev two_folders : SyncContext
two_folders = record (context srcs dests) {
  src_comms = talks (root_details (some folder) false b'/' ∷ answers srcs);
  dest_comms = talks (
      root_details (some folder) false b'/'
      ∷ (answers dests ++ marker_echo (record { completed_work = 0; phase = done }) ∷ []));
  dry_run = true;
}

dry_sync :
    (r : SyncContext × Console) × (sync_impl terminal times 1 2 no_log true two_folders picks nobody
      ≡ ok r)
unfolding sync_impl get_root_details src_details take_src_details dest_details take_dest_details
    move_inside check_dest_root sync_entries create_ancestors perform delete_all copy_all
    query_entries begin begin_dest loop round take_src take_dest finish process_src_entry
    process_dest_entry count_src count_dest needs_delete needs_copy confirm_actions confirm_deletes
    confirm_delete confirm_copies confirm_copy remove_all delete_dest_entry copy_entry copy_file
    send_progress_marker_limited process_dest_responses process_inbox send_command receive_response
    get_progress_marker_limited get_progress_marker new all_work_sent update_completed
    copy_sent_partial copy_sent delete_sent validate_trailing_slash OrderedMap.new OrderedMap.add
    OrderedMap.update OrderedMap.remove OrderedMap.lookup OrderedMap.reverse_order get insert remove
    OrderedMap.iter OrderedMap.iter_over
dry_sync = (_, refl)

sync_impl-source_example : Extends only_reads two_folders.src_comms dry_sync.0.0.src_comms
sync_impl-source_example =
    sync_impl-source terminal times 1 2 no_log true two_folders dry_sync.0.0 picks nobody
      dry_sync.0.1 dry_sync.1

sync_impl_dry_run_example : Sends asks harmless two_folders dry_sync.0.0
sync_impl_dry_run_example =
    sync_impl_dry_run terminal times 1 2 no_log true two_folders dry_sync.0.0 picks nobody
      dry_sync.0.1 refl dry_sync.1

-- One deletion and one copy, performed.
abbrev ready_to_go : SyncContext
ready_to_go = record (context srcs dests) {
  src_comms = talks (
      file_content (1 ∷ 2 ∷ 3 ∷ 4 ∷ []) true
      ∷ file_content (5 ∷ 6 ∷ 7 ∷ 8 ∷ 9 ∷ 10 ∷ []) false
      ∷ []);
  dest_comms = talks (marker_echo (record { completed_work = 0; phase = done }) ∷ []);
}

run : (ctx' : SyncContext) × (perform terminal times 1 2 no_log true ready_to_go actions ≡ ok ctx')
unfolding perform OrderedMap.iter OrderedMap.iter_over OrderedMap.add OrderedMap.new get insert
    delete_dest_entry send_progress_marker_limited get_progress_marker_limited new send_command
    process_dest_responses copy_entry delete_sent copy_sent_partial
run = (_, refl)

perform-Performed_example : Performed actions ready_to_go run.0
perform-Performed_example =
    perform-Performed terminal times 1 2 no_log true ready_to_go run.0 actions run.1

-- The source is a file, and the destination a folder, written with a slash.
abbrev one_file : SyncContext
one_file = record (context srcs dests) {
  src_root = codes "x/y";
  dest_root = codes "t/";
  src_comms = talks (root_details (some (file 5 3)) false b'/' ∷ []);
  dest_comms = talks (root_details (some folder) false b'/' ∷ root_details none false b'/' ∷ []);
}

roots : (ctx' : SyncContext) × (get_root_details one_file ≡ ok ((file 5 3, (none, false)), ctx'))
unfolding get_root_details src_details take_src_details dest_details take_dest_details move_inside
    send_command receive_response validate_trailing_slash
roots = (_, refl)

get_root_details_slashes_example :
    (roots.0.src_root ≡ codes "x/y")
    × (roots.0.dest_root ≡ moved (file 5 3) (codes "x/y") (codes "t/"))
    × ((is_file_or_symlink (file 5 3) ≡ false)
        ⊎ ((ends_in_slash roots.0.src_root ≡ false) × (ends_in_slash roots.0.dest_root ≡ false)))
get_root_details_slashes_example =
    get_root_details_slashes one_file roots.0 (file 5 3) none false roots.1

inside_run : moved (file 5 3) (codes "x/y") (codes "t/") ≡ codes "t/y"
inside_run = refl

check_dest_root-Unattended_example :
    check_dest_root terminal (context srcs dests) (file 5 3) (some folder) false nobody ≡ (
      if needs_delete (file 5 3) folder false
      then with_console
          (root_verdict (context srcs dests).dest_root_needs_deleting_behaviour)
          nobody
      else ok (true, nobody))
check_dest_root-Unattended_example =
    check_dest_root-Unattended terminal (context srcs dests) (file 5 3) folder false nobody
      (refl, refl)
