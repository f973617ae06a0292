-- ===== src/Tests/Transfers.antt =====
-- Deletions and copies at small inputs.
use rjrssync.Common.{ℕ, true, false, List, [], ◌∷◌, ◌++◌, ok, ◌≡◌, refl}
use rjrssync.Comms.{send_command}
use rjrssync.Interface.{Response, file, folder, Command, ProgressMarker, file_content}
use rjrssync.OrderedMap
use rjrssync.Progress.{Progress, new, copy_sent_partial, get_progress_marker_limited}
use rjrssync.Tests.Queries.{path, srcs, dests, context, no_log}
use rjrssync.Transfer.{
  Sending, delete_dest_entry, copy_entry, copy_file, copy_content, copy_chunks, forward_chunk,
  send_progress_marker_limited, process_dest_responses, process_inbox,
}
use rjrssync.Transfer.DryRun.{Untouched, delete_dest_entry-Untouched, copy_entry-Untouched}
use rjrssync.Transfer.Outbox.{without_markers}
use rjrssync.Transfer.Sizes.{written, contents, Taken, copy_file-written}

abbrev progress : Progress
progress = new (record { to_delete = OrderedMap.new; to_copy = OrderedMap.new }) true true

abbrev dry : Sending
dry = record { ctx = record (context srcs dests) { dry_run = true }; progress = progress }

abbrev pub times : ProgressMarker → ℕ
times m = 0

delete_dest_entry-Untouched_example :
    (s' : Sending) × (delete_dest_entry (path "b") folder dry ≡ ok s') × Untouched dry s'
delete_dest_entry-Untouched_example = delete_dest_entry-Untouched (path "b") folder dry refl refl

copy_entry-Untouched_example :
    (s' : Sending) × (copy_entry times no_log (path "a") (file 5 3) dry ≡ ok s') × Untouched dry s'
copy_entry-Untouched_example = copy_entry-Untouched times no_log (path "a") (file 5 3) dry refl refl

-- The source sends the file in two chunks.
abbrev wet : Sending
wet = record {
  ctx = record (context srcs dests) {
    src_comms = record (context srcs dests).src_comms {
      inbox = file_content (1 ∷ 2 ∷ []) true ∷ file_content (3 ∷ []) false ∷ [];
    };
    dest_comms = record (context srcs dests).dest_comms { inbox = [] };
  };
  progress = progress;
}

copied : (s' : Sending) × (copy_file times no_log (path "a") 3 5 wet ≡ ok s')
unfolding copy_file copy_content copy_chunks forward_chunk send_progress_marker_limited
    process_dest_responses send_command get_progress_marker_limited process_inbox new
    copy_sent_partial
copied = (_, refl)

copy_file-written_example :
    (sent : List Command) × (read : List Response) × (copied.0.ctx.dest_comms.outbox
      ≡ wet.ctx.dest_comms.outbox ++ sent)
    × (written 0 sent ≡ 3)
    × (without_markers sent ≡ contents (path "a") 5 read)
    × Taken 3 3 read wet.ctx.src_comms.inbox copied.0.ctx.src_comms.inbox
copy_file-written_example = copy_file-written times no_log (path "a") 3 5 wet copied.0 refl copied.1
