-- ===== src/Transfer.antt =====
-- src/boss_sync.rs: the commands that delete and copy, and the responses of the destination.
pub mod DryRun
pub mod Outbox
pub mod Sizes
use rjrssync.Common.{
  ℕ, ◌+◌, Bool, true, false, not, Option, none, some, List, [], ◌∷◌, ◌++◌, Str, Outcome, ok, err,
  blocked, ◌>>=◌, if◌then◌else◌, add_u32, add_u64, ltb, nat_beq, length,
}
use rjrssync.Comms.{
  Comms, SyncError, DestReport, reported, lost, unexpected, dest_reported, unexpected_content,
  size_changed, lost_communication, send_command,
}
use rjrssync.Histogram
use rjrssync.Interface.{
  EntryDetails, file, folder, symlink, Command, delete_file, delete_folder, delete_symlink,
  create_folder, create_symlink, get_file_content, create_or_update_file, marker, Response,
  root_details, entry, end_of_entries, file_content, profiling_time, profiling_data, marker_echo,
  error, ProgressMarker, ProgressPhase, deleting, copying, done,
}
use rjrssync.Path.{RootRelativePath}
use rjrssync.Progress.{
  Progress, get_progress_marker_limited, delete_sent, copy_sent, copy_sent_partial,
  update_completed,
}
use rjrssync.Sync.{SyncContext, Stats}

-- The context and the progress that an operation changes.
pub record Sending : Type 0 where
  pub ctx : SyncContext
  pub progress : Progress

abbrev pub send_dest : Command → Sending → Outcome SyncError Sending
send_dest c s = do
  m ← send_command c s.ctx.dest_comms
  ok (record s { ctx = record (s.ctx) { dest_comms = m } })

abbrev pub send_marker : Option ProgressMarker → Sending → Outcome SyncError Sending
send_marker none s = ok s
send_marker (some m) s = send_dest (marker m) s

unfoldable pub send_progress_marker_limited : Sending → Outcome SyncError Sending
send_progress_marker_limited s =
    let (m, progress) = get_progress_marker_limited s.progress in
    send_marker m (record s { progress = progress })

-- Nothing is sent in a dry run.
abbrev pub unless_dry : Command → Sending → Outcome SyncError Sending
unless_dry c s = if s.ctx.dry_run then ok s else send_dest c s

abbrev pub with_stats : Stats → Sending → Sending
with_stats stats s = record s { ctx = record (s.ctx) { stats = stats } }

abbrev pub count_deleted : EntryDetails → Stats → Stats
count_deleted (file _ size) stats = record stats {
  num_files_deleted = add_u32 stats.num_files_deleted 1;
  num_bytes_deleted = add_u64 stats.num_bytes_deleted size;
}
count_deleted folder stats = record stats {
  num_folders_deleted = add_u32 stats.num_folders_deleted 1;
}
count_deleted (symlink _ _) stats = record stats {
  num_symlinks_deleted = add_u32 stats.num_symlinks_deleted 1;
}

abbrev pub delete_command : RootRelativePath → EntryDetails → Command
delete_command path (file _ _) = delete_file path
delete_command path folder = delete_folder path
delete_command path (symlink kind _) = delete_symlink path kind

unfoldable pub delete_dest_entry :
    RootRelativePath → EntryDetails → Sending → Outcome SyncError Sending
delete_dest_entry path d s = do
  s1 ← send_progress_marker_limited (with_stats (count_deleted d s.ctx.stats) s)
  s2 ← unless_dry (delete_command path d) s1
  ok (record s2 { progress = delete_sent d s2.progress })

abbrev result : List DestReport → Sending → Outcome SyncError Sending
result [] s = ok s
result (e ∷ es) s = err (dest_reported (e ∷ es))

abbrev is_done : ProgressPhase → Bool
is_done done = true
is_done _ = false

-- Whether a poll sees the next response now, and the polls that are left.
abbrev pub arrived : List Bool → Bool × List Bool
arrived [] = (false, [])
arrived (b ∷ more) = (b, more)

abbrev pub count_copied : (ℕ → ℕ) → ℕ → Stats → Stats
count_copied log10 size stats = record stats {
  num_files_copied = add_u32 stats.num_files_copied 1;
  num_bytes_copied = add_u64 stats.num_bytes_copied size;
  copied_file_size_hist = Histogram.add log10 size stats.copied_file_size_hist;
}

abbrev pub with_inbox : List Response → List Bool → Sending → Sending
with_inbox inbox arrivals s = record s {
  ctx = record (s.ctx) {
    dest_comms = record (s.ctx.dest_comms) { inbox = inbox; arrivals = arrivals };
  };
}

abbrev pub with_src_inbox : List Response → Sending → Sending
with_src_inbox inbox s = record s {
  ctx = record (s.ctx) { src_comms = record (s.ctx.src_comms) { inbox = inbox } };
}

module _ (times : ProgressMarker → ℕ) where
  -- The `while` loop over the responses that come. `times` stands for the clock: when a marker comes
  -- back.
  unfoldable pub process_inbox :
      List Response → Bool → List DestReport → List Bool → Sending → Outcome SyncError Sending
  process_inbox [] true errors arrivals s =
      if s.ctx.dest_comms.closes
      then result (errors ++ lost s.ctx.dest_comms.name ∷ []) s
      else blocked
  process_inbox [] false errors arrivals s =
      let (here, more) = arrived arrivals in
      if here
      then (if s.ctx.dest_comms.closes
          then result (errors ++ lost s.ctx.dest_comms.name ∷ []) (with_inbox [] more s)
          else result errors (with_inbox [] more s))
      else result errors (with_inbox [] more s)
  process_inbox (r ∷ rest) block errors arrivals s =
      let (here, more) = if block then (true, arrivals) else arrived arrivals in
      let after_error = process_inbox rest false in
      let after = process_inbox rest block in
      if not here then result errors (with_inbox (r ∷ rest) more s) else elim r [
        | error e ↦ after_error (errors ++ reported e ∷ []) more s
        | marker_echo m ↦
            let s' : Sending = record s { progress = update_completed (times m) m s.progress } in
            if is_done m.phase
            then result errors (with_inbox rest more s')
            else after errors more s'
        | root_details d b c ↦ after (errors ++ unexpected (root_details d b c) ∷ []) more s
        | entry p d ↦ after (errors ++ unexpected (entry p d) ∷ []) more s
        | end_of_entries ↦ after (errors ++ unexpected end_of_entries ∷ []) more s
        | file_content d b ↦ after (errors ++ unexpected (file_content d b) ∷ []) more s
        | profiling_time t ↦ after (errors ++ unexpected (profiling_time t) ∷ []) more s
        | profiling_data ↦ after (errors ++ unexpected profiling_data ∷ []) more s
      ]

  unfoldable pub process_dest_responses : Bool → Sending → Outcome SyncError Sending
  unfolding process_inbox
  process_dest_responses block s =
      process_inbox s.ctx.dest_comms.inbox block [] s.ctx.dest_comms.arrivals s

  -- One chunk that fits: send it on, and look for errors of the destination.
  unfoldable pub forward_chunk :
      RootRelativePath → ℕ → ℕ → ℕ → List ℕ → Bool → Sending → Outcome SyncError Sending
  unfolding process_dest_responses
  forward_chunk path size modified_time chunk_offset bytes more_to_follow s = do
    s1 ←
        send_dest
          (create_or_update_file path bytes (if more_to_follow then none else some modified_time)
            more_to_follow)
          s
    process_dest_responses false
        (record s1 { progress = copy_sent_partial chunk_offset (length bytes) size s1.progress })

  -- The loop over the chunks, which are the responses of the source that come, with the offset so
  -- far. It gives the offset at its end.
  unfoldable pub copy_chunks :
      RootRelativePath → ℕ → ℕ → List Response → ℕ → Sending → Outcome SyncError (ℕ × Sending)
  unfolding send_progress_marker_limited forward_chunk
  copy_chunks path size modified_time [] chunk_offset s = do
    s1 ← send_progress_marker_limited s
    if s1.ctx.src_comms.closes then err (lost_communication s1.ctx.src_comms.name) else blocked
  copy_chunks path size modified_time (r ∷ rest) chunk_offset s = do
    s1 ← send_progress_marker_limited s
    elim r [
      | file_content bytes more_to_follow ↦
          let next = add_u64 chunk_offset (length bytes) in
          if ltb size next then ok (chunk_offset, with_src_inbox rest s1) else (do
            s2 ←
                forward_chunk path size modified_time chunk_offset bytes more_to_follow
                  (with_src_inbox rest s1)
            let later = copy_chunks path size modified_time rest next s2
            if more_to_follow then later else ok (next, s2))
      | root_details d b c ↦ err (unexpected_content path)
      | entry p d ↦ err (unexpected_content path)
      | end_of_entries ↦ err (unexpected_content path)
      | profiling_time t ↦ err (unexpected_content path)
      | profiling_data ↦ err (unexpected_content path)
      | marker_echo m ↦ err (unexpected_content path)
      | error e ↦ err (unexpected_content path)
    ]

  unfoldable pub copy_content : RootRelativePath → ℕ → ℕ → Sending → Outcome SyncError Sending
  unfolding copy_chunks
  copy_content path size modified_time s = do
    m ← send_command (get_file_content path) s.ctx.src_comms
    (chunk_offset, s1) ←
        copy_chunks path size modified_time m.inbox 0
          (record s { ctx = record (s.ctx) { src_comms = m } })
    if nat_beq chunk_offset size then ok s1 else err (size_changed path)

  unfoldable pub copy_file :
      (ℕ → ℕ) → RootRelativePath → ℕ → ℕ → Sending → Outcome SyncError Sending
  unfolding send_progress_marker_limited copy_content
  copy_file log10 path size modified_time s = do
    s1 ← send_progress_marker_limited s
    s2 ←
        if s1.ctx.dry_run
        then ok (record s1 { progress = copy_sent_partial 0 size size s1.progress })
        else copy_content path size modified_time s1
    ok (with_stats (count_copied log10 size s2.ctx.stats) s2)

  unfoldable pub copy_entry :
      (ℕ → ℕ) → RootRelativePath → EntryDetails → Sending → Outcome SyncError Sending
  unfolding copy_file
  copy_entry log10 path (file modified_time size) s = copy_file log10 path size modified_time s
  copy_entry log10 path folder s = do
    s1 ← send_progress_marker_limited s
    s2 ← unless_dry (create_folder path) (
        with_stats
          (record (s1.ctx.stats) {
            num_folders_created = add_u32 s1.ctx.stats.num_folders_created 1;
          })
          s1)
    ok (record s2 { progress = copy_sent folder s2.progress })
  copy_entry log10 path (symlink kind target) s = do
    s1 ← send_progress_marker_limited s
    s2 ← unless_dry (create_symlink path kind target) (
        with_stats
          (record (s1.ctx.stats) {
            num_symlinks_copied = add_u32 s1.ctx.stats.num_symlinks_copied 1;
          })
          s1)
    ok (record s2 { progress = copy_sent (symlink kind target) s2.progress })
