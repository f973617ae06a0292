-- ===== src/Transfer/Outbox.antt =====
-- What the responses and the commands do to the list of commands sent.
use rjrssync.Common.{
  ℕ, Bool, true, false, Option, none, some, List, [], ◌∷◌, ◌++◌, ok, Outcome, if◌then◌else◌, refl,
  ap, ◌≡◌, arith,
}
use rjrssync.Comms.{SyncError, DestReport, reported, unexpected, send_command}
use rjrssync.Interface.{
  marker, Command, ProgressMarker, Response, root_details, entry, end_of_entries, file_content,
  profiling_time, profiling_data, marker_echo, error,
}
use rjrssync.Progress.{update_completed, get_progress_marker_limited}
use rjrssync.Transfer.{
  Sending, send_marker, send_dest, send_progress_marker_limited, process_inbox,
  process_dest_responses, result, arrived,
}

abbrev pub outbox : Sending → List Command
outbox s = s.ctx.dest_comms.outbox

result-eq-ok : (errors : List DestReport) (s s' : Sending) → result errors s ≡ ok s' → s' ≡ s
result-eq-ok errors s s' h = ground arith

pub ok_outbox :
    (x s' : Sending) → ◌≡◌ {A = Outcome SyncError Sending} (ok x) (ok s') → outbox s' ≡ outbox x
ok_outbox x s' h = ground arith

marker_dry_run :
    (o : Option ProgressMarker) (s s' : Sending)
    → send_marker o s ≡ ok s'
    → s'.ctx.dry_run ≡ s.ctx.dry_run
unfolding send_command
marker_dry_run none s s' h = ground arith
marker_dry_run (some m) s s' h = ground arith

pub limited_dry_run :
    (s s' : Sending) → send_progress_marker_limited s ≡ ok s' → s'.ctx.dry_run ≡ s.ctx.dry_run
unfolding send_progress_marker_limited
limited_dry_run s s' h =
    marker_dry_run (get_progress_marker_limited s.progress).0
      (record s { progress = (get_progress_marker_limited s.progress).1 }) s' h

-- What the responses of the destination leave alone.
abbrev pub Kept : Sending → Sending → Type 0
Kept s s' =
    (outbox s' ≡ outbox s) × (s'.ctx.dry_run ≡ s.ctx.dry_run) × (s'.ctx.src_comms ≡ s.ctx.src_comms)

module _ (times : ProgressMarker → ℕ) where
  process_inbox-Kept :
      (inbox : List Response) (block : Bool) (errors : List DestReport) (arrivals : List Bool)
      (s s' : Sending)
      → process_inbox times inbox block errors arrivals s ≡ ok s'
      → Kept s s'
  unfolding process_inbox
  process_inbox-Kept [] true errors arrivals s s' h = ground arith
  process_inbox-Kept [] false errors arrivals s s' h = ground arith
  process_inbox-Kept (error e ∷ rest) block errors arrivals s s' h =
      let more : List Bool = (if block then (true, arrivals) else arrived arrivals).1 in
      ground (arith, process_inbox-Kept rest false (errors ++ reported e ∷ []) more s s')
  process_inbox-Kept (marker_echo m ∷ rest) block errors arrivals s s' h =
      let more : List Bool = (if block then (true, arrivals) else arrived arrivals).1 in
      ground (
        arith,
        process_inbox-Kept rest block errors more
            (record s { progress = update_completed (times m) m s.progress }) s',
      )
  process_inbox-Kept (root_details d b c ∷ rest) block errors arrivals s s' h =
      let more : List Bool = (if block then (true, arrivals) else arrived arrivals).1 in
      ground (
        arith,
        process_inbox-Kept rest block (errors ++ unexpected (root_details d b c) ∷ []) more s s',
      )
  process_inbox-Kept (entry p d ∷ rest) block errors arrivals s s' h =
      let more : List Bool = (if block then (true, arrivals) else arrived arrivals).1 in
      ground
        (arith, process_inbox-Kept rest block (errors ++ unexpected (entry p d) ∷ []) more s s')
  process_inbox-Kept (end_of_entries ∷ rest) block errors arrivals s s' h =
      let more : List Bool = (if block then (true, arrivals) else arrived arrivals).1 in
      ground (
        arith,
        process_inbox-Kept rest block (errors ++ unexpected (end_of_entries) ∷ []) more s s',
      )
  process_inbox-Kept (file_content d b ∷ rest) block errors arrivals s s' h =
      let more : List Bool = (if block then (true, arrivals) else arrived arrivals).1 in
      ground (
        arith,
        process_inbox-Kept rest block (errors ++ unexpected (file_content d b) ∷ []) more s s',
      )
  process_inbox-Kept (profiling_time t ∷ rest) block errors arrivals s s' h =
      let more : List Bool = (if block then (true, arrivals) else arrived arrivals).1 in
      ground (
        arith,
        process_inbox-Kept rest block (errors ++ unexpected (profiling_time t) ∷ []) more s s',
      )
  process_inbox-Kept (profiling_data ∷ rest) block errors arrivals s s' h =
      let more : List Bool = (if block then (true, arrivals) else arrived arrivals).1 in
      ground (
        arith,
        process_inbox-Kept rest block (errors ++ unexpected (profiling_data) ∷ []) more s s',
      )

  pub process_dest_responses-Kept :
      (block : Bool) (s s' : Sending) → process_dest_responses times block s ≡ ok s' → Kept s s'
  unfolding process_dest_responses
  process_dest_responses-Kept block s s' h =
      process_inbox-Kept s.ctx.dest_comms.inbox block [] s.ctx.dest_comms.arrivals s s' h

  pub process_dest_responses-outbox :
      (block : Bool) (s s' : Sending)
      → process_dest_responses times block s ≡ ok s'
      → outbox s' ≡ outbox s
  process_dest_responses-outbox block s s' h = (process_dest_responses-Kept block s s' h).0

  pub send_dest-outbox :
      (c : Command) (s s' : Sending) → send_dest c s ≡ ok s' → outbox s' ≡ outbox s ++ c ∷ []
  unfolding send_command
  send_dest-outbox c s s' h = ground arith

-- The commands that are no progress markers.
abbrev pub without_markers : List Command → List Command
without_markers [] = []
without_markers (marker m ∷ cs) = without_markers cs
without_markers (c ∷ cs) = c ∷ without_markers cs

pub without_markers-append :
    (xs ys : List Command) → without_markers (xs ++ ys) ≡ without_markers xs ++ without_markers ys
without_markers-append [] ys = refl
without_markers-append (c ∷ xs) ys = ground (arith, without_markers-append xs ys)

-- What the source has sent and the boss not yet read.
abbrev pub unread : Sending → List Response
unread s = s.ctx.src_comms.inbox

pub limited-unread :
    (s s' : Sending) → send_progress_marker_limited s ≡ ok s' → unread s' ≡ unread s
unfolding send_progress_marker_limited send_command
limited-unread s s' h = ground arith

pub send_dest-unread : (c : Command) (s s' : Sending) → send_dest c s ≡ ok s' → unread s' ≡ unread s
unfolding send_command
send_dest-unread c s s' h = ground arith

pub responses-unread :
    (times : ProgressMarker → ℕ) (block : Bool) (s s' : Sending)
    → process_dest_responses times block s ≡ ok s'
    → unread s' ≡ unread s
responses-unread times block s s' h =
    let (_, _, src) = process_dest_responses-Kept times block s s' h in ap (λ m. m.inbox) src

pub ok_unread :
    (x s' : Sending) → ◌≡◌ {A = Outcome SyncError Sending} (ok x) (ok s') → unread x ≡ unread s'
ok_unread x s' h = ground arith
