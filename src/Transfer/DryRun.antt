-- ===== src/Transfer/DryRun.antt =====
-- A dry run touches neither side.
use rjrssync.Common.{
  ℕ, true, Option, none, some, List, [], ◌∷◌, ◌++◌, append-nil, ok, ◌>>=◌, add_u32, ◌≡◌, refl,
  arith, ◌∙◌,
}
use rjrssync.Comms.{send_command}
use rjrssync.Interface.{EntryDetails, file, folder, symlink, Command, marker, ProgressMarker}
use rjrssync.Path.{RootRelativePath}
use rjrssync.Progress.{get_progress_marker_limited, delete_sent, copy_sent, copy_sent_partial}
use rjrssync.Transfer.{
  count_deleted, count_copied, with_stats, Sending, send_marker, send_progress_marker_limited,
  delete_dest_entry, copy_file, copy_entry,
}

abbrev pub AllMarkers : List Command → Type 0
AllMarkers [] = Unit
AllMarkers (c ∷ cs) = ((m : ProgressMarker) × (c ≡ marker m)) × AllMarkers cs

-- From the first state to the second only markers were sent to the destination, and nothing to the
-- source.
abbrev pub Untouched : Sending → Sending → Type 0
Untouched s s' =
    (s'.ctx.src_comms ≡ s.ctx.src_comms)
    × (sent : List Command) × (s'.ctx.dest_comms.outbox ≡ s.ctx.dest_comms.outbox ++ sent)
    × AllMarkers sent

send_marker-Untouched :
    (o : Option ProgressMarker) (s : Sending)
    → s.ctx.dest_comms.sends ≡ true
    → (s' : Sending) × (send_marker o s ≡ ok s') × Untouched s s' × (s'.ctx.dry_run ≡ s.ctx.dry_run)
unfolding send_command
send_marker-Untouched none s h = (s, refl, (refl, [], rw append-nil refl, tt), refl)
send_marker-Untouched (some m) s h = (
  record s {
    ctx = record (s.ctx) {
      dest_comms = record (s.ctx.dest_comms) { outbox = s.ctx.dest_comms.outbox ++ marker m ∷ [] };
    };
  },
  rw (h, ◌>>=◌) refl,
  (refl, marker m ∷ [], refl, ((m, refl), tt)),
  refl,
)

send_progress_marker_limited-Untouched :
    (s : Sending)
    → s.ctx.dest_comms.sends ≡ true
    → (s' : Sending) × (send_progress_marker_limited s ≡ ok s')
      × Untouched s s'
      × (s'.ctx.dry_run ≡ s.ctx.dry_run)
unfolding send_progress_marker_limited
send_progress_marker_limited-Untouched s h =
    send_marker-Untouched (get_progress_marker_limited s.progress).0
      (record s { progress = (get_progress_marker_limited s.progress).1 }) h

-- In a dry run, while the destination doer takes commands, `delete_dest_entry` returns, and sends
-- nothing but progress markers.
pub delete_dest_entry-Untouched :
    (path : RootRelativePath) (d : EntryDetails) (s : Sending)
    → s.ctx.dry_run ≡ true
    → s.ctx.dest_comms.sends ≡ true
    → (s' : Sending) × (delete_dest_entry path d s ≡ ok s') × Untouched s s'
unfolding delete_dest_entry
delete_dest_entry-Untouched path d s dry sends =
    let (s1, marked, untouched, same) =
      send_progress_marker_limited-Untouched (with_stats (count_deleted d s.ctx.stats) s) sends in
    (
      record s1 { progress = delete_sent d s1.progress },
      rw (marked, ◌>>=◌) (rw (same ∙ dry, ◌>>=◌) refl),
      untouched,
    )

abbrev pub counted_folder : Sending → Sending
counted_folder s =
    with_stats
      (record (s.ctx.stats) { num_folders_created = add_u32 s.ctx.stats.num_folders_created 1 }) s

abbrev pub counted_symlink : Sending → Sending
counted_symlink s =
    with_stats
      (record (s.ctx.stats) { num_symlinks_copied = add_u32 s.ctx.stats.num_symlinks_copied 1 }) s

-- In a dry run, while the destination doer takes commands, `copy_entry` returns, and sends nothing
-- but progress markers.
pub copy_entry-Untouched :
    (times : ProgressMarker → ℕ) (log10 : ℕ → ℕ) (path : RootRelativePath) (d : EntryDetails)
    (s : Sending)
    → s.ctx.dry_run ≡ true
    → s.ctx.dest_comms.sends ≡ true
    → (s' : Sending) × (copy_entry times log10 path d s ≡ ok s') × Untouched s s'
unfolding copy_entry copy_file
copy_entry-Untouched times log10 path (file modified_time size) s dry sends =
    let (s1, marked, untouched, same) = send_progress_marker_limited-Untouched s sends in
    let s2 : Sending = record s1 { progress = copy_sent_partial 0 size size s1.progress } in
    (
      with_stats (count_copied log10 size s2.ctx.stats) s2,
      rw (marked, ◌>>=◌) (ground (arith, same ∙ dry)),
      untouched,
    )
copy_entry-Untouched times log10 path folder s dry sends =
    let (s1, marked, untouched, same) = send_progress_marker_limited-Untouched s sends in
    (
      record (counted_folder s1) { progress = copy_sent folder s1.progress },
      rw (marked, ◌>>=◌) (rw (same ∙ dry, ◌>>=◌) refl),
      untouched,
    )
copy_entry-Untouched times log10 path (symlink kind target) s dry sends =
    let (s1, marked, untouched, same) = send_progress_marker_limited-Untouched s sends in
    (
      record (counted_symlink s1) { progress = copy_sent (symlink kind target) s1.progress },
      rw (marked, ◌>>=◌) (rw (same ∙ dry, ◌>>=◌) refl),
      untouched,
    )
