-- ===== src/Driver/Requests.antt =====
-- What the source is told while the plan is performed: one request for each file that is copied.
use rjrssync.Common.{
  if_true, if_false, ℕ, Bool, true, false, List, [], ◌∷◌, ◌++◌, append_assoc, append-nil, Outcome,
  ok, >>=-eq-ok, ◌≡◌, refl, sym, ap, ◌∙◌, arith, Bool-cases, inl, inr,
}
use rjrssync.Comms.{SyncError, send_command}
use rjrssync.Driver.{copy_all, delete_all}
use rjrssync.Interface.{
  EntryDetails, file, folder, symlink, Command, get_file_content, create_folder, create_symlink,
  ProgressMarker, SymlinkKind, SymlinkTarget,
}
use rjrssync.Path.{RootRelativePath}
use rjrssync.Sync.{CopyReason, DeleteReason}
use rjrssync.Transfer.{
  Sending, send_dest, send_progress_marker_limited, unless_dry, with_stats, count_deleted,
  delete_command, delete_dest_entry, copy_entry, copy_file, process_dest_responses,
}
use rjrssync.Transfer.DryRun.{counted_folder, counted_symlink}
use rjrssync.Driver.Copies.{
  Still, Still-trans, limited-Still, responses-Still, copy_content-Reads, copy_entry-Sent,
}

-- What the source is asked for one copy: the contents of a file, but not in a dry run.
abbrev asked_of : Bool → RootRelativePath → EntryDetails → List Command
asked_of true p d = []
asked_of false p (file _ _) = get_file_content p ∷ []
asked_of false p folder = []
asked_of false p (symlink _ _) = []

-- What it is asked for all copies, one after the other.
abbrev pub requests : Bool → List (RootRelativePath × (EntryDetails × CopyReason)) → List Command
requests dry [] = []
requests dry ((p, (d, _)) ∷ items) = asked_of dry p d ++ requests dry items

-- What the source was told.
abbrev pub told_src : Sending → List Command
told_src s = s.ctx.src_comms.outbox

pub send_dest-Still : (c : Command) (s s' : Sending) → send_dest c s ≡ ok s' → Still s s'
unfolding send_command
send_dest-Still c s s' h = ground arith

unless_dry-Still : (c : Command) (s s' : Sending) → unless_dry c s ≡ ok s' → Still s s'
unfolding send_command
unless_dry-Still c s s' h = ground arith

ok-Still : (x s' : Sending) → ◌≡◌ {A = Outcome SyncError Sending} (ok x) (ok s') → Still x s'
ok-Still x s' h = ground arith

delete_dest_entry-Still :
    (p : RootRelativePath) (d : EntryDetails) (s s' : Sending)
    → delete_dest_entry p d s ≡ ok s'
    → Still s s'
unfolding delete_dest_entry
delete_dest_entry-Still p d s s' h =
    let counted : Sending = with_stats (count_deleted d s.ctx.stats) s in
    let (s1, marked, rest) = >>=-eq-ok (send_progress_marker_limited counted) _ h in
    let (s2, told, ended) = >>=-eq-ok (unless_dry (delete_command p d) s1) _ rest in
    let before = limited-Still counted s1 marked in
    let during = unless_dry-Still (delete_command p d) s1 s2 told in
    let after = ok-Still _ s' ended in
    record {
      same_mode = after.same_mode ∙ during.same_mode ∙ before.same_mode;
      src_kept = after.src_kept ∙ during.src_kept ∙ before.src_kept;
    }

-- The deletions tell the source nothing.
pub delete_all-Still :
    (times : ProgressMarker → ℕ) (items : List (RootRelativePath × (EntryDetails × DeleteReason)))
    (s s' : Sending)
    → delete_all times items s ≡ ok s'
    → Still s s'
unfolding delete_all
delete_all-Still times [] s s' h = ok-Still s s' h
delete_all-Still times ((p, (d, reason)) ∷ items) s s' h =
    let (s1, deleted, rest) = >>=-eq-ok (delete_dest_entry p d s) _ h in
    let (s2, processed, more) = >>=-eq-ok (process_dest_responses times false s1) _ rest in
    Still-trans (delete_dest_entry-Still p d s s1 deleted) (
      Still-trans (responses-Still times false s1 s2 processed)
        (delete_all-Still times items s2 s' more))

asked_nothing :
    (dry : Bool) (p : RootRelativePath) (d : EntryDetails) (s s' : Sending)
    → Still s s'
    → asked_of dry p d ≡ []
    → told_src s' ≡ told_src s ++ asked_of dry p d
asked_nothing dry p d s s' still e = rw e (still.src_kept ∙ sym (append-nil (told_src s)))

asked_of_dry :
    (dry : Bool) (p : RootRelativePath) (d : EntryDetails) → dry ≡ true → asked_of dry p d ≡ []
asked_of_dry dry p d e = rw e refl

asked_of_folder : (dry : Bool) (p : RootRelativePath) → asked_of dry p folder ≡ []
asked_of_folder true p = refl
asked_of_folder false p = refl

asked_of_symlink :
    (dry : Bool) (p : RootRelativePath) (kind : SymlinkKind) (target : SymlinkTarget)
    → asked_of dry p (symlink kind target) ≡ []
asked_of_symlink true p kind target = refl
asked_of_symlink false p kind target = refl

module _ (times : ProgressMarker → ℕ) (log10 : ℕ → ℕ) where
  copy_file_dry_asked :
      (p : RootRelativePath) (modified_time size : ℕ) (s s' : Sending)
      → s.ctx.dry_run ≡ true
      → copy_file times log10 p size modified_time s ≡ ok s'
      → told_src s' ≡ told_src s
  unfolding copy_file
  copy_file_dry_asked p modified_time size s s' dry h =
      let (s1, marked, rest) = >>=-eq-ok (send_progress_marker_limited s) _ h in
      let (s2, chosen, ended) = >>=-eq-ok _ _ rest in
      let before = limited-Still s s1 marked in
      let same = sym (if_true _ _ (before.same_mode ∙ dry)) ∙ chosen in
      let during : told_src s2 ≡ told_src s1 = ground arith in
      let after : told_src s' ≡ told_src s2 = ground arith in after ∙ during ∙ before.src_kept

  copy_file_wet_asked :
      (p : RootRelativePath) (modified_time size : ℕ) (s s' : Sending)
      → s.ctx.dry_run ≡ false
      → copy_file times log10 p size modified_time s ≡ ok s'
      → told_src s' ≡ told_src s ++ get_file_content p ∷ []
  unfolding copy_file
  copy_file_wet_asked p modified_time size s s' wet h =
      let (s1, marked, rest) = >>=-eq-ok (send_progress_marker_limited s) _ h in
      let (s2, chosen, ended) = >>=-eq-ok _ _ rest in
      let before = limited-Still s s1 marked in
      let during =
        copy_content-Reads times p size modified_time s1 s2
          (sym (if_false _ _ (before.same_mode ∙ wet)) ∙ chosen) in
      let after : Still s2 s' = ground arith in
      after.src_kept ∙ during.asked ∙ ap (λ l. l ++ get_file_content p ∷ []) before.src_kept

  copy_file-asked :
      (p : RootRelativePath) (modified_time size : ℕ) (s s' : Sending)
      → copy_file times log10 p size modified_time s ≡ ok s'
      → told_src s' ≡ told_src s ++ asked_of s.ctx.dry_run p (file modified_time size)
  copy_file-asked p modified_time size s s' h = elim (Bool-cases s.ctx.dry_run) [
    | inl dry ↦
        copy_file_dry_asked p modified_time size s s' dry h
        ∙ sym (append-nil (told_src s))
        ∙ ap (λ b. told_src s ++ asked_of b p (file modified_time size)) (sym dry)
    | inr wet ↦
        copy_file_wet_asked p modified_time size s s' wet h
        ∙ ap (λ b. told_src s ++ asked_of b p (file modified_time size)) (sym wet)
  ]

  copy_entry-asked :
      (p : RootRelativePath) (d : EntryDetails) (s s' : Sending)
      → copy_entry times log10 p d s ≡ ok s'
      → told_src s' ≡ told_src s ++ asked_of s.ctx.dry_run p d
  unfolding copy_entry
  copy_entry-asked p (file modified_time size) s s' h = copy_file-asked p modified_time size s s' h
  copy_entry-asked p folder s s' h =
      let (s1, marked, rest) = >>=-eq-ok (send_progress_marker_limited s) _ h in
      let (s2, created, ended) =
        >>=-eq-ok (unless_dry (create_folder p) (counted_folder s1)) _ rest in
      let told = unless_dry-Still (create_folder p) (counted_folder s1) s2 created in
      rw (asked_of_folder s.ctx.dry_run p) (
        (ok-Still _ s' ended).src_kept
        ∙ told.src_kept
        ∙ (limited-Still s s1 marked).src_kept
        ∙ sym (append-nil (told_src s)))
  copy_entry-asked p (symlink kind target) s s' h =
      let (s1, marked, rest) = >>=-eq-ok (send_progress_marker_limited s) _ h in
      let (s2, created, ended) =
        >>=-eq-ok (unless_dry (create_symlink p kind target) (counted_symlink s1)) _ rest in
      let told = unless_dry-Still (create_symlink p kind target) (counted_symlink s1) s2 created in
      rw (asked_of_symlink s.ctx.dry_run p kind target) (
        (ok-Still _ s' ended).src_kept
        ∙ told.src_kept
        ∙ (limited-Still s s1 marked).src_kept
        ∙ sym (append-nil (told_src s)))

  -- The loop over the copies asks the source once for the contents of each file.
  pub copy_all-requests :
      (items : List (RootRelativePath × (EntryDetails × CopyReason))) (s s' : Sending)
      → copy_all times log10 items s ≡ ok s'
      → told_src s' ≡ told_src s ++ requests s.ctx.dry_run items
  unfolding copy_all
  copy_all-requests [] s s' h = (ok-Still s s' h).src_kept ∙ sym (append-nil (told_src s))
  copy_all-requests ((p, (d, reason)) ∷ items) s s' h =
      let (s1, copied, rest) = >>=-eq-ok (copy_entry times log10 p d s) _ h in
      let (s2, processed, more) = >>=-eq-ok (process_dest_responses times false s1) _ rest in
      let first = copy_entry-asked p d s s1 copied in
      let between = responses-Still times false s1 s2 processed in
      let mode : s2.ctx.dry_run ≡ s.ctx.dry_run =
        between.same_mode ∙ (copy_entry-Sent times log10 p d s s1 copied).passes.same_mode in
      copy_all-requests items s2 s' more
      ∙ ap (λ l. l ++ requests s2.ctx.dry_run items) (between.src_kept ∙ first)
      ∙ append_assoc (told_src s) (asked_of s.ctx.dry_run p d) (requests s2.ctx.dry_run items)
      ∙ ap (λ b. told_src s ++ (asked_of s.ctx.dry_run p d ++ requests b items)) mode
