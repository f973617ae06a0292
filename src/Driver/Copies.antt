-- ===== src/Driver/Copies.antt =====
-- The loop over the copies: what it tells the destination, entry by entry.
use rjrssync.Common.{
  if_true, if_false, ℕ, Bool, true, false, List, [], ◌∷◌, ◌++◌, ok, >>=-eq-ok, ◌≡◌, refl, sym, ap,
  ◌∙◌, arith, Bool-cases, inl, inr, ltb, length, add_u64,
}
use rjrssync.Comms.{send_command}
use rjrssync.Driver.{copy_all, delete_all}
use rjrssync.Driver.Performs.{
  reads, Passes, Passes-trans, silent, responses-Passes, Tells, Tells-trans, limited-Tells, unless,
  unless_dry-Tells, around-Tells, told_as,
}
use rjrssync.Transfer.Outbox.{without_markers, unread, ok_unread, limited-unread, responses-unread}
use rjrssync.Driver.Sends.{Extends-one, send_command-outbox}
use rjrssync.Interface.{
  EntryDetails, file, folder, symlink, Command, get_file_content, create_folder, create_symlink,
  ProgressMarker, Response, file_content, SymlinkKind, SymlinkTarget,
}
use rjrssync.Path.{RootRelativePath}
use rjrssync.Progress.{copy_sent_partial}
use rjrssync.Sync.{CopyReason, DeleteReason}
use rjrssync.Transfer.{
  Sending, send_dest, send_progress_marker_limited, unless_dry, with_stats, count_deleted,
  delete_command, delete_dest_entry, copy_entry, copy_file, copy_content, copy_chunks,
  forward_chunk, with_src_inbox, process_dest_responses,
}
use rjrssync.Transfer.DryRun.{counted_folder, counted_symlink}
use rjrssync.Transfer.Outbox.{process_dest_responses-Kept}
use rjrssync.Transfer.Sizes.{written, contents, Taken, copy_file-written}

-- Copying a file reads it from the source once, and tells the source nothing else.
pub record Reads (p : RootRelativePath) (s s' : Sending) : Type 0 where
  pub same_mode : s'.ctx.dry_run ≡ s.ctx.dry_run
  pub asked : s'.ctx.src_comms.outbox ≡ s.ctx.src_comms.outbox ++ get_file_content p ∷ []

-- The steps of the loop over the chunks.
pub record Still (s s' : Sending) : Type 0 where
  pub same_mode : s'.ctx.dry_run ≡ s.ctx.dry_run
  pub src_kept : s'.ctx.src_comms.outbox ≡ s.ctx.src_comms.outbox

pub Still-trans : {a b c : Sending} → Still a b → Still b c → Still a c
Still-trans x y = record {
  same_mode = y.same_mode ∙ x.same_mode;
  src_kept = y.src_kept ∙ x.src_kept;
}

pub limited-Still : (s s' : Sending) → send_progress_marker_limited s ≡ ok s' → Still s s'
unfolding send_progress_marker_limited send_command
limited-Still s s' h = ground arith

module _ (times : ProgressMarker → ℕ) where
  pub responses-Still :
      (block : Bool) (s s' : Sending) → process_dest_responses times block s ≡ ok s' → Still s s'
  responses-Still block s s' h =
      let (_, mode, src) = process_dest_responses-Kept times block s s' h in
      record { same_mode = mode; src_kept = ap (λ m. m.outbox) src }

  forward_chunk-Still :
      (p : RootRelativePath) (size modified_time offset : ℕ) (bytes : List ℕ) (more : Bool)
      (s s' : Sending)
      → forward_chunk times p size modified_time offset bytes more s ≡ ok s'
      → Still s s'
  unfolding forward_chunk send_command
  forward_chunk-Still p size modified_time offset bytes more s s' h =
      let (s1, sent, rest) = >>=-eq-ok (send_dest _ s) _ h in
      let first : Still s s1 = ground arith in
      let second =
        responses-Still false
          (record s1 { progress = copy_sent_partial offset (length bytes) size s1.progress }) s'
          rest in
      record {
        same_mode = second.same_mode ∙ first.same_mode;
        src_kept = second.src_kept ∙ first.src_kept;
      }

  copy_chunks-Still :
      (p : RootRelativePath) (size modified_time : ℕ) (inbox : List Response) (offset offset' : ℕ)
      (s s' : Sending)
      → copy_chunks times p size modified_time inbox offset s ≡ ok (offset', s')
      → Still s s'
  unfolding copy_chunks
  copy_chunks-Still p size modified_time [] offset offset' s s' h =
      let (s1, marked, ended) = >>=-eq-ok (send_progress_marker_limited s) _ h in ground arith
  copy_chunks-Still p size modified_time (file_content bytes more ∷ rest) offset offset' s s' h =
      let (s1, marked, taken) = >>=-eq-ok (send_progress_marker_limited s) _ h in
      let first : Still s (with_src_inbox rest s1) =
        Still-trans (limited-Still s s1 marked) (record { same_mode = refl; src_kept = refl }) in
      let next = add_u64 offset (length bytes) in
      elim (Bool-cases (ltb size next)) [
        | inl over ↦ Still-trans first (ground arith)
        | inr fits ↦
            (let (s2, forwarded, ended) = >>=-eq-ok _ _ (sym (if_false _ _ fits) ∙ taken) in
              let second =
                forward_chunk-Still p size modified_time offset bytes more _ s2 forwarded in
              Still-trans first (
                Still-trans second (elim (Bool-cases more) [
                  | inl going ↦
                      copy_chunks-Still p size modified_time rest next offset' s2 s'
                        (sym (if_true _ _ going) ∙ ended)
                  | inr last ↦ (let e = sym (if_false _ _ last) ∙ ended in ground arith)
                ])))
      ]
  copy_chunks-Still p size modified_time (r ∷ rest) offset offset' s s' h =
      let (s1, marked, ended) = >>=-eq-ok (send_progress_marker_limited s) _ h in ground arith

  pub copy_content-Reads :
      (p : RootRelativePath) (size modified_time : ℕ) (s s' : Sending)
      → copy_content times p size modified_time s ≡ ok s'
      → Reads p s s'
  unfolding copy_content
  copy_content-Reads p size modified_time s s' h =
      let (m, asked, rest) = >>=-eq-ok (send_command (get_file_content p) s.ctx.src_comms) _ h in
      let ((offset, s1), copied, checked) =
        >>=-eq-ok (copy_chunks times p size modified_time m.inbox 0 _) _ rest in
      let still = copy_chunks-Still p size modified_time m.inbox 0 offset _ s1 copied in
      let same : Still s1 s' = ground arith in
      record {
        same_mode = same.same_mode ∙ still.same_mode;
        asked =
            same.src_kept
            ∙ still.src_kept
            ∙ send_command-outbox (get_file_content p) s.ctx.src_comms m asked;
      }

-- What the destination is told of one copy: in a dry run nothing but progress markers; else the entry,
-- or just the contents that were taken for the file from what the source sent, which come to its size.
-- The lists are the responses of the source before and after.
abbrev pub Copied :
    Bool → RootRelativePath → EntryDetails → List Response → List Response → List Command → Type 0
Copied true p d inbox left sent = (without_markers sent ≡ []) × (left ≡ inbox)
Copied false p (file modified_time size) inbox left sent =
    (read : List Response) × (without_markers sent ≡ contents p modified_time read)
    × (written 0 sent ≡ size)
    × Taken size size read inbox left
Copied false p folder inbox left sent =
    (without_markers sent ≡ create_folder p ∷ []) × (left ≡ inbox)
Copied false p (symlink kind target) inbox left sent =
    (without_markers sent ≡ create_symlink p kind target ∷ []) × (left ≡ inbox)

-- What it is told of all copies, one after the other.
abbrev pub CopiedAll :
    Bool
    → List (RootRelativePath × (EntryDetails × CopyReason))
    → List Response
    → List Response
    → List Command
    → Type 0
CopiedAll dry [] inbox left sent = (sent ≡ []) × (left ≡ inbox)
CopiedAll dry ((p, (d, _)) ∷ items) inbox left sent =
    (first : List Command) × (rest : List Command) × (between : List Response) × (sent
      ≡ first ++ rest)
    × Copied dry p d inbox between first
    × CopiedAll dry items between left rest

-- The sent commands, with what is said of them.
pub record Sent (said : List Command → Type 0) (s s' : Sending) : Type 0 where
  pub sent : List Command
  pub passes : Passes sent s s'
  pub is_said : said sent

Tells-Sent :
    (dry : Bool) (p : RootRelativePath) (d : EntryDetails) (c : Command) {s s' : Sending}
    → ((sent : List Command)
        → without_markers sent ≡ unless dry c
        → Copied dry p d (unread s) (unread s') sent)
    → Tells (unless dry c) s s'
    → Sent (Copied dry p d (unread s) (unread s')) s s'
Tells-Sent dry p d c say x = record {
  sent = x.sent;
  passes = x.passes;
  is_said = say x.sent x.told;
}

Copied-folder :
    (dry : Bool) (p : RootRelativePath) (inbox left : List Response)
    → left ≡ inbox
    → (sent : List Command) → without_markers sent ≡ unless dry (create_folder p)
    → Copied dry p folder inbox left sent
Copied-folder true p inbox left e sent h = (h, e)
Copied-folder false p inbox left e sent h = (h, e)

Copied-symlink :
    (dry : Bool) (p : RootRelativePath) (kind : SymlinkKind) (target : SymlinkTarget)
    (inbox left : List Response)
    → left ≡ inbox
    → (sent : List Command) → without_markers sent ≡ unless dry (create_symlink p kind target)
    → Copied dry p (symlink kind target) inbox left sent
Copied-symlink true p kind target inbox left e sent h = (h, e)
Copied-symlink false p kind target inbox left e sent h = (h, e)

Copied-dry :
    (dry : Bool) (p : RootRelativePath) (d : EntryDetails) (inbox left : List Response)
    (sent : List Command)
    → dry ≡ true
    → left ≡ inbox
    → without_markers sent ≡ []
    → Copied dry p d inbox left sent
Copied-dry true p d inbox left sent e l h = (h, l)
Copied-dry false p d inbox left sent e l h = cc

Copied-file :
    (dry : Bool) (p : RootRelativePath) (modified_time size : ℕ) (inbox left : List Response)
    (sent : List Command)
    → dry ≡ false
    → Copied false p (file modified_time size) inbox left sent
    → Copied dry p (file modified_time size) inbox left sent
Copied-file true p modified_time size inbox left sent e x = absurd cc
Copied-file false p modified_time size inbox left sent e x = x

reads_file :
    (dry : Bool) (p : RootRelativePath) → dry ≡ false → reads dry (get_file_content p) ≡ true
reads_file dry p h = rw h refl

unless_dry-unread : (c : Command) (s s' : Sending) → unless_dry c s ≡ ok s' → unread s' ≡ unread s
unfolding send_command
unless_dry-unread c s s' h = ground arith

delete_dest_entry-unread :
    (p : RootRelativePath) (d : EntryDetails) (s s' : Sending)
    → delete_dest_entry p d s ≡ ok s'
    → unread s' ≡ unread s
unfolding delete_dest_entry
delete_dest_entry-unread p d s s' h =
    let counted : Sending = with_stats (count_deleted d s.ctx.stats) s in
    let (s1, marked, rest) = >>=-eq-ok (send_progress_marker_limited counted) _ h in
    let (s2, told, ended) = >>=-eq-ok (unless_dry (delete_command p d) s1) _ rest in
    sym (ok_unread _ s' ended)
    ∙ unless_dry-unread (delete_command p d) s1 s2 told
    ∙ limited-unread counted s1 marked

-- The deletions leave alone what the source has sent.
pub delete_all-unread :
    (times : ProgressMarker → ℕ) (items : List (RootRelativePath × (EntryDetails × DeleteReason)))
    (s s' : Sending)
    → delete_all times items s ≡ ok s'
    → unread s' ≡ unread s
unfolding delete_all
delete_all-unread times [] s s' h = sym (ok_unread s s' h)
delete_all-unread times ((p, (d, reason)) ∷ items) s s' h =
    let (s1, deleted, rest) = >>=-eq-ok (delete_dest_entry p d s) _ h in
    let (s2, processed, more) = >>=-eq-ok (process_dest_responses times false s1) _ rest in
    delete_all-unread times items s2 s' more
    ∙ responses-unread times false s1 s2 processed
    ∙ delete_dest_entry-unread p d s s1 deleted

module _ (times : ProgressMarker → ℕ) (log10 : ℕ → ℕ) where
  copy_file_dry :
      (p : RootRelativePath) (modified_time size : ℕ) (s s' : Sending)
      → s.ctx.dry_run ≡ true
      → copy_file times log10 p size modified_time s ≡ ok s'
      → Sent (Copied s.ctx.dry_run p (file modified_time size) (unread s) (unread s')) s s'
  unfolding copy_file
  copy_file_dry p modified_time size s s' dry h =
      let (s1, marked, rest) = >>=-eq-ok (send_progress_marker_limited s) _ h in
      let (s2, chosen, ended) = >>=-eq-ok _ _ rest in
      let before = limited-Tells s s1 marked in
      let same = sym (if_true _ _ (before.passes.same_mode ∙ dry)) ∙ chosen in
      let kept : unread s' ≡ unread s =
        sym (ok_unread _ s' ended) ∙ sym (ok_unread _ s2 same) ∙ limited-unread s s1 marked in
      let after =
        around-Tells {b = s} {c = s1} {d = s'} refl refl refl before (ground arith) (ground arith)
          (ground arith) in
      record {
        sent = after.sent;
        passes = after.passes;
        is_said =
            Copied-dry s.ctx.dry_run p (file modified_time size) (unread s) (unread s') after.sent
              dry kept after.told;
      }

  copy_file_wet :
      (p : RootRelativePath) (modified_time size : ℕ) (s s' : Sending)
      → s.ctx.dry_run ≡ false
      → copy_file times log10 p size modified_time s ≡ ok s'
      → Sent (Copied s.ctx.dry_run p (file modified_time size) (unread s) (unread s')) s s'
  unfolding copy_file
  copy_file_wet p modified_time size s s' wet h =
      let (sent, read, appended, whole, forwarded, taken) =
        copy_file-written times log10 p size modified_time s s' wet h in
      let (s1, marked, rest) = >>=-eq-ok (send_progress_marker_limited s) _ h in
      let (s2, chosen, ended) = >>=-eq-ok _ _ rest in
      let before = limited-Still s s1 marked in
      let during =
        copy_content-Reads times p size modified_time s1 s2
          (sym (if_false _ _ (before.same_mode ∙ wet)) ∙ chosen) in
      let same : Still s2 s' = ground arith in
      record {
        sent = sent;
        passes = record {
          appended = appended;
          same_mode = same.same_mode ∙ during.same_mode ∙ before.same_mode;
          src_read =
              Extends-one _ (get_file_content p) s.ctx.src_comms s'.ctx.src_comms
                (reads_file s.ctx.dry_run p wet)
                (same.src_kept
                  ∙ during.asked
                  ∙ ap (λ l. l ++ get_file_content p ∷ []) before.src_kept);
        };
        is_said =
            Copied-file s.ctx.dry_run p modified_time size (unread s) (unread s') sent wet
              (read, forwarded, whole, taken);
      }

  copy_file-Sent :
      (p : RootRelativePath) (modified_time size : ℕ) (s s' : Sending)
      → copy_file times log10 p size modified_time s ≡ ok s'
      → Sent (Copied s.ctx.dry_run p (file modified_time size) (unread s) (unread s')) s s'
  copy_file-Sent p modified_time size s s' h = elim (Bool-cases s.ctx.dry_run) [
    | inl dry ↦ copy_file_dry p modified_time size s s' dry h
    | inr wet ↦ copy_file_wet p modified_time size s s' wet h
  ]

  pub copy_entry-Sent :
      (p : RootRelativePath) (d : EntryDetails) (s s' : Sending)
      → copy_entry times log10 p d s ≡ ok s'
      → Sent (Copied s.ctx.dry_run p d (unread s) (unread s')) s s'
  unfolding copy_entry
  copy_entry-Sent p (file modified_time size) s s' h = copy_file-Sent p modified_time size s s' h
  copy_entry-Sent p folder s s' h =
      let (s1, marked, rest) = >>=-eq-ok (send_progress_marker_limited s) _ h in
      let before = limited-Tells s s1 marked in
      let (s2, created, ended) =
        >>=-eq-ok (unless_dry (create_folder p) (counted_folder s1)) _ rest in
      let kept : unread s' ≡ unread s =
        sym (ok_unread _ s' ended)
        ∙ unless_dry-unread (create_folder p) (counted_folder s1) s2 created
        ∙ limited-unread s s1 marked in
      Tells-Sent s.ctx.dry_run p folder (create_folder p)
        (Copied-folder s.ctx.dry_run p (unread s) (unread s') kept)
        (Tells-trans {xs = []} before (
          told_as (ap (λ b. unless b (create_folder p)) before.passes.same_mode) (
            around-Tells {b = counted_folder s1} {c = s2} refl refl refl
              (unless_dry-Tells (create_folder p) (counted_folder s1) s2 refl created)
              (ground arith) (ground arith) (ground arith))))
  copy_entry-Sent p (symlink kind target) s s' h =
      let (s1, marked, rest) = >>=-eq-ok (send_progress_marker_limited s) _ h in
      let before = limited-Tells s s1 marked in
      let (s2, created, ended) =
        >>=-eq-ok (unless_dry (create_symlink p kind target) (counted_symlink s1)) _ rest in
      let kept : unread s' ≡ unread s =
        sym (ok_unread _ s' ended)
        ∙ unless_dry-unread (create_symlink p kind target) (counted_symlink s1) s2 created
        ∙ limited-unread s s1 marked in
      Tells-Sent s.ctx.dry_run p (symlink kind target) (create_symlink p kind target)
        (Copied-symlink s.ctx.dry_run p kind target (unread s) (unread s') kept)
        (Tells-trans {xs = []} before (
          told_as (ap (λ b. unless b (create_symlink p kind target)) before.passes.same_mode) (
            around-Tells {b = counted_symlink s1} {c = s2} refl refl refl
              (unless_dry-Tells (create_symlink p kind target) (counted_symlink s1) s2 refl created)
              (ground arith) (ground arith) (ground arith))))

  pub CopiedAll-mode :
      (dry dry' : Bool) (items : List (RootRelativePath × (EntryDetails × CopyReason)))
      (inbox left : List Response) (sent : List Command)
      → dry ≡ dry'
      → CopiedAll dry items inbox left sent
      → CopiedAll dry' items inbox left sent
  CopiedAll-mode dry dry' items inbox left sent e x = rw e at x

  -- The loop over the copies tells the destination each of them, in their order.
  pub copy_all-CopiedAll :
      (items : List (RootRelativePath × (EntryDetails × CopyReason))) (s s' : Sending)
      → copy_all times log10 items s ≡ ok s'
      → (sent : List Command) × Passes sent s s'
        × CopiedAll s.ctx.dry_run items (unread s) (unread s') sent
  unfolding copy_all
  copy_all-CopiedAll [] s s' h =
      ([], silent (ground arith) (ground arith) (ground arith), (refl, sym (ok_unread s s' h)))
  copy_all-CopiedAll ((p, (d, reason)) ∷ items) s s' h =
      let (s1, copied, rest) = >>=-eq-ok (copy_entry times log10 p d s) _ h in
      let (s2, processed, more) = >>=-eq-ok (process_dest_responses times false s1) _ rest in
      let first = copy_entry-Sent p d s s1 copied in
      let second = responses-Passes times false s1 s2 processed in
      let (sent, passes, said) = copy_all-CopiedAll items s2 s' more in
      (
        first.sent ++ sent,
        Passes-trans first.passes (Passes-trans {xs = []} second passes),
        (
          first.sent,
          sent,
          unread s1,
          refl,
          first.is_said,
          CopiedAll-mode s2.ctx.dry_run s.ctx.dry_run items (unread s1) (unread s') sent
              (second.same_mode ∙ first.passes.same_mode)
              (rw (responses-unread times false s1 s2 processed) at said),
        ),
      )
