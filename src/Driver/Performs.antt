-- ===== src/Driver/Performs.antt =====
-- The deletions and the copies: what the destination is told is the confirmed plan.
use rjrssync.Common.{
  ℕ, Bool, true, false, not, Option, none, some, List, [], ◌∷◌, ◌++◌, append_assoc, append-nil, ok,
  >>=-eq-ok, if◌then◌else◌, ◌≡◌, refl, sym, ap, ◌∙◌, arith, Bool-cases, inl, inr,
}
use rjrssync.Comms.{send_command}
use rjrssync.Driver.{delete_all}
use rjrssync.Driver.Sends.{Extends, Extends-none, Extends-trans}
use rjrssync.Interface.{
  EntryDetails, file, folder, symlink, Command, marker, get_file_content, ProgressMarker,
}
use rjrssync.Path.{RootRelativePath}
use rjrssync.Progress.{get_progress_marker_limited}
use rjrssync.Sync.{DeleteReason}
use rjrssync.Transfer.{
  Sending, send_dest, send_marker, send_progress_marker_limited, unless_dry, with_stats,
  delete_command, delete_dest_entry, process_dest_responses, count_deleted,
}
use rjrssync.Transfer.Outbox.{
  without_markers, without_markers-append, outbox, process_dest_responses-Kept,
}

-- A side that is read is asked for contents, but not in a dry run.
abbrev pub reads : Bool → Command → Bool
reads dry (get_file_content _) = not dry
reads dry _ = false

-- From the first state to the second the destination was sent the commands, and the source was only
-- read.
pub record Passes (sent : List Command) (s s' : Sending) : Type 0 where
  pub appended : outbox s' ≡ outbox s ++ sent
  pub same_mode : s'.ctx.dry_run ≡ s.ctx.dry_run
  pub src_read : Extends (reads s.ctx.dry_run) s.ctx.src_comms s'.ctx.src_comms

pub Passes-trans :
    {xs ys : List Command} {a b c : Sending} → Passes xs a b → Passes ys b c → Passes (xs ++ ys) a c
Passes-trans {xs} {ys} {a} {b} {c} x y = record {
  appended = y.appended ∙ rw x.appended (append_assoc (outbox a) xs ys);
  same_mode = y.same_mode ∙ x.same_mode;
  src_read = Extends-trans _ x.src_read (rw (sym x.same_mode) y.src_read);
}

pub silent :
    {s s' : Sending}
    → outbox s' ≡ outbox s
    → s'.ctx.dry_run ≡ s.ctx.dry_run
    → s'.ctx.src_comms ≡ s.ctx.src_comms
    → Passes [] s s'
silent {s} {s'} sent mode src = record {
  appended = sent ∙ sym (append-nil (outbox s));
  same_mode = mode;
  src_read = Extends-none _ s.ctx.src_comms s'.ctx.src_comms (ap (λ m. m.outbox) src);
}

pub send_dest-Passes : (c : Command) (s s' : Sending) → send_dest c s ≡ ok s' → Passes (c ∷ []) s s'
unfolding send_command
send_dest-Passes c s s' h = record {
  appended = ground arith;
  same_mode = ground arith;
  src_read = Extends-none _ s.ctx.src_comms s'.ctx.src_comms (ground arith);
}

module _ (times : ProgressMarker → ℕ) where
  pub responses-Passes :
      (block : Bool) (s s' : Sending)
      → process_dest_responses times block s ≡ ok s'
      → Passes [] s s'
  responses-Passes block s s' h =
      let (sent, mode, src) = process_dest_responses-Kept times block s s' h in silent sent mode src

-- Only the commands, among progress markers, were sent.
pub record Tells (commands : List Command) (s s' : Sending) : Type 0 where
  pub sent : List Command
  pub passes : Passes sent s s'
  pub told : without_markers sent ≡ commands

pub Tells-trans :
    {xs ys : List Command} {a b c : Sending} → Tells xs a b → Tells ys b c → Tells (xs ++ ys) a c
Tells-trans x y = record {
  sent = x.sent ++ y.sent;
  passes = Passes-trans x.passes y.passes;
  told = without_markers-append x.sent y.sent ∙ rw (x.told, y.told) refl;
}

pub Passes-Tells : {s s' : Sending} → Passes [] s s' → Tells [] s s'
Passes-Tells p = record { sent = []; passes = p; told = refl }

send_marker-Tells :
    (o : Option ProgressMarker) (s s' : Sending) → send_marker o s ≡ ok s' → Tells [] s s'
send_marker-Tells none s s' h = Passes-Tells (silent (ground arith) (ground arith) (ground arith))
send_marker-Tells (some m) s s' h = record {
  sent = marker m ∷ [];
  passes = send_dest-Passes (marker m) s s' h;
  told = refl;
}

pub limited-Tells : (s s' : Sending) → send_progress_marker_limited s ≡ ok s' → Tells [] s s'
unfolding send_progress_marker_limited
limited-Tells s s' h =
    let x =
      send_marker-Tells (get_progress_marker_limited s.progress).0
        (record s { progress = (get_progress_marker_limited s.progress).1 }) s' h in
    record {
      sent = x.sent;
      passes = record {
        appended = x.passes.appended;
        same_mode = x.passes.same_mode;
        src_read = x.passes.src_read;
      };
      told = x.told;
    }

-- What a command that a dry run leaves out comes to.
abbrev pub unless : Bool → Command → List Command
unless dry c = if dry then [] else c ∷ []

pub told_as : {xs ys : List Command} {s s' : Sending} → xs ≡ ys → Tells xs s s' → Tells ys s s'
told_as e x = record { sent = x.sent; passes = x.passes; told = x.told ∙ e }

unless-true : (b : Bool) (c : Command) → b ≡ true → [] ≡ unless b c
unless-true b c h = rw h refl

unless-false : (b : Bool) (c : Command) → b ≡ false → c ∷ [] ≡ unless b c
unless-false b c h = rw h refl

pub unless_dry-Tells :
    (c : Command) (s s' : Sending)
    → without_markers (c ∷ []) ≡ c ∷ []
    → unless_dry c s ≡ ok s'
    → Tells (unless s.ctx.dry_run c) s s'
unless_dry-Tells c s s' plain h = elim (Bool-cases s.ctx.dry_run) [
  | inl dry ↦
      told_as (unless-true _ c dry)
        (Passes-Tells (silent (ground arith) (ground arith) (ground arith)))
  | inr wet ↦
      told_as (unless-false _ c wet)
        (record { sent = c ∷ []; passes = send_dest-Passes c s s' (ground arith); told = plain })
]

-- A change of the statistics or of the progress.
pub around-Tells :
    {xs : List Command} {a b c d : Sending}
    → a.ctx.dest_comms ≡ b.ctx.dest_comms
    → a.ctx.src_comms ≡ b.ctx.src_comms
    → a.ctx.dry_run ≡ b.ctx.dry_run
    → Tells xs b c
    → d.ctx.dest_comms ≡ c.ctx.dest_comms
    → d.ctx.src_comms ≡ c.ctx.src_comms
    → d.ctx.dry_run ≡ c.ctx.dry_run
    → Tells xs a d
around-Tells {xs} {a} {b} {c} {d} dest src mode x dest' src' mode' =
    Tells-trans {xs = []}
      (Passes-Tells (silent {s' = b} (ap (λ m. m.outbox) (sym dest)) (sym mode) (sym src)))
      (told_as (append-nil xs)
        (Tells-trans x (Passes-Tells (silent {s' = d} (ap (λ m. m.outbox) dest') mode' src'))))

delete_command-plain :
    (p : RootRelativePath) (d : EntryDetails)
    → without_markers (delete_command p d ∷ []) ≡ delete_command p d ∷ []
delete_command-plain p (file t n) = refl
delete_command-plain p folder = refl
delete_command-plain p (symlink k t) = refl

delete_dest_entry-Tells :
    (p : RootRelativePath) (d : EntryDetails) (s s' : Sending)
    → delete_dest_entry p d s ≡ ok s'
    → Tells (unless s.ctx.dry_run (delete_command p d)) s s'
unfolding delete_dest_entry
delete_dest_entry-Tells p d s s' h =
    let (s1, marked, rest) = >>=-eq-ok (send_progress_marker_limited _) _ h in
    let (s2, deleted, ended) = >>=-eq-ok (unless_dry (delete_command p d) s1) _ rest in
    let before = limited-Tells (with_stats (count_deleted d s.ctx.stats) s) s1 marked in
    around-Tells {b = with_stats (count_deleted d s.ctx.stats) s} {c = s2} refl refl refl
      (Tells-trans {xs = []} before (
        told_as (ap (λ b. unless b (delete_command p d)) before.passes.same_mode)
          (unless_dry-Tells (delete_command p d) s1 s2 (delete_command-plain p d) deleted)))
      (ground arith) (ground arith) (ground arith)

-- The commands for the deletions of the plan.
abbrev pub deletions_told :
    Bool → List (RootRelativePath × (EntryDetails × DeleteReason)) → List Command
deletions_told dry [] = []
deletions_told dry ((p, (d, _)) ∷ items) =
    unless dry (delete_command p d) ++ deletions_told dry items

module _ (times : ProgressMarker → ℕ) where
  -- The loop over the deletions tells the destination each of them once, in their order.
  pub delete_all-Tells :
      (items : List (RootRelativePath × (EntryDetails × DeleteReason))) (s s' : Sending)
      → delete_all times items s ≡ ok s'
      → Tells (deletions_told s.ctx.dry_run items) s s'
  unfolding delete_all
  delete_all-Tells [] s s' h = Passes-Tells (silent (ground arith) (ground arith) (ground arith))
  delete_all-Tells ((p, (d, reason)) ∷ items) s s' h =
      let (s1, deleted, rest) = >>=-eq-ok (delete_dest_entry p d s) _ h in
      let (s2, processed, more) = >>=-eq-ok (process_dest_responses times false s1) _ rest in
      let first = delete_dest_entry-Tells p d s s1 deleted in
      let second = responses-Passes times false s1 s2 processed in
      Tells-trans first (
        Tells-trans {xs = []} (Passes-Tells second) (
          told_as (ap (λ b. deletions_told b items) (second.same_mode ∙ first.passes.same_mode))
            (delete_all-Tells items s2 s' more)))
