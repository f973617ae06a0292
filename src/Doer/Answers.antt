-- ===== src/Doer/Answers.antt =====
-- What the handlers come to: they end, and leave a doer that can go on.
use rjrssync.Common.{
  codes, ℕ, Bool, true, Option, none, some, List, [], ◌∷◌, ◌++◌, Str, Outcome, ok, err, ◌≡◌, refl,
  ap, ◌∙◌, arith, ◌⊎◌, inl, inr, Option-cases, Bool-cases,
}
use rjrssync.Doer.{
  Metadata, answer_details, answer_stat, ◌then_do◌, get_full_path, IoResult, done, failed, Platform,
  DoerContext, Doer, Handled, send_response, handle_set_root, WalkEntry, with_os, Stat, found,
  not_found, unreadable,
}
use rjrssync.Doer.Exec.{in_context, report, report_io, report_call, reply}
use rjrssync.Doer.Files.{
  message, send_entries, handle_create_symlink, send_details, send_entry, can_link,
  with_in_progress, set_time, after_write, after_take, platform_target, take_handle, failing,
  created, linked,
}
use rjrssync.Interface
use rjrssync.Interface.{Command}
use rjrssync.Path.{RootRelativePath}

-- The doer can go on: it has a root, and the boss takes its responses.
pub record Serving {S H : Type 0} (d : Doer S H) : Type 0 where
  pub doer_context : DoerContext H
  pub has_context : d.context ≡ some doer_context
  pub is_connected : d.connected ≡ true

-- A handler that came to an end, with or without an error to report.
pub record Answered {S H : Type 0} (h : Handled S H) : Type 0 where
  pub serving : Serving h.0
  pub ended : (h.1 ≡ ok tt) ⊎ ((e : Str) × (h.1 ≡ err e))

-- A response is sent.
abbrev pub responded : {S H : Type 0} → Interface.Response → Doer S H → Doer S H
responded r d = record d { outbox = d.outbox ++ r ∷ [] }

-- The doer after a handler: an error is sent.
abbrev pub handled : {S H : Type 0} → Handled S H → Doer S H
handled (d, err e) = responded (Interface.error e) d
handled (d, _) = d

abbrev pub written : {S H : Type 0} → Doer S H × IoResult Unit → Doer S H
written (d, done u) = d
written (d, failed e) = responded (Interface.error e) d

-- The doer after a call of the operating system on a path: it has the new files, and an error is sent.
abbrev pub called : {S H : Type 0} → Str → Str → S × IoResult Unit → Doer S H → Doer S H
called what path (s, done u) d = with_os s d
called what path (s, failed e) d = responded (Interface.error (message what path e)) (with_os s d)

-- A command that is no shutdown comes to the state.
pub record GoesOn {S H : Type 0} (o : Outcome Str (Bool × Doer S H)) (next : Doer S H)
    : Type 0 where
  pub goes_on : o ≡ ok (true, next)
  pub serves : Serving next

module _ {S H : Type 0} where
  pub Serving-os : {d : Doer S H} (s : S) → Serving d → Serving (with_os s d)
  Serving-os s x = record {
    doer_context = x.doer_context;
    has_context = x.has_context;
    is_connected = x.is_connected;
  }

  pub sent :
      (r : Interface.Response) (d : Doer S H)
      → Serving d
      → (send_response r d ≡ (record d { outbox = d.outbox ++ r ∷ [] }, ok tt))
  unfolding send_response
  sent r d x = rw x.is_connected refl

  pub Serving-sent :
      (l : List Interface.Response) (d : Doer S H) → Serving d → Serving (record d { outbox = l })
  Serving-sent l d x = record {
    doer_context = x.doer_context;
    has_context = x.has_context;
    is_connected = x.is_connected;
  }

  pub Answered-sent :
      (r : Interface.Response) (d : Doer S H) → Serving d → Answered (send_response r d)
  Answered-sent r d x = rw (sent r d x) (record { serving = Serving-sent _ d x; ended = inl refl })

  pub GoesOn-reply :
      (r : Interface.Response) (d : Doer S H) → Serving d → GoesOn (reply r d) (responded r d)
  GoesOn-reply r d x = rw (sent r d x) (record { goes_on = refl; serves = Serving-sent _ d x })

  pub GoesOn-call :
      (what path : Str) (r : S × IoResult Unit) (d : Doer S H)
      → Serving d
      → GoesOn (report_call what path r d) (called what path r d)
  GoesOn-call what path (s, done u) d x = record { goes_on = refl; serves = Serving-os s x }
  GoesOn-call what path (s, failed e) d x = GoesOn-reply _ (with_os s d) (Serving-os s x)

  pub GoesOn-io : (r : Doer S H × IoResult Unit) → Serving r.0 → GoesOn (report_io r) (written r)
  GoesOn-io (d, done u) x = record { goes_on = refl; serves = x }
  GoesOn-io (d, failed e) x = GoesOn-reply _ d x

  pub GoesOn-in_context :
      (next : DoerContext H → Doer S H → Outcome Str (Bool × Doer S H)) (d : Doer S H)
      (d' : Doer S H) (x : Serving d)
      → GoesOn (next x.doer_context d) d'
      → GoesOn (in_context next d) d'
  GoesOn-in_context next d d' x g = record {
    goes_on =
        ap (λ o. elim o [ none ↦ Outcome.panic | some c ↦ next c d ]) x.has_context ∙ g.goes_on;
    serves = g.serves;
  }

  pub GoesOn-report : (h : Handled S H) → Answered h → GoesOn (report h) (handled h)
  GoesOn-report (d, ok u) a = record { goes_on = refl; serves = a.serving }
  GoesOn-report (d, err e) a = GoesOn-reply _ d a.serving
  GoesOn-report (d, Outcome.panic) a = absurd (ground (arith, a.ended))
  GoesOn-report (d, Outcome.blocked) a = absurd (ground (arith, a.ended))

  pub Answered-then :
      (h : Handled S H) (later : Doer S H → Handled S H)
      → Answered h
      → ((d : Doer S H) → Serving d → Answered (later d))
      → Answered (h then_do later)
  Answered-then (d, ok u) later a more = more d a.serving
  Answered-then (d, err e) later a more = record { serving = a.serving; ended = inr (e, refl) }
  Answered-then (d, Outcome.panic) later a more = absurd (ground (arith, a.ended))
  Answered-then (d, Outcome.blocked) later a more = absurd (ground (arith, a.ended))

  pub Answered-as : (h : Handled S H) (d : Doer S H) → h ≡ (d, ok tt) → Serving d → Answered h
  Answered-as h d e x = rw e (record { serving = x; ended = inl refl })

  pub Answered-err : (e : Str) (d : Doer S H) → Serving d → Answered (d, err e)
  Answered-err e d x = record { serving = x; ended = inr (e, refl) }

module _ {S H : Type 0} (p : Platform S H) where
  pub answer_details-Answered :
      (d : Doer S H) (r : IoResult Interface.EntryDetails)
      → Serving d
      → Answered (answer_details p d r)
  answer_details-Answered d (failed e) x = Answered-err e d x
  answer_details-Answered d (done details) x = Answered-sent _ d x

  pub answer_stat-Answered :
      (root : Str) (d : Doer S H) (r : Stat) → Serving d → Answered (answer_stat p root d r)
  answer_stat-Answered root d (found m) x = answer_details-Answered d _ x
  answer_stat-Answered root d not_found x = Answered-sent _ d x
  answer_stat-Answered root d (unreadable e) x = Answered-err _ d x

  pub set_root-Answered :
      (root : Str) (d : Doer S H) → d.connected ≡ true → Answered (handle_set_root p root d)
  unfolding handle_set_root
  set_root-Answered root d connected =
      answer_stat-Answered root _ (p.symlink_metadata root d.os) (record {
        doer_context = record { root = root; in_progress_file_receive = none };
        has_context = refl;
        is_connected = connected;
      })

  pub send_details-Answered :
      (later : Doer S H → Handled S H) (path : RootRelativePath) (d : Doer S H)
      (r : IoResult Interface.EntryDetails)
      → Serving d
      → ((d : Doer S H) → Serving d → Answered (later d))
      → Answered (send_details p later path d r)
  send_details-Answered later path d (failed e) x more = Answered-err e d x
  send_details-Answered later path d (done details) x more =
      Answered-then (send_response (Interface.entry path details) d) later (Answered-sent _ d x)
        more

  pub send_entry-Answered :
      (later : Doer S H → Handled S H) (path : RootRelativePath) (full_path : Str) (d : Doer S H)
      (r : IoResult Metadata)
      → Serving d
      → ((d : Doer S H) → Serving d → Answered (later d))
      → Answered (send_entry p later path full_path d r)
  send_entry-Answered later path full_path d (failed e) x more = Answered-err _ d x
  send_entry-Answered later path full_path d (done m) x more =
      send_details-Answered later path d _ x more

  pub send_entries-Answered :
      (root : Str) (l : List (IoResult WalkEntry)) (d : Doer S H)
      → Serving d
      → Answered (send_entries p root l d)
  unfolding send_entries
  send_entries-Answered root [] d x = Answered-sent _ d x
  send_entries-Answered root (failed e ∷ rest) d x = Answered-err _ d x
  send_entries-Answered root (done e ∷ rest) d x =
      send_entry-Answered (send_entries p root rest) e.path e.full_path d e.metadata x
        (send_entries-Answered root rest)

  pub linked-Answered :
      (path : Str) (r : S × IoResult Unit) (d : Doer S H) → Serving d → Answered (linked p path r d)
  linked-Answered path (s, done u) d x = record { serving = Serving-os s x; ended = inl refl }
  linked-Answered path (s, failed e) d x = Answered-err _ (with_os s d) (Serving-os s x)

  pub create_symlink-Answered :
      (path : RootRelativePath) (c : DoerContext H) (kind : Interface.SymlinkKind)
      (target : Interface.SymlinkTarget) (d : Doer S H)
      → Serving d
      → Answered (handle_create_symlink p path c kind target d)
  unfolding handle_create_symlink
  create_symlink-Answered path c kind target d x = elim (Bool-cases (can_link p kind)) [
    | inl can ↦ rw can (
        linked-Answered (get_full_path p path c.root)
          (p.create_link kind (platform_target p target) (get_full_path p path c.root) d.os) d x)
    | inr cannot ↦ rw cannot (Answered-err _ d x)
  ]

  pub Serving-in_progress :
      (o : Option (RootRelativePath × H)) (c : DoerContext H) {d : Doer S H}
      → Serving d
      → Serving (with_in_progress p o c d)
  Serving-in_progress o c x = record {
    doer_context = record c { in_progress_file_receive = o };
    has_context = refl;
    is_connected = x.is_connected;
  }

  pub Serving-failing :
      (what path : Str) (r : S × IoResult Unit) (d : Doer S H)
      → Serving d
      → Serving (failing p what path r d).0
  Serving-failing what path (s, done u) d x = Serving-os s x
  Serving-failing what path (s, failed e) d x = Serving-os s x

  pub Serving-created :
      (path : Str) (d : Doer S H) (r : S × IoResult H) → Serving d → Serving (created p path d r).0
  Serving-created path d (s, done f) x = Serving-os s x
  Serving-created path d (s, failed e) x = Serving-os s x

  pub Serving-take :
      (path : RootRelativePath) (c : DoerContext H) (d : Doer S H)
      → Serving d
      → Serving (take_handle p path c d).0
  unfolding take_handle
  Serving-take path c d x = elim (Option-cases c.in_progress_file_receive) [
    | inl new ↦ rw new (
        Serving-created (get_full_path p path c.root) (with_in_progress p none c d)
          (p.create_file (get_full_path p path c.root) d.os) (Serving-in_progress none c x))
    | inr ((q, f), going) ↦ rw going (Serving-in_progress none c {d = d} x)
  ]

  pub Serving-set_time :
      (path : Str) (o : Option ℕ) (d : Doer S H) → Serving d → Serving (set_time p path o d).0
  Serving-set_time path none d x = x
  Serving-set_time path (some t) d x =
      Serving-failing (codes "Error setting modified time of") path (p.set_file_mtime path t d.os) d
        x

  pub Serving-write :
      (path : RootRelativePath) (f : H) (o : Option ℕ) (more : Bool) (c : DoerContext H)
      (r : Doer S H × IoResult Unit)
      → Serving r.0
      → Serving (after_write p path f o more c r).0
  Serving-write path f o more c (d, failed e) x = x
  Serving-write path f o more c (d, done u) x =
      Serving-set_time (get_full_path p path c.root) o _ (Serving-in_progress _ c x)

  pub Serving-after_take :
      (path : RootRelativePath) (bytes : List ℕ) (o : Option ℕ) (more : Bool) (c : DoerContext H)
      (r : Doer S H × IoResult H)
      → Serving r.0
      → Serving (after_take p path bytes o more c r).0
  Serving-after_take path bytes o more c (d, failed e) x = x
  Serving-after_take path bytes o more c (d, done f) x =
      Serving-write path f o more c
        (failing p (codes "Error writing file contents to") (get_full_path p path c.root)
          (p.write_all f bytes d.os) d)
        (Serving-failing (codes "Error writing file contents to") (get_full_path p path c.root)
          (p.write_all f bytes d.os) d x)
