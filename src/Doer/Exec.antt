-- ===== src/Doer/Exec.antt =====
-- src/doer.rs, `exec_command` and `message_loop`: the doer carries out the boss's commands, one after
-- the other.
use rjrssync.Common.{
  ℕ, Bool, true, false, Option, none, some, List, [], ◌∷◌, ◌++◌, Str, codes, Outcome, ok, err,
  panic, blocked, ◌>>=◌, if◌then◌else◌,
}
use rjrssync.Doer.{
  IoResult, done, failed, Platform, DoerContext, Doer, Handled, send_response, with_os,
  handle_set_root, get_full_path,
}
use rjrssync.Doer.Files.{
  message, handle_get_entries, handle_get_file_contents, handle_create_symlink, create_or_update,
}
use rjrssync.Interface

module _ {S H : Type 0} where
  -- A reply, and whether the loop goes on.
  abbrev pub reply : Interface.Response → Doer S H → Outcome Str (Bool × Doer S H)
  reply r d = let (d', sent) = send_response r d in (do _ ← sent; ok (true, d'))

  -- The error of a handler is reported to the boss; what cannot be reported ends the doer.
  abbrev pub report : Handled S H → Outcome Str (Bool × Doer S H)
  report (d, ok _) = ok (true, d)
  report (d, err e) = reply (Interface.error e) d
  report (d, panic) = panic
  report (d, blocked) = blocked

  abbrev pub report_io : Doer S H × IoResult Unit → Outcome Str (Bool × Doer S H)
  report_io (d, done _) = ok (true, d)
  report_io (d, failed e) = reply (Interface.error e) d

  -- A call of the operating system on a path.
  abbrev pub report_call : Str → Str → S × IoResult Unit → Doer S H → Outcome Str (Bool × Doer S H)
  report_call what path (s, done _) d = ok (true, with_os s d)
  report_call what path (s, failed e) d =
      reply (Interface.error (message what path e)) (with_os s d)

  -- `context.as_ref().unwrap()`
  abbrev pub in_context :
      (DoerContext H → Doer S H → Outcome Str (Bool × Doer S H))
      → Doer S H
      → Outcome Str (Bool × Doer S H)
  in_context next d = elim d.context [ none ↦ panic | some c ↦ next c d ]

module _ {S H : Type 0} (p : Platform S H) (rounds : ℕ) where
  -- On Windows a symlink is removed as what it links to.
  abbrev pub remove_link : Interface.SymlinkKind → Str → Doer S H → Outcome Str (Bool × Doer S H)
  remove_link kind path d =
      let as_file = report_call (codes "Error deleting symlink") path (p.remove_file path d.os) d in
      let as_dir = report_call (codes "Error deleting symlink") path (p.remove_dir path d.os) d in
      if p.windows
      then elim kind [
        | Interface.file_link ↦ as_file
        | Interface.folder_link ↦ as_dir
        | Interface.unknown_link ↦
            reply
              (Interface.error
                (codes "Can't delete symlink of unknown type '" ++ (path ++ codes "'")))
              d
      ]
      else as_file

  abbrev pub create_ancestors : Option Str → Doer S H → Outcome Str (Bool × Doer S H)
  create_ancestors none d = ok (true, d)
  create_ancestors (some path) d =
      report_call (codes "Error creating folder and ancestors for") path
        (p.create_dir_all path d.os) d

  unfoldable pub exec_command : Interface.Command → Doer S H → Outcome Str (Bool × Doer S H)
  unfolding handle_set_root handle_get_entries handle_get_file_contents handle_create_symlink
      create_or_update send_response
  exec_command (Interface.set_root root) d = report (handle_set_root p root d)
  exec_command (Interface.get_entries filters) d =
      in_context (λ c d. report (handle_get_entries p filters c d)) d
  exec_command Interface.create_root_ancestors d =
      in_context (λ c d. create_ancestors (p.parent c.root) d) d
  exec_command (Interface.get_file_content path) d =
      in_context (λ c d. report (handle_get_file_contents p rounds (get_full_path p path c.root) d))
        d
  exec_command (Interface.create_or_update_file path bytes set_modified_time more_to_follow) d =
      in_context
        (λ c d. report_io (create_or_update p path bytes set_modified_time more_to_follow c d)) d
  exec_command (Interface.create_folder path) d =
      in_context
        (λ c d.
          let full_path = get_full_path p path c.root in
          report_call (codes "Error creating folder") full_path (p.create_dir full_path d.os) d)
        d
  exec_command (Interface.create_symlink path kind target) d =
      in_context (λ c d. report (handle_create_symlink p path c kind target d)) d
  exec_command (Interface.delete_file path) d =
      in_context
        (λ c d.
          let full_path = get_full_path p path c.root in
          report_call (codes "Error deleting file") full_path (p.remove_file full_path d.os) d)
        d
  exec_command (Interface.delete_folder path) d =
      in_context
        (λ c d.
          let full_path = get_full_path p path c.root in
          report_call (codes "Error deleting folder") full_path (p.remove_dir full_path d.os) d)
        d
  exec_command (Interface.delete_symlink path kind) d =
      in_context (λ c d. remove_link kind (get_full_path p path c.root) d) d
  exec_command Interface.profiling_time_sync d = reply (Interface.profiling_time (p.elapsed d.os)) d
  exec_command (Interface.marker m) d = reply (Interface.marker_echo m) d
  exec_command Interface.shutdown d = ok (false, d)

  -- The loop over the commands that come. Where they end the boss has disconnected, or the doer
  -- waits.
  unfoldable pub message_loop : List Interface.Command → Bool → Doer S H → Outcome Str (Doer S H)
  unfolding exec_command
  message_loop [] closes d = if closes then ok d else blocked
  message_loop (c ∷ cs) closes d = do
    (go_on, d') ← exec_command c d
    let rest = message_loop cs closes d'
    if go_on then rest else ok d'
