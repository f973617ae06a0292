-- ===== src/Doer/Files.antt =====
-- src/doer.rs: the handlers that list entries, read and write files, and create symlinks.
use rjrssync.Common.{
  ℕ, zero, suc, ◌*◌, min, Bool, true, false, Option, none, some, List, [], ◌∷◌, ◌++◌, Str, codes,
  Outcome, ok, err, if◌then◌else◌, ltb, length,
}
use rjrssync.Doer.{
  IoResult, done, failed, WalkEntry, Metadata, Platform, DoerContext, Doer, Handled, send_response,
  ◌then_do◌, with_os, entry_details_from_metadata, get_full_path,
}
use rjrssync.Interface.{
  EntryDetails, entry, end_of_entries, file_content, SymlinkKind, unknown_link, SymlinkTarget,
  normalized, not_normalized, Filters,
}
use rjrssync.Path.{RootRelativePath, display, replace, path_eq}
use rjrssync.Common.{◌==◌}

abbrev pub first_chunk : ℕ
first_chunk = 4 * 1024

abbrev pub max_chunk : ℕ
max_chunk = 1024 * 1024 * 4

-- "<what> '<path>': <e>"
abbrev pub message : Str → Str → Str → Str
message what path e = what ++ (codes " '" ++ (path ++ (codes "': " ++ e)))

module _ {S H : Type 0} where
  -- The chunk that was read before is sent, with more to follow, if there is one.
  unfoldable pub send_previous : List ℕ → Doer S H → Handled S H
  unfolding send_response
  send_previous [] d = (d, ok tt)
  send_previous (b ∷ bs) d = send_response (file_content (b ∷ bs) true) d

module _ {S H : Type 0} (p : Platform S H) where
  -- One entry, from its details; the first argument is the rest of the loop.
  abbrev pub send_details :
      (Doer S H → Handled S H) → RootRelativePath → Doer S H → IoResult EntryDetails → Handled S H
  send_details later path d (failed x) = (d, err x)
  send_details later path d (done details) = send_response (entry path details) d then_do later

  abbrev pub send_entry :
      (Doer S H → Handled S H) → RootRelativePath → Str → Doer S H → IoResult Metadata → Handled S H
  send_entry later path full_path d (failed x) =
      (d, err (message (codes "Unable to get metadata for") (display path) x))
  send_entry later path full_path d (done m) =
      send_details later path d (entry_details_from_metadata p m full_path d.os)

  -- The loop over what `parallel_walk_dir` yields.
  unfoldable pub send_entries : Str → List (IoResult WalkEntry) → Doer S H → Handled S H
  unfolding send_response
  send_entries root [] d = send_response end_of_entries d
  send_entries root (failed e ∷ rest) d =
      (d, err (message (codes "Error fetching entries of root") root e))
  send_entries root (done e ∷ rest) d =
      send_entry (send_entries root rest) e.path e.full_path d e.metadata

  unfoldable pub handle_get_entries : Filters → DoerContext H → Doer S H → Handled S H
  unfolding send_entries
  handle_get_entries filters c d = send_entries c.root (p.walk c.root filters d.os) d

  -- A round of the loop over the reads, from what the read came to; the first argument is the rest of
  -- the loop. Its variables: the size of the chunks, the data read before, and the length of the
  -- buffer for the next read.
  abbrev pub after_read :
      (ℕ → List ℕ → ℕ → Doer S H → Handled S H)
      → Str
      → ℕ
      → List ℕ
      → ℕ
      → Doer S H
      → S × IoResult (List ℕ)
      → Handled S H
  after_read later path chunk_size prev next_len d (s, failed e) =
      (with_os s d, err (message (codes "Error getting file content of") path e))
  after_read later path chunk_size prev next_len d (s, done []) =
      send_response (file_content prev false) (with_os s d)
  after_read later path chunk_size prev next_len d (s, done (b ∷ bs)) =
      let short = ltb (length (b ∷ bs)) next_len in
      let bigger = min (chunk_size * 2) max_chunk in
      send_previous prev (with_os s d) then_do (λ d'.
        later (if short then chunk_size else bigger) (b ∷ bs) (if short then 32 else bigger) d')

  -- The first number bounds the rounds.
  unfoldable pub read_chunks : ℕ → Str → H → ℕ → List ℕ → ℕ → Doer S H → Handled S H
  unfolding send_previous send_response
  read_chunks zero path f chunk_size prev next_len d = (d, Outcome.blocked)
  read_chunks (suc rounds) path f chunk_size prev next_len d =
      after_read (read_chunks rounds path f) path chunk_size prev next_len d
        (p.read f next_len d.os)

  abbrev pub after_open : ℕ → Str → Doer S H → S × IoResult H → Handled S H
  after_open rounds path d (s, failed e) =
      (with_os s d, err (message (codes "Error opening file") path e))
  after_open rounds path d (s, done f) =
      read_chunks rounds path f first_chunk [] first_chunk (with_os s d)

  unfoldable pub handle_get_file_contents : ℕ → Str → Doer S H → Handled S H
  unfolding read_chunks
  handle_get_file_contents rounds path d = after_open rounds path d (p.open_file path d.os)

  abbrev pub platform_target : SymlinkTarget → Str
  platform_target (normalized s) = replace b'/' p.main_separator s
  platform_target (not_normalized s) = s

  abbrev pub linked : Str → S × IoResult Unit → Doer S H → Handled S H
  linked path (s, done _) d = (with_os s d, ok tt)
  linked path (s, failed e) d =
      (with_os s d, err (message (codes "Failed to create symlink") path e))

  abbrev pub can_link : SymlinkKind → Bool
  can_link unknown_link = if p.windows then false else true
  can_link _ = true

  unfoldable pub handle_create_symlink :
      RootRelativePath → DoerContext H → SymlinkKind → SymlinkTarget → Doer S H → Handled S H
  unfolding replace get_full_path
  handle_create_symlink path c kind target d =
      let full_path = get_full_path p path c.root in
      if can_link kind
      then linked full_path (p.create_link kind (platform_target target) full_path d.os) d
      else (
        d,
        err (
            codes "Can't create symlink of unknown kind on this platform '"
            ++ (full_path ++ codes "'")),
      )

  abbrev pub with_in_progress : Option (RootRelativePath × H) → DoerContext H → Doer S H → Doer S H
  with_in_progress o c d = record d { context = some (record c { in_progress_file_receive = o }) }

  abbrev pub failing : Str → Str → S × IoResult Unit → Doer S H → Doer S H × IoResult Unit
  failing what path (s, done _) d = (with_os s d, done tt)
  failing what path (s, failed e) d = (with_os s d, failed (message what path e))

  abbrev pub created : Str → Doer S H → S × IoResult H → Doer S H × IoResult H
  created path d (s, done f) = (with_os s d, done f)
  created path d (s, failed e) =
      (with_os s d, failed (message (codes "Error writing file contents to") path e))

  -- The handle for the next data: that of the transfer in progress, which is taken, if it is for the
  -- same path; a new file, if there is none.
  unfoldable pub take_handle : RootRelativePath → DoerContext H → Doer S H → Doer S H × IoResult H
  unfolding get_full_path
  take_handle path c d = elim c.in_progress_file_receive [
    | some (q, f) ↦ (
      with_in_progress none c d,
      if q == path then done f else failed (codes "Unexpected continued file transfer!"),
    )
    | none ↦
        let full_path = get_full_path p path c.root in
        created full_path (with_in_progress none c d) (p.create_file full_path d.os)
  ]

  abbrev pub set_time : Str → Option ℕ → Doer S H → Doer S H × IoResult Unit
  set_time full_path none d = (d, done tt)
  set_time full_path (some t) d =
      failing (codes "Error setting modified time of") full_path (p.set_file_mtime full_path t d.os)
        d

  -- The state once the data is written: the handle is kept if there is more to follow.
  abbrev pub after_write :
      RootRelativePath
      → H
      → Option ℕ
      → Bool
      → DoerContext H
      → Doer S H × IoResult Unit
      → Doer S H × IoResult Unit
  after_write path f set_modified_time more_to_follow c (d, failed e) = (d, failed e)
  after_write path f set_modified_time more_to_follow c (d, done _) =
      set_time (get_full_path p path c.root) set_modified_time
        (with_in_progress (if more_to_follow then some (path, f) else none) c d)

  abbrev pub after_take :
      RootRelativePath
      → List ℕ
      → Option ℕ
      → Bool
      → DoerContext H
      → Doer S H × IoResult H
      → Doer S H × IoResult Unit
  after_take path bytes set_modified_time more_to_follow c (d, failed e) = (d, failed e)
  after_take path bytes set_modified_time more_to_follow c (d, done f) =
      after_write path f set_modified_time more_to_follow c (
        failing (codes "Error writing file contents to") (get_full_path p path c.root)
          (p.write_all f bytes d.os) d)

  -- `CreateOrUpdateFile`, with the error that is reported.
  unfoldable pub create_or_update :
      RootRelativePath
      → List ℕ
      → Option ℕ
      → Bool
      → DoerContext H
      → Doer S H
      → Doer S H × IoResult Unit
  unfolding take_handle
  create_or_update path bytes set_modified_time more_to_follow c d =
      after_take path bytes set_modified_time more_to_follow c (take_handle path c d)
