-- ===== src/Doer/Serves.antt =====
-- The doer serves the boss until it is told to stop, whatever its calls come to.
use rjrssync.Common.{
  if◌then◌else◌, codes, ℕ, ◌<◌, Option, none, some, List, [], ◌∷◌, ◌++◌, Str, ◌≡◌, length,
}
use rjrssync.Doer.{DoerContext, handle_set_root, get_full_path, done, Platform, Doer}
use rjrssync.Doer.Files.{
  handle_get_entries, handle_get_file_contents, handle_create_symlink, create_or_update,
}
use rjrssync.Interface
use rjrssync.Interface.{Command}
use rjrssync.Doer.Answers.{responded, handled, written, called}

abbrev cannot_delete : Str → Str
cannot_delete path = codes "Can't delete symlink of unknown type '" ++ (path ++ codes "'")

-- What each command is to do, with the context of the doer: the call of the operating system that it
-- stands for, or its handler, and the responses.
module _ {S H : Type 0} (p : Platform S H) where
  -- A symlink is a file, but on Windows it is of the kind that it links to.
  abbrev pub link_removed : Interface.SymlinkKind → Str → Doer S H → Doer S H
  link_removed kind path d =
      if p.windows
      then elim kind [
        | Interface.file_link ↦
            called (codes "Error deleting symlink") path (p.remove_file path d.os) d
        | Interface.folder_link ↦
            called (codes "Error deleting symlink") path (p.remove_dir path d.os) d
        | Interface.unknown_link ↦ responded (Interface.error (cannot_delete path)) d
      ]
      else called (codes "Error deleting symlink") path (p.remove_file path d.os) d

  abbrev pub made_ancestors : Option Str → Doer S H → Doer S H
  made_ancestors none d = d
  made_ancestors (some path) d =
      called (codes "Error creating folder and ancestors for") path (p.create_dir_all path d.os) d

  abbrev pub after : ℕ → Command → DoerContext H → Doer S H → Doer S H
  after rounds (Interface.set_root root) c d = handled (handle_set_root p root d)
  after rounds (Interface.get_entries filters) c d = handled (handle_get_entries p filters c d)
  after rounds Interface.create_root_ancestors c d = made_ancestors (p.parent c.root) d
  after rounds (Interface.get_file_content path) c d =
      handled (handle_get_file_contents p rounds (get_full_path p path c.root) d)
  after rounds (Interface.create_or_update_file path bytes o more) c d =
      written (create_or_update p path bytes o more c d)
  after rounds (Interface.create_folder path) c d =
      let full_path = get_full_path p path c.root in
      called (codes "Error creating folder") full_path (p.create_dir full_path d.os) d
  after rounds (Interface.create_symlink path kind target) c d =
      handled (handle_create_symlink p path c kind target d)
  after rounds (Interface.delete_file path) c d =
      let full_path = get_full_path p path c.root in
      called (codes "Error deleting file") full_path (p.remove_file full_path d.os) d
  after rounds (Interface.delete_folder path) c d =
      let full_path = get_full_path p path c.root in
      called (codes "Error deleting folder") full_path (p.remove_dir full_path d.os) d
  after rounds (Interface.delete_symlink path kind) c d =
      link_removed kind (get_full_path p path c.root) d
  after rounds Interface.profiling_time_sync c d =
      responded (Interface.profiling_time (p.elapsed d.os)) d
  after rounds (Interface.marker m) c d = responded (Interface.marker_echo m) d
  after rounds Interface.shutdown c d = d

  -- All commands, one after the other.
  abbrev pub after_all : ℕ → List Command → Doer S H → Doer S H
  after_all rounds [] d = d
  after_all rounds (c ∷ cs) d =
      after_all rounds cs (elim d.context [ none ↦ d | some context ↦ after rounds c context d ])

-- Files that can be opened can be read to their end, in fewer rounds than the bound.
abbrev pub AllFinite : {S H : Type 0} → Platform S H → (H → List ℕ → S → Type 0) → ℕ → Type 0
AllFinite {S} {H} p Left rounds =
    (path : Str) (s : S) (f : H) (s' : S)
    → p.open_file path s ≡ (s', done f)
    → (bytes : List ℕ) × Left f bytes s' × (length bytes < rounds)
