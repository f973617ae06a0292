-- ===== src/Doer.antt =====
-- src/doer.rs: the doer's state, and how it looks at a path. The operating system is a parameter: the
-- state of its files, and what its calls do to it.
pub mod Files
pub mod Exec
pub mod Chunks
pub mod Receives
pub mod Answers
pub mod Serves
pub mod Transfer
use rjrssync.Common.{
  ℕ, Bool, true, false, Option, none, some, List, [], ◌∷◌, ◌++◌, Str, codes, Outcome, ok, err,
  if◌then◌else◌,
}
use rjrssync.Interface.{
  Command, Response, error, EntryDetails, file, folder, symlink, SymlinkKind, file_link,
  folder_link, unknown_link, SymlinkTarget, normalized, not_normalized, root_details, Filters,
}
use rjrssync.Path.{RootRelativePath, FilePath, is_root, try_from, display}

-- What a call of the operating system comes to.
pub data IoResult (A : Type 0) : Type 0 where
  done : A → IoResult A
  failed : Str → IoResult A

-- `std::fs::Metadata`: the three tests, the modified time, and the size. On Windows `link_kind` is
-- what the file type says of a symlink.
pub record Metadata : Type 0 where
  pub is_dir : Bool
  pub is_file : Bool
  pub is_symlink : Bool
  pub modified : IoResult ℕ
  pub len : ℕ
  pub link_kind : Option SymlinkKind

-- `symlink_metadata`, with `ErrorKind::NotFound` apart.
pub data Stat : Type 0 where
  found : Metadata → Stat
  not_found : Stat
  unreadable : Str → Stat

-- An entry of `parallel_walk_dir` that the filters let through.
pub record WalkEntry : Type 0 where
  pub full_path : Str
  pub path : RootRelativePath
  pub metadata : IoResult Metadata

-- `std::fs`, `filetime` and `std::path` on the platform, over the states `S` of the files and the
-- handles `H` of open files. `walk` is what the receiver of `parallel_walk_dir` yields.
pub record Platform (S H : Type 0) : Type 0 where
  pub windows : Bool
  pub main_separator : ℕ
  pub join : Str → Str → Str
  pub parent : Str → Option Str
  pub symlink_metadata : Str → S → Stat
  pub metadata : Str → S → IoResult Metadata
  pub read_link : Str → S → IoResult (FilePath × Str)
  pub walk : Str → Filters → S → List (IoResult WalkEntry)
  pub create_dir_all : Str → S → S × IoResult Unit
  pub create_dir : Str → S → S × IoResult Unit
  pub remove_file : Str → S → S × IoResult Unit
  pub remove_dir : Str → S → S × IoResult Unit
  pub create_link : SymlinkKind → Str → Str → S → S × IoResult Unit
  pub create_file : Str → S → S × IoResult H
  pub open_file : Str → S → S × IoResult H
  pub read : H → ℕ → S → S × IoResult (List ℕ)
  pub write_all : H → List ℕ → S → S × IoResult Unit
  pub set_file_mtime : Str → ℕ → S → S × IoResult Unit
  pub elapsed : S → ℕ

pub record DoerContext (H : Type 0) : Type 0 where
  pub root : Str
  pub in_progress_file_receive : Option (RootRelativePath × H)

-- The doer with its end of the channels: `outbox` lists the responses sent so far, and `connected`
-- tells whether the boss still takes them.
pub record Doer (S H : Type 0) : Type 0 where
  pub os : S
  pub context : Option (DoerContext H)
  pub outbox : List Response
  pub connected : Bool

-- What a handler comes to: the state it leaves, and `Ok(())` or the error.
abbrev pub Handled : Type 0 → Type 0 → Type 0
Handled S H = Doer S H × Outcome {0} Str Unit

module _ {S H : Type 0} where
  unfoldable pub send_response : Response → Doer S H → Handled S H
  send_response r d =
      if d.connected
      then (record d { outbox = d.outbox ++ r ∷ [] }, ok tt)
      else (d, err (codes "Lost communication"))

  infixl 5 ◌then_do◌
  -- `?` on a handler's result.
  abbrev pub ◌then_do◌ : Handled S H → (Doer S H → Handled S H) → Handled S H
  (d, ok _) then_do next = next d
  (d, err e) then_do next = (d, err e)
  (d, Outcome.panic) then_do next = (d, Outcome.panic)
  (d, Outcome.blocked) then_do next = (d, Outcome.blocked)

  abbrev pub with_os : S → Doer S H → Doer S H
  with_os s d = record d { os = s }

module _ {S H : Type 0} (p : Platform S H) where
  -- src/root_relative_path.rs
  unfoldable pub get_full_path : RootRelativePath → Str → Str
  unfolding is_root
  get_full_path path root = if is_root path then root else p.join root path.inner

  -- On Windows the link says what it links to; elsewhere the target is looked at.
  abbrev pub kind_of_link : Metadata → Str → S → IoResult SymlinkKind
  kind_of_link m path s =
      if p.windows
      then elim m.link_kind [
        | some kind ↦ done kind
        | none ↦ failed (codes "Unknown symlink type time for '" ++ path ++ codes "'")
      ]
      else elim (p.metadata path s) [
        | failed e ↦ done unknown_link
        | done m' ↦
            if m'.is_file
            then done file_link
            else if m'.is_dir
            then done folder_link
            else done unknown_link
      ]

  abbrev pub target_of_link : FilePath × Str → SymlinkTarget
  target_of_link (target, lossy) = elim (try_from target) [
    | ok r ↦ normalized (display r)
    | err _ ↦ not_normalized lossy
    | Outcome.panic ↦ not_normalized lossy
    | Outcome.blocked ↦ not_normalized lossy
  ]

  unfoldable pub entry_details_from_metadata : Metadata → Str → S → IoResult EntryDetails
  unfolding try_from
  entry_details_from_metadata m path s =
      if m.is_dir
      then done folder
      else if m.is_file
      then elim m.modified [
        | done t ↦ done (file t m.len)
        | failed e ↦ failed (codes "Unknown modified time for '" ++ (path ++ (codes "': " ++ e)))
      ]
      else if m.is_symlink
      then elim (p.read_link path s) [
        | failed e ↦
            failed (codes "Unable to read symlink target for '" ++ (path ++ (codes "': " ++ e)))
        | done target ↦ elim (kind_of_link m path s) [
          | failed e ↦ failed e
          | done kind ↦ done (symlink kind (target_of_link target))
        ]
      ]
      else failed (codes "Unknown file type for '" ++ (path ++ codes "'"))

  abbrev pub answer_details : Doer S H → IoResult EntryDetails → Handled S H
  answer_details d (failed e) = (d, err e)
  answer_details d (done details) =
      send_response (root_details (some details) p.windows p.main_separator) d

  abbrev pub answer_stat : Str → Doer S H → Stat → Handled S H
  answer_stat root d (found m) = answer_details d (entry_details_from_metadata m root d.os)
  answer_stat root d not_found = send_response (root_details none p.windows p.main_separator) d
  answer_stat root d (unreadable e) =
      (d, err (codes "root '" ++ (root ++ (codes "' can't be read: " ++ e))))

  -- The response to `SetRoot`, once the context is stored.
  unfoldable pub handle_set_root : Str → Doer S H → Handled S H
  unfolding entry_details_from_metadata send_response
  handle_set_root root d =
      answer_stat root
        (record d { context = some (record { root = root; in_progress_file_receive = none }) })
        (p.symlink_metadata root d.os)
