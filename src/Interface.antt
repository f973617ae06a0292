-- ===== src/Interface.antt =====
-- src/boss_doer_interface.rs: the messages between the boss and a doer.
use rjrssync.Common.{
  ℕ, Bool, true, false, Option, List, Eq, Str, str_beq, str_beq_iff, ◌≡◌, ◌↔◌, arith,
}
use rjrssync.Path.{RootRelativePath}

pub data FilterKind : Type 0 where
  include exclude : FilterKind

-- A `RegexSet` is the list of its patterns; matching is the `regex` crate's.
pub record Filters : Type 0 where
  pub regex_set : List Str
  pub kinds : List FilterKind

pub data ProgressPhase : Type 0 where
  deleting : ℕ → ProgressPhase
  copying : ℕ → ℕ → ProgressPhase
  done : ProgressPhase

pub record ProgressMarker : Type 0 where
  pub completed_work : ℕ
  pub phase : ProgressPhase

pub data SymlinkKind : Type 0 where
  file_link folder_link unknown_link : SymlinkKind

pub data SymlinkTarget : Type 0 where
  normalized not_normalized : Str → SymlinkTarget

-- `file modified_time size`. A `SystemTime` is the time since the epoch.
pub data EntryDetails : Type 0 where
  file : ℕ → ℕ → EntryDetails
  folder : EntryDetails
  symlink : SymlinkKind → SymlinkTarget → EntryDetails

-- `create_or_update_file path data set_modified_time more_to_follow`
pub data Command : Type 0 where
  set_root : Str → Command
  get_entries : Filters → Command
  create_root_ancestors : Command
  get_file_content : RootRelativePath → Command
  create_or_update_file : RootRelativePath → List ℕ → Option ℕ → Bool → Command
  create_symlink : RootRelativePath → SymlinkKind → SymlinkTarget → Command
  create_folder delete_file delete_folder : RootRelativePath → Command
  delete_symlink : RootRelativePath → SymlinkKind → Command
  profiling_time_sync : Command
  marker : ProgressMarker → Command
  shutdown : Command

-- `root_details details platform_differentiates_symlinks platform_dir_separator`. The payload of
-- `ProfilingData` is left out.
pub data Response : Type 0 where
  root_details : Option EntryDetails → Bool → ℕ → Response
  entry : RootRelativePath → EntryDetails → Response
  end_of_entries : Response
  file_content : List ℕ → Bool → Response
  profiling_time : ℕ → Response
  profiling_data : Response
  marker_echo : ProgressMarker → Response
  error : Str → Response

unfoldable pub is_final_command : Command → Bool
is_final_command shutdown = true
is_final_command _ = false

unfoldable pub is_final_response : Response → Bool
is_final_response profiling_data = true
is_final_response _ = false

abbrev pub kind_beq : SymlinkKind → SymlinkKind → Bool
kind_beq file_link file_link = true
kind_beq folder_link folder_link = true
kind_beq unknown_link unknown_link = true
kind_beq _ _ = false

pub kind_beq_iff : (a b : SymlinkKind) → (kind_beq a b ≡ true) ↔ (a ≡ b)
kind_beq_iff a b = ground arith

instance abbrev pub kind_eq : Eq SymlinkKind
kind_eq = record { beq = kind_beq; beq_iff = kind_beq_iff }

abbrev pub target_beq : SymlinkTarget → SymlinkTarget → Bool
target_beq (normalized s) (normalized t) = str_beq s t
target_beq (not_normalized s) (not_normalized t) = str_beq s t
target_beq _ _ = false

pub target_beq_iff : (a b : SymlinkTarget) → (target_beq a b ≡ true) ↔ (a ≡ b)
target_beq_iff (normalized s) (normalized t) = ground (arith, str_beq_iff s t)
target_beq_iff (not_normalized s) (not_normalized t) = ground (arith, str_beq_iff s t)
target_beq_iff (normalized s) (not_normalized t) = ground arith
target_beq_iff (not_normalized s) (normalized t) = ground arith

instance abbrev pub target_eq : Eq SymlinkTarget
target_eq = record { beq = target_beq; beq_iff = target_beq_iff }
