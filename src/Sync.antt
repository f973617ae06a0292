-- ===== src/Sync.antt =====
-- src/boss_sync.rs: the state of one sync.
pub mod Decide
use rjrssync.Common.{ℕ, Bool, Option, none, [], Str}
use rjrssync.Comms.{Comms}
use rjrssync.Histogram.{FileSizeHistogram}
use rjrssync.Interface.{Filters, EntryDetails}
use rjrssync.OrderedMap.{OrderedMap}
use rjrssync.Path.{RootRelativePath}
use rjrssync.Spec.{
  DestFileUpdateBehaviour, DestEntryNeedsDeletingBehaviour, DestRootNeedsDeletingBehaviour,
}

-- Counters are `u32` or `u64`; an `Instant` is a number.
pub record Stats : Type 0 where
  pub num_src_entries : ℕ
  pub num_src_files : ℕ
  pub num_src_folders : ℕ
  pub num_src_symlinks : ℕ
  pub src_total_bytes : ℕ
  pub src_file_size_hist : FileSizeHistogram
  pub num_dest_entries : ℕ
  pub num_dest_files : ℕ
  pub num_dest_folders : ℕ
  pub num_dest_symlinks : ℕ
  pub dest_total_bytes : ℕ
  pub delete_start_time : Option ℕ
  pub num_files_deleted : ℕ
  pub num_bytes_deleted : ℕ
  pub num_folders_deleted : ℕ
  pub num_symlinks_deleted : ℕ
  pub delete_end_time : Option ℕ
  pub copy_start_time : Option ℕ
  pub num_files_copied : ℕ
  pub num_bytes_copied : ℕ
  pub num_folders_created : ℕ
  pub num_symlinks_copied : ℕ
  pub copied_file_size_hist : FileSizeHistogram
  pub copy_end_time : Option ℕ

abbrev pub default_stats : Stats
default_stats = record {
  num_src_entries = 0;
  num_src_files = 0;
  num_src_folders = 0;
  num_src_symlinks = 0;
  src_total_bytes = 0;
  src_file_size_hist = record { buckets = [] };
  num_dest_entries = 0;
  num_dest_files = 0;
  num_dest_folders = 0;
  num_dest_symlinks = 0;
  dest_total_bytes = 0;
  delete_start_time = none;
  num_files_deleted = 0;
  num_bytes_deleted = 0;
  num_folders_deleted = 0;
  num_symlinks_deleted = 0;
  delete_end_time = none;
  copy_start_time = none;
  num_files_copied = 0;
  num_bytes_copied = 0;
  num_folders_created = 0;
  num_symlinks_copied = 0;
  copied_file_size_hist = record { buckets = [] };
  copy_end_time = none;
}

-- The progress bar is display only and is left out.
pub record SyncContext : Type 0 where
  pub src_comms : Comms
  pub dest_comms : Comms
  pub filters : Filters
  pub stats : Stats
  pub dry_run : Bool
  pub dest_file_newer_behaviour : DestFileUpdateBehaviour
  pub dest_file_older_behaviour : DestFileUpdateBehaviour
  pub files_same_time_behaviour : DestFileUpdateBehaviour
  pub dest_entry_needs_deleting_behaviour : DestEntryNeedsDeletingBehaviour
  pub dest_root_needs_deleting_behaviour : DestRootNeedsDeletingBehaviour
  pub show_progress : Bool
  pub show_stats : Bool
  pub src_root : Str
  pub dest_root : Str
  pub src_dir_separator : Option ℕ
  pub dest_dir_separator : Option ℕ

pub data DeleteReason : Type 0 where
  not_on_source incompatible : DeleteReason

pub data CopyReason : Type 0 where
  not_on_dest dest_newer dest_older same_time_and_not_skipped : CopyReason

abbrev pub EntriesList : Type 0
EntriesList = OrderedMap RootRelativePath EntryDetails

abbrev pub ToDelete : Type 0
ToDelete = OrderedMap RootRelativePath (EntryDetails × DeleteReason)

abbrev pub ToCopy : Type 0
ToCopy = OrderedMap RootRelativePath (EntryDetails × CopyReason)

pub record Actions : Type 0 where
  pub to_delete : ToDelete
  pub to_copy : ToCopy
