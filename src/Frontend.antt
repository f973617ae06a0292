-- ===== src/Frontend.antt =====
-- src/boss_frontend.rs: the command line and the spec file.
pub mod RemotePath
pub mod SpecFile
pub mod Resolve
pub mod Overrides
pub mod Paths
use rjrssync.Common.{Str}

-- The errors that end the program before any sync, by their kind, without their wording.
pub data UsageError : Type 0 where
  missing_username missing_hostname missing_path : UsageError
  expected_string : Str → UsageError
  expected_dictionary expected_array bad_filter_element : UsageError
  unknown_behaviour unexpected_key : Str → UsageError
  src_not_given dest_not_given : UsageError
  unreadable no_document : UsageError
