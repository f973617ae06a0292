-- ===== src/Lib.antt =====
-- rjrssync copies a folder, a file or a symlink from a source to a destination, which may be on other
-- computers. The boss reads the command line, starts a doer for each side, and talks to the doers by
-- commands and responses: it lists both sides, plans what to delete and to copy, asks the user where
-- the plan destroys something, and then sends the commands. This library models the logic
-- of the boss and of the doers.
--
-- The files, and the code that they model:
--   Common            shared names, tests on numbers, lists, equality, the HashMap as a list of pairs,
--                     and Outcome: Ok, Err, a panic, or waiting for a message that never comes
--   Interface         src/boss_doer_interface.rs: the commands, the responses and their parts
--   Comms             src/boss_launch.rs, Comms: sending a command, receiving a response
--   OrderedMap        src/ordered_map.rs: all operations, their invariant and their contents
--   Path              src/root_relative_path.rs: normalised paths and their printing
--   Spec              src/boss_frontend.rs: SyncSpec, Spec, the behaviours and their defaults
--   Frontend          src/boss_frontend.rs: RemotePathDesc, the spec file, resolve_spec
--   Prompt            src/boss_frontend.rs: resolve_prompt
--   Filter            src/boss_sync.rs, compile_filters, and src/doer.rs, apply_filters
--   Histogram         src/histogram.rs: add
--   Progress          src/boss_progress.rs: the accounting of work sent and completed
--   Sync              src/boss_sync.rs: SyncContext, Stats, Actions; Sync/Decide: needs_delete and
--                     needs_copy, with the plan as their specification
--   Query             src/boss_sync.rs: query_entries, process_src_entry, process_dest_entry
--   Confirm           src/boss_sync.rs: confirm_actions
--   Transfer          src/boss_sync.rs: delete_dest_entry, copy_entry, copy_file,
--                     process_dest_responses
--   Driver            src/boss_sync.rs: sync and sync_impl; Driver/Roots: the checks of the two roots
--   Doer              src/doer.rs: entry_details_from_metadata and handle_set_root; Doer/Files: the
--                     handlers for entries, files and symlinks; Doer/Exec: exec_command, message_loop
--   Walk              src/parallel_walk_dir.rs: the worker threads, turn by turn
--   Channel           src/memory_bound_channel.rs: the channel with a memory budget, event by event
--   Exe               src/exe_utils.rs: reading and adding sections of ELF files (Pe: of PE files)
--   Encrypted         src/encrypted_comms.rs: send and receive, and the threads' loops over messages
--   Tests             runs on small inputs, and the theorems at such inputs
--
-- How the code is read. A function that changes a `&mut` argument returns the new value. A Rust struct
-- is a record with the same field names, an enum a data type. Texts are lists of character codes.
-- Counters wrap at 2^32 and 2^64, as they do in a release build, in which `debug_assert!` does
-- nothing. A doer is a script: `Comms.inbox` lists the responses that it will send, `arrivals` says
-- for each poll whether the next one is there, and `closes` whether the channel is closed after the
-- last. Which side `select_ready` serves is a list of picks. Loops that wait for responses recurse on
-- the list of those to come, so no fuel is needed: where it ends, the boss waits (`blocked`) or finds
-- the channel closed. The doer's loop over the reads of a file has a bound on its rounds; one round for
-- each byte and one for the end are enough, since every read but the last gives a byte. The threads of
-- the directory walk take turns by a schedule; all schedules are covered.
--
-- Parameters stand for the crates and the platform: `regex` (is_match, compile_error), `console`
-- (italic), `bincode` and `aes_gcm` (Crypto), `yaml_rust` and `clap` (Reading), floating-point log10,
-- the clock (times, delete_start, copy_end), the size of a message (serialized_size), and the operating
-- system with its files (Platform), of which reading and writing files have named laws (ReadsFile,
-- WritesFile).
--
-- Not modelled: starting and deploying doers over ssh, the threads and the shutdown of a connection, the
-- doer's start, profiling, logging, and the drawing of the progress bar and of statistics. They are
-- input and output, or parts that this library does not reach.
pub mod Common
pub mod Interface
pub mod OrderedMap
pub mod Path
pub mod Spec
pub mod Comms
pub mod Histogram
pub mod Sync
pub mod Progress
pub mod Prompt
pub mod Confirm
pub mod Query
pub mod Frontend
pub mod Filter
pub mod Transfer
pub mod Walk
pub mod Channel
pub mod Exe
pub mod Doer
pub mod Driver
pub mod Encrypted
pub mod Tests
