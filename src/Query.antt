-- ===== src/Query.antt =====
-- src/boss_sync.rs, `query_entries`: both sides are listed at the same time, and each entry that
-- arrives settles what is to be deleted and copied.
pub mod Steps
pub mod Loop
pub mod Begin
pub mod Plan
use rjrssync.Common.{
  ℕ, ◌+◌, ◌%◌, Bool, true, false, ◌&&◌, Option, none, some, List, [], ◌∷◌, Outcome, ok, err, panic,
  blocked, ◌>>=◌, if◌then◌else◌, add_u32, add_u64, u32_mod,
}
use rjrssync.Comms.{
  SyncError, unexpected_from_src, unexpected_from_dest, send_command, receive_response,
}
use rjrssync.Histogram
use rjrssync.Interface.{
  EntryDetails, file, folder, symlink, Response, entry, end_of_entries, get_entries,
}
use rjrssync.OrderedMap
use rjrssync.Path.{RootRelativePath, root, path_eq}
use rjrssync.Sync.{
  SyncContext, EntriesList, ToDelete, ToCopy, Actions, Stats, not_on_source, incompatible,
  not_on_dest,
}
use rjrssync.Sync.Decide.{needs_delete, needs_copy}

-- The four maps that the phase builds.
pub record Query : Type 0 where
  pub src_entries : EntriesList
  pub dest_entries : EntriesList
  pub to_delete : ToDelete
  pub to_copy : ToCopy

abbrev pub empty_query : Query
empty_query = record {
  src_entries = OrderedMap.new;
  dest_entries = OrderedMap.new;
  to_delete = OrderedMap.new;
  to_copy = OrderedMap.new;
}

-- What `select_ready` returns: 0 for the source, 1 for the destination.
pub data Pick : Type 0 where
  from_src from_dest : Pick

module _ (log10 : ℕ → ℕ) where
  -- The statistics of a source entry.
  unfoldable pub count_src : SyncContext → EntryDetails → SyncContext
  count_src ctx (file _ size) = record ctx {
    stats = record stats {
      num_src_files = add_u32 stats.num_src_files 1;
      src_total_bytes = add_u64 stats.src_total_bytes size;
      src_file_size_hist = Histogram.add log10 size stats.src_file_size_hist;
    };
  }
    where
      open ctx use {stats}
  count_src ctx folder = record ctx {
    stats = record stats { num_src_folders = add_u32 stats.num_src_folders 1 };
  }
    where
      open ctx use {stats}
  count_src ctx (symlink _ _) = record ctx {
    stats = record stats { num_src_symlinks = add_u32 stats.num_src_symlinks 1 };
  }
    where
      open ctx use {stats}

  unfoldable pub process_src_entry :
      SyncContext
      → RootRelativePath
      → EntryDetails
      → Bool
      → Query
      → Outcome SyncError (SyncContext × Query)
  process_src_entry ctx p src_entry differentiates q = elim (OrderedMap.lookup p q.dest_entries) [
    | none ↦ ok (
      counted,
      record q {
        to_copy = OrderedMap.add p (src_entry, not_on_dest) q.to_copy;
        src_entries = src_entries;
      },
    )
    | some dest_entry ↦
        if needs_delete src_entry dest_entry differentiates
        then elim (OrderedMap.update p (dest_entry, incompatible) q.to_delete) [
          | none ↦ panic
          | some to_delete ↦ ok (
            counted,
            record q {
              to_delete = to_delete;
              to_copy = OrderedMap.add p (src_entry, not_on_dest) q.to_copy;
              src_entries = src_entries;
            },
          )
        ]
        else (do
          reason ← needs_copy counted src_entry dest_entry
          ok (
            counted,
            record q {
              to_delete = OrderedMap.remove p q.to_delete;
              to_copy = elim reason [
                | none ↦ q.to_copy
                | some r ↦ OrderedMap.add p (src_entry, r) q.to_copy
              ];
              src_entries = src_entries;
            },
          ))
  ]
    where
      counted : SyncContext
      counted = count_src ctx src_entry

      src_entries : EntriesList
      src_entries = OrderedMap.add p src_entry q.src_entries

-- The statistics of a destination entry.
unfoldable pub count_dest : SyncContext → EntryDetails → SyncContext
count_dest ctx (file _ size) = record ctx {
  stats = record stats {
    num_dest_files = add_u32 stats.num_dest_files 1;
    dest_total_bytes = add_u64 stats.dest_total_bytes size;
  };
}
  where
    open ctx use {stats}
count_dest ctx folder = record ctx {
  stats = record stats { num_dest_folders = add_u32 stats.num_dest_folders 1 };
}
  where
    open ctx use {stats}
count_dest ctx (symlink _ _) = record ctx {
  stats = record stats { num_dest_symlinks = add_u32 stats.num_dest_symlinks 1 };
}
  where
    open ctx use {stats}

unfoldable pub process_dest_entry :
    SyncContext
    → RootRelativePath
    → EntryDetails
    → Bool
    → Query
    → Outcome SyncError (SyncContext × Query)
process_dest_entry ctx p dest_entry differentiates q = elim (OrderedMap.lookup p q.src_entries) [
  | none ↦ ok (
    counted,
    record q {
      to_delete = OrderedMap.add p (dest_entry, not_on_source) q.to_delete;
      dest_entries = dest_entries;
    },
  )
  | some src_entry ↦
      if needs_delete src_entry dest_entry differentiates
      then ok (
        counted,
        record q {
          to_delete = OrderedMap.add p (dest_entry, incompatible) q.to_delete;
          dest_entries = dest_entries;
        },
      )
      else (do
        reason ← needs_copy counted src_entry dest_entry
        elim reason [
          | some r ↦ elim (OrderedMap.update p (src_entry, r) q.to_copy) [
            | none ↦ panic
            | some to_copy ↦
                ok (counted, record q { to_copy = to_copy; dest_entries = dest_entries })
          ]
          | none ↦ ok (
            counted,
            record q { to_copy = OrderedMap.remove p q.to_copy; dest_entries = dest_entries },
          )
        ])
]
  where
    counted : SyncContext
    counted = count_dest ctx dest_entry

    dest_entries : EntriesList
    dest_entries = OrderedMap.add p dest_entry q.dest_entries

-- The variables of the loop.
pub record Round : Type 0 where
  pub ctx : SyncContext
  pub query : Query
  pub src_done : Bool
  pub dest_done : Bool

module _ (log10 : ℕ → ℕ) (differentiates : Bool) where
  -- One round: a response of the side that `select_ready` names.
  unfoldable pub take_src : Round → Response → Outcome SyncError Round
  take_src r (entry p d) = do
    (ctx, query) ← process_src_entry log10 r.ctx p d differentiates r.query
    ok (record r { ctx = ctx; query = query })
  take_src r end_of_entries = ok (record r { src_done = true })
  take_src r other = err (unexpected_from_src other)

  unfoldable pub take_dest : Round → Response → Outcome SyncError Round
  take_dest r (entry p d) = do
    (ctx, query) ← process_dest_entry r.ctx p d differentiates r.query
    ok (record r { ctx = ctx; query = query })
  take_dest r end_of_entries = ok (record r { dest_done = true })
  take_dest r other = err (unexpected_from_dest other)

  unfoldable pub round : Pick → Round → Outcome SyncError Round
  unfolding take_src take_dest
  round from_src r = do
    (response, comms) ← receive_response r.ctx.src_comms
    take_src (record r { ctx = record (r.ctx) { src_comms = comms } }) response
  round from_dest r = do
    (response, comms) ← receive_response r.ctx.dest_comms
    take_dest (record r { ctx = record (r.ctx) { dest_comms = comms } }) response

  -- `while !src_done || !dest_done`. The list is what `select_ready` returns, call by call; when it
  -- ends and a side is not done, the boss waits.
  unfoldable pub loop : List Pick → Round → Outcome SyncError Round
  unfolding round
  loop [] r = if r.src_done && r.dest_done then ok r else blocked
  loop (pick ∷ picks) r = elim (r.src_done && r.dest_done) [
    | true ↦ ok r
    | false ↦ (do next ← round pick r; loop picks next)
  ]

  -- `GetEntries` is sent to a side whose root is a folder; the other sides are done at once.
  abbrev pub ask_src : EntryDetails → Round → Outcome SyncError Round
  ask_src folder r = do
    comms ← send_command (get_entries (r.ctx.filters)) r.ctx.src_comms
    ok (record r { ctx = record (r.ctx) { src_comms = comms }; src_done = false })
  ask_src _ r = ok r

  abbrev pub ask_dest : EntryDetails → Round → Outcome SyncError Round
  ask_dest folder r = do
    comms ← send_command (get_entries (r.ctx.filters)) r.ctx.dest_comms
    ok (record r { ctx = record (r.ctx) { dest_comms = comms }; dest_done = false })
  ask_dest _ r = ok r

  unfoldable pub begin_dest : Option EntryDetails → Round → Outcome SyncError Round
  begin_dest none r = ok r
  begin_dest (some d) r = do
    (ctx, query) ← process_dest_entry r.ctx root d differentiates r.query
    ask_dest d (record r { ctx = ctx; query = query })

  unfoldable pub begin : SyncContext → EntryDetails → Option EntryDetails → Outcome SyncError Round
  unfolding begin_dest
  begin ctx src_root dest_root = do
    (ctx', query) ← process_src_entry log10 ctx root src_root differentiates empty_query
    r ← ask_src src_root (record { ctx = ctx'; query = query; src_done = true; dest_done = true })
    begin_dest dest_root r

  -- The end of the phase: the counts of entries, and the deletions in reverse order.
  unfoldable pub finish : Round → SyncContext × Actions
  finish r = (
    record (r.ctx) {
      stats = record (r.ctx.stats) {
        num_src_entries = OrderedMap.len r.query.src_entries % u32_mod;
        num_dest_entries = OrderedMap.len r.query.dest_entries % u32_mod;
      };
    },
    record { to_delete = OrderedMap.reverse_order r.query.to_delete; to_copy = r.query.to_copy },
  )

  unfoldable pub query_entries :
      SyncContext
      → EntryDetails
      → Option EntryDetails
      → List Pick
      → Outcome SyncError (SyncContext × Actions)
  unfolding begin loop finish
  query_entries ctx src_root dest_root picks = do
    started ← begin ctx src_root dest_root
    r ← loop picks started
    ok (finish r)
