-- ===== src/Walk.antt =====
-- src/parallel_walk_dir.rs: the worker threads that list a folder together. A turn of a worker is what
-- it does up to its next access to what the threads share; a schedule says whose turn it is.
pub mod Counts
pub mod Ends
pub mod Complete
pub mod Finishes
pub mod Stops
use rjrssync.Common.{
  ℕ, zero, suc, ◌+◌, Bool, List, [], ◌∷◌, ◌++◌, Str, if◌then◌else◌, nat_beq, ◌-◌, u64_mod,
}

-- What is on the disk, which does not change during the walk: folders with what `read_dir` yields for
-- them. An entry fails if it cannot be read, its filter fails or its type is unknown; it is skipped if
-- the filters exclude it.
mutual
  pub data Folder : Type 0 where
    at_path : Str → Listing → Folder

  pub data Listing : Type 0 where
    unreadable : Str → Listing
    readable : Items → Listing

  pub data Items : Type 0 where
    no_items : Items
    failing : Str → Items → Items
    skipped : Items → Items
    plain : Str → Items → Items
    sub_folder : Folder → Items → Items

abbrev pub path_of : Folder → Str
path_of (at_path path _) = path

pub data Job : Type 0 where
  dir : Folder → Job
  done : Job

-- What the caller receives: an entry, the error of an entry, or that of a folder.
pub data Found : Type 0 where
  entry : Str → Found
  entry_error : Str → Found
  dir_error : Str → Found

-- Where a worker is: before `recv`; in the loop over the entries; behind the result of a folder, and
-- behind the `fetch_add` for it; before the `fetch_sub`; sending `Done`, so many times; out of the loop.
pub data Worker : Type 0 where
  waiting : Worker
  working : Items → Worker
  adding : Folder → Items → Worker
  announcing : Folder → Items → Worker
  finishing : Worker
  stopping : ℕ → Worker
  stopped : Worker

-- The job queue, the counter, and the results so far, the newest first. The bound of the result
-- channel is left out: the caller takes the results.
pub record Shared : Type 0 where
  pub queue : List Job
  pub num_unfinished_jobs : ℕ
  pub results : List Found

abbrev pub with_result : Found → Shared → Shared
with_result r s = record s { results = r ∷ s.results }

-- A folder that cannot be read is reported, and the worker waits for its next job at once.
abbrev pub start : Folder → Shared → Shared × Worker
start (at_path path (unreadable e)) s = (with_result (dir_error path) s, waiting)
start (at_path path (readable items)) s = (s, working items)

abbrev pub take_job : List Job → Shared → Shared × Worker
take_job [] s = (s, waiting)
take_job (dir d ∷ queue) s = start d (record s { queue = queue })
take_job (done ∷ queue) s = (record s { queue = queue }, stopped)

-- `fetch_sub(1)`, which wraps at 0. The counter cannot reach 2^64 by `fetch_add`: each of its jobs takes
-- memory.
abbrev pub fetch_sub : ℕ → ℕ
fetch_sub zero = u64_mod - 1
fetch_sub (suc n) = n

module _ (num_threads : ℕ) where
  unfoldable pub worker_main : Worker → Shared → Shared × Worker
  worker_main waiting s = take_job s.queue s
  worker_main (working no_items) s = (s, finishing)
  worker_main (working (failing e items)) s = (with_result (entry_error e) s, working items)
  worker_main (working (skipped items)) s = (s, working items)
  worker_main (working (plain path items)) s = (with_result (entry path) s, working items)
  worker_main (working (sub_folder d items)) s = (with_result (entry (path_of d)) s, adding d items)
  worker_main (adding d items) s =
      (record s { num_unfinished_jobs = s.num_unfinished_jobs + 1 }, announcing d items)
  worker_main (announcing d items) s = (record s { queue = s.queue ++ dir d ∷ [] }, working items)
  worker_main finishing s = (
    record s { num_unfinished_jobs = fetch_sub s.num_unfinished_jobs },
    if nat_beq s.num_unfinished_jobs 1 then stopping num_threads else waiting,
  )
  worker_main (stopping zero) s = (s, waiting)
  worker_main (stopping (suc n)) s = (record s { queue = s.queue ++ done ∷ [] }, stopping n)
  worker_main stopped s = (s, stopped)

  -- The turn of one of the workers.
  unfoldable pub turn : ℕ → List Worker → Shared → Shared × List Worker
  unfolding worker_main
  turn i [] s = (s, [])
  turn zero (w ∷ ws) s = let (s', w') = worker_main w s in (s', w' ∷ ws)
  turn (suc i) (w ∷ ws) s = let (s', ws') = turn i ws s in (s', w ∷ ws')

  unfoldable pub run : List ℕ → List Worker → Shared → Shared × List Worker
  unfolding turn
  run [] ws s = (s, ws)
  run (i ∷ schedule) ws s = let (s', ws') = turn i ws s in run schedule ws' s'

-- `for i in 0..num_threads`
abbrev pub workers : ℕ → List Worker
workers zero = []
workers (suc n) = waiting ∷ workers n

abbrev pub initial : Folder → Shared
initial root = record { queue = dir root ∷ []; num_unfinished_jobs = 1; results = [] }

unfoldable pub parallel_walk_dir : Folder → ℕ → List ℕ → Shared × List Worker
unfolding run
parallel_walk_dir root num_threads schedule =
    run num_threads schedule (workers num_threads) (initial root)
