-- ===== src/Walk/Ends.antt =====
-- The walk ends only when everything has been found, and never if a folder could not be read.
use rjrssync.Common.{
  ℕ, zero, suc, ◌+◌, Bool, List, [], ◌∷◌, ◌++◌, Str, if◌then◌else◌, ◌≡◌, refl, arith, ◌⊎◌, inl,
}
use rjrssync.Walk.{
  Folder, at_path, Listing, unreadable, readable, Items, no_items, failing, skipped, plain,
  sub_folder, path_of, Job, dir, done, Found, entry, entry_error, dir_error, Worker, waiting,
  working, adding, announcing, finishing, stopping, stopped, Shared, worker_main, take_job, turn,
  run, workers, initial, parallel_walk_dir,
}
use rjrssync.Walk.Counts.{queued, held, failed, dones, ending, Counted, worker_main-Counted}

-- The jobs and the signs of the end of all workers.
abbrev pub all_held : List Worker → ℕ
all_held [] = 0
all_held (w ∷ ws) = held w + all_held ws

abbrev pub all_ending : List Worker → ℕ
all_ending [] = 0
all_ending (w ∷ ws) = ending w + all_ending ws

pub record AllCounted (others other_ends : ℕ) (ws : List Worker) (s : Shared) : Type 0 where
  pub counted : s.num_unfinished_jobs ≡ queued s.queue + (all_held ws + others) + failed s.results
  pub over : (dones s.queue + (all_ending ws + other_ends) ≡ 0) ⊎ (s.num_unfinished_jobs ≡ 0)

pub one_of :
    (w : Worker) (ws : List Worker) (others other_ends : ℕ) (s : Shared)
    → AllCounted others other_ends (w ∷ ws) s
    → Counted (all_held ws + others) (all_ending ws + other_ends) s w
one_of w ws others other_ends s x = record {
  counted = omega (arith, x.counted);
  over = ground (arith, x.over);
}

back_to_all :
    (w : Worker) (ws : List Worker) (others other_ends : ℕ) (s : Shared)
    → Counted (all_held ws + others) (all_ending ws + other_ends) s w
    → AllCounted others other_ends (w ∷ ws) s
back_to_all w ws others other_ends s x = record {
  counted = omega (arith, x.counted);
  over = ground (arith, x.over);
}

pub put_aside :
    (w : Worker) (ws : List Worker) (others other_ends : ℕ) (s : Shared)
    → AllCounted others other_ends (w ∷ ws) s
    → AllCounted (held w + others) (ending w + other_ends) ws s
put_aside w ws others other_ends s x = record {
  counted = omega (arith, x.counted);
  over = ground (arith, x.over);
}

put_back :
    (w : Worker) (ws : List Worker) (others other_ends : ℕ) (s : Shared)
    → AllCounted (held w + others) (ending w + other_ends) ws s
    → AllCounted others other_ends (w ∷ ws) s
put_back w ws others other_ends s x = record {
  counted = omega (arith, x.counted);
  over = ground (arith, x.over);
}

module _ (num_threads : ℕ) where
  pub turn-AllCounted :
      (i : ℕ) (ws : List Worker) (others other_ends : ℕ) (s : Shared)
      → AllCounted others other_ends ws s
      → let (s', ws') = turn num_threads i ws s in AllCounted others other_ends ws' s'
  unfolding turn
  turn-AllCounted i [] others other_ends s x = x
  turn-AllCounted zero (w ∷ ws) others other_ends s x =
      back_to_all (worker_main num_threads w s).1 ws others other_ends
        (worker_main num_threads w s).0
        (worker_main-Counted num_threads (all_held ws + others) (all_ending ws + other_ends) w s
          (one_of w ws others other_ends s x))
  turn-AllCounted (suc i) (w ∷ ws) others other_ends s x =
      put_back w (turn num_threads i ws s).1 others other_ends (turn num_threads i ws s).0 (
        turn-AllCounted i ws (held w + others) (ending w + other_ends) s
          (put_aside w ws others other_ends s x))

  run-AllCounted :
      (schedule : List ℕ) (ws : List Worker) (s : Shared)
      → AllCounted 0 0 ws s
      → let (s', ws') = run num_threads schedule ws s in AllCounted 0 0 ws' s'
  unfolding run
  run-AllCounted [] ws s x = x
  run-AllCounted (i ∷ schedule) ws s x =
      run-AllCounted schedule (turn num_threads i ws s).1 (turn num_threads i ws s).0
        (turn-AllCounted i ws 0 0 s x)

workers_idle : (n : ℕ) → (all_held (workers n) ≡ 0) × (all_ending (workers n) ≡ 0)
workers_idle zero = (refl, refl)
workers_idle (suc n) = (omega (arith, workers_idle n), omega (arith, workers_idle n))

-- Whatever the schedule, the counter counts the folders that wait to be read or are being read, and
-- besides those that could not be read; and once a worker sends or has taken `Done`, it is 0.
pub parallel_walk_dir-AllCounted :
    (root : Folder) (num_threads : ℕ) (schedule : List ℕ)
    → let (s, ws) = parallel_walk_dir root num_threads schedule in AllCounted 0 0 ws s
unfolding parallel_walk_dir
parallel_walk_dir-AllCounted root num_threads schedule =
    let (idle, quiet) = workers_idle num_threads in
    run-AllCounted num_threads schedule (workers num_threads) (initial root)
      (record { counted = omega (arith, idle); over = inl (omega (arith, quiet)) })

-- How many entries whose path passes a test there are below a folder, among what has been found, and
-- in what is left to do.
module _ (test : Str → Bool) where
  abbrev pub passes : Str → ℕ
  passes p = if test p then 1 else 0

  abbrev mutual
    pub below : Folder → ℕ
    below (at_path p l) = below_listing l

    pub below_listing : Listing → ℕ
    below_listing (unreadable e) = 0
    below_listing (readable items) = below_items items

    pub below_items : Items → ℕ
    below_items no_items = 0
    below_items (failing e items) = below_items items
    below_items (skipped items) = below_items items
    below_items (plain p items) = passes p + below_items items
    below_items (sub_folder d items) = passes (path_of d) + (below d + below_items items)

  abbrev pub found : List Found → ℕ
  found [] = 0
  found (entry p ∷ rs) = passes p + found rs
  found (entry_error e ∷ rs) = found rs
  found (dir_error e ∷ rs) = found rs

  abbrev pub to_find : List Job → ℕ
  to_find [] = 0
  to_find (dir d ∷ js) = below d + to_find js
  to_find (done ∷ js) = to_find js

  abbrev pub in_hand : Worker → ℕ
  in_hand waiting = 0
  in_hand (working items) = below_items items
  in_hand (adding d items) = below d + below_items items
  in_hand (announcing d items) = below d + below_items items
  in_hand finishing = 0
  in_hand (stopping n) = 0
  in_hand stopped = 0

  abbrev pub in_hands : List Worker → ℕ
  in_hands [] = 0
  in_hands (w ∷ ws) = in_hand w + in_hands ws

  to_find-append : (xs ys : List Job) → to_find (xs ++ ys) ≡ to_find xs + to_find ys
  to_find-append [] ys = omega arith
  to_find-append (dir d ∷ xs) ys = omega (arith, to_find-append xs ys)
  to_find-append (done ∷ xs) ys = omega (arith, to_find-append xs ys)

  -- A turn moves entries from what is left to what has been found, and loses none.
  pub worker_main-found :
      (num_threads : ℕ) (w : Worker) (s : Shared)
      → let (s', w') = worker_main num_threads w s in
        found s'.results + to_find s'.queue + in_hand w'
        ≡ found s.results + to_find s.queue + in_hand w
  unfolding worker_main
  worker_main-found num_threads waiting s = take s.queue refl
    where
      take :
          (queue : List Job)
          → s.queue ≡ queue
          → let (s', w') = take_job queue s in
            found s'.results + to_find s'.queue + in_hand w' ≡ found s.results + to_find s.queue + 0
      take [] e = refl
      take (done ∷ queue) e = ground arith
      take (dir (at_path path (unreadable err)) ∷ queue) e = ground arith
      take (dir (at_path path (readable items)) ∷ queue) e = ground arith
  worker_main-found num_threads (working no_items) s = refl
  worker_main-found num_threads (working (failing err items)) s = refl
  worker_main-found num_threads (working (skipped items)) s = refl
  worker_main-found num_threads (working (plain path items)) s = omega arith
  worker_main-found num_threads (working (sub_folder d items)) s = omega arith
  worker_main-found num_threads (adding d items) s = refl
  worker_main-found num_threads (announcing d items) s =
      omega (arith, to_find-append s.queue (dir d ∷ []))
  worker_main-found num_threads finishing s = ground arith
  worker_main-found num_threads (stopping zero) s = refl
  worker_main-found num_threads (stopping (suc n)) s =
      omega (arith, to_find-append s.queue (done ∷ []))
  worker_main-found num_threads stopped s = refl
