-- ===== src/Walk/Finishes.antt =====
-- The walk takes a bounded number of turns, and comes to an end.
use rjrssync.Common.{
  ℕ, zero, suc, ◌+◌, ◌*◌, ◌<◌, ◌≤◌, List, [], ◌∷◌, ◌++◌, if◌then◌else◌, ◌≡◌, refl, ap, arith,
  nat_beq,
}
use rjrssync.Walk.{
  Folder, at_path, Listing, unreadable, readable, Items, no_items, failing, skipped, plain,
  sub_folder, Job, dir, done, Worker, waiting, working, adding, announcing, finishing, stopping,
  stopped, Shared, worker_main, take_job, turn, workers, initial, parallel_walk_dir, fetch_sub,
}
use rjrssync.Walk.Counts.{held, Counted, ending}
use rjrssync.Walk.Ends.{
  all_held, all_ending, AllCounted, one_of, put_aside, turn-AllCounted,
  parallel_walk_dir-AllCounted,
}

-- How many turns a folder is worth at most.
abbrev mutual
  pub turns : Folder → ℕ
  turns (at_path p l) = turns_listing l

  pub turns_listing : Listing → ℕ
  turns_listing (unreadable e) = 1
  turns_listing (readable items) = 3 + turns_items items

  pub turns_items : Items → ℕ
  turns_items no_items = 0
  turns_items (failing e items) = 1 + turns_items items
  turns_items (skipped items) = 1 + turns_items items
  turns_items (plain p items) = 1 + turns_items items
  turns_items (sub_folder d items) = 3 + (turns d + turns_items items)

abbrev turns_queued : List Job → ℕ
turns_queued [] = 0
turns_queued (dir d ∷ js) = turns d + turns_queued js
turns_queued (done ∷ js) = 1 + turns_queued js

abbrev turns_of : Worker → ℕ
turns_of waiting = 0
turns_of (working items) = 2 + turns_items items
turns_of (adding d items) = 4 + (turns d + turns_items items)
turns_of (announcing d items) = 3 + (turns d + turns_items items)
turns_of finishing = 1
turns_of (stopping n) = 1 + 2 * n
turns_of stopped = 0

abbrev turns_of_all : List Worker → ℕ
turns_of_all [] = 0
turns_of_all (w ∷ ws) = turns_of w + turns_of_all ws

-- The turns for sending `Done` to every worker, while there are jobs.
abbrev reserve : ℕ → ℕ → ℕ
reserve num_threads n = if nat_beq n 0 then 0 else 1 + 2 * num_threads

abbrev bound : ℕ → Shared → ℕ
bound num_threads s = turns_queued s.queue + reserve num_threads s.num_unfinished_jobs

turns_queued-append :
    (xs ys : List Job) → turns_queued (xs ++ ys) ≡ turns_queued xs + turns_queued ys
turns_queued-append [] ys = omega arith
turns_queued-append (dir d ∷ xs) ys = omega (arith, turns_queued-append xs ys)
turns_queued-append (done ∷ xs) ys = omega (arith, turns_queued-append xs ys)

turns_pos : (d : Folder) → 0 < turns d
turns_pos (at_path p (unreadable e)) = omega arith
turns_pos (at_path p (readable items)) = omega arith

-- Whether a worker does something in its turn: it does unless it waits for a job or has stopped.
abbrev pub acts : Worker → List Job → ℕ
acts waiting [] = 0
acts waiting (j ∷ js) = 1
acts (working items) js = 1
acts (adding d items) js = 1
acts (announcing d items) js = 1
acts finishing js = 1
acts (stopping n) js = 1
acts stopped js = 0

module _ (num_threads : ℕ) where
  worker_main_progress :
      (others other_ends : ℕ) (w : Worker) (s : Shared)
      → Counted others other_ends s w
      → let (s', w') = worker_main num_threads w s in
        acts w s.queue + (bound num_threads s' + turns_of w') ≤ bound num_threads s + turns_of w
  unfolding worker_main
  worker_main_progress others other_ends waiting s x = take s.queue refl
    where
      take :
          (queue : List Job)
          → s.queue ≡ queue
          → let (s', w') = take_job queue s in
            acts waiting queue + (bound num_threads s' + turns_of w') ≤ bound num_threads s + 0
      take [] e = omega arith
      take (done ∷ queue) e = omega (arith, ap turns_queued e)
      take (dir (at_path path (unreadable err)) ∷ queue) e = omega (arith, ap turns_queued e)
      take (dir (at_path path (readable items)) ∷ queue) e = omega (arith, ap turns_queued e)
  worker_main_progress others other_ends (working no_items) s x = omega arith
  worker_main_progress others other_ends (working (failing err items)) s x = omega arith
  worker_main_progress others other_ends (working (skipped items)) s x = omega arith
  worker_main_progress others other_ends (working (plain path items)) s x = omega arith
  worker_main_progress others other_ends (working (sub_folder d items)) s x = omega arith
  worker_main_progress others other_ends (adding d items) s x = add s.num_unfinished_jobs refl
    where
      add :
          (n : ℕ)
          → s.num_unfinished_jobs ≡ n
          → 1
              + (turns_queued s.queue
                  + reserve num_threads (n + 1)
                  + (3 + (turns d + turns_items items)))
            ≤ turns_queued s.queue + reserve num_threads n + (4 + (turns d + turns_items items))
      add zero e = absurd (omega (arith, e, x.counted))
      add (suc n) e = ground arith
  worker_main_progress others other_ends (announcing d items) s x =
      omega (arith, turns_queued-append s.queue (dir d ∷ []))
  worker_main_progress others other_ends finishing s x = finish s.num_unfinished_jobs refl
    where
      finish :
          (n : ℕ)
          → s.num_unfinished_jobs ≡ n
          → 1
              + (turns_queued s.queue
                  + reserve num_threads (fetch_sub n)
                  + turns_of (if nat_beq n 1 then stopping num_threads else waiting))
            ≤ turns_queued s.queue + reserve num_threads n + 1
      finish zero e = absurd (omega (arith, e, x.counted))
      finish (suc zero) e = ground arith
      finish (suc (suc n)) e = ground arith
  worker_main_progress others other_ends (stopping zero) s x = omega arith
  worker_main_progress others other_ends (stopping (suc n)) s x =
      omega (arith, turns_queued-append s.queue (done ∷ []))
  worker_main_progress others other_ends stopped s x = omega arith

  abbrev acts_at : ℕ → List Worker → List Job → ℕ
  acts_at i [] js = 0
  acts_at zero (w ∷ ws) js = acts w js
  acts_at (suc i) (w ∷ ws) js = acts_at i ws js

  turn_progress :
      (i : ℕ) (ws : List Worker) (others other_ends : ℕ) (s : Shared)
      → AllCounted others other_ends ws s
      → let (s', ws') = turn num_threads i ws s in
        acts_at i ws s.queue + (bound num_threads s' + turns_of_all ws')
        ≤ bound num_threads s + turns_of_all ws
  unfolding turn
  turn_progress i [] others other_ends s x = omega arith
  turn_progress zero (w ∷ ws) others other_ends s x = omega (
    arith,
    worker_main_progress (all_held ws + others) (all_ending ws + other_ends) w s
        (one_of w ws others other_ends s x),
  )
  turn_progress (suc i) (w ∷ ws) others other_ends s x = omega (
    arith,
    turn_progress i ws (held w + others) (ending w + other_ends) s
        (put_aside w ws others other_ends s x),
  )

  -- The turns of a schedule in which the worker does something.
  abbrev pub actions : List ℕ → List Worker → Shared → ℕ
  actions [] ws s = 0
  actions (i ∷ schedule) ws s =
      acts_at i ws s.queue
      + actions schedule (turn num_threads i ws s).1 (turn num_threads i ws s).0

  actions_bounded :
      (schedule : List ℕ) (ws : List Worker) (s : Shared)
      → AllCounted 0 0 ws s
      → actions schedule ws s ≤ bound num_threads s + turns_of_all ws
  actions_bounded [] ws s x = omega arith
  actions_bounded (i ∷ schedule) ws s x = omega (
    arith,
    turn_progress i ws 0 0 s x,
    actions_bounded schedule (turn num_threads i ws s).1 (turn num_threads i ws s).0
        (turn-AllCounted num_threads i ws 0 0 s x),
  )

idle_turns : (n : ℕ) → turns_of_all (workers n) ≡ 0
idle_turns zero = refl
idle_turns (suc n) = omega (arith, idle_turns n)

-- The walk of a folder takes a bounded number of steps: however the threads take turns, the turns in
-- which one of them does something are no more than the folder is worth, and those for the end.
pub parallel_walk_dir_bounded :
    (root : Folder) (num_threads : ℕ) (schedule : List ℕ)
    → actions num_threads schedule (workers num_threads) (initial root)
      ≤ turns root + (1 + 2 * num_threads)
unfolding parallel_walk_dir
parallel_walk_dir_bounded root num_threads schedule = omega (
  arith,
  idle_turns num_threads,
  actions_bounded num_threads schedule (workers num_threads) (initial root)
      (parallel_walk_dir-AllCounted root num_threads []),
)
