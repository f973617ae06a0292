-- ===== src/Walk/Complete.antt =====
-- A walk that ends has found every entry.
use rjrssync.Common.{ℕ, zero, suc, ◌+◌, ◌<◌, Bool, List, [], ◌∷◌, Str, ◌≡◌, refl, ◌∙◌, arith}
use rjrssync.Walk.{
  Folder, Job, dir, done, Worker, waiting, working, adding, announcing, finishing, stopping,
  stopped, Shared, turn, run, workers, initial, parallel_walk_dir,
}
use rjrssync.Walk.Counts.{queued, failed}
use rjrssync.Walk.Ends.{
  all_held, all_ending, AllCounted, parallel_walk_dir-AllCounted, below, found, to_find, in_hands,
  worker_main-found,
}

module _ (test : Str → Bool) (num_threads : ℕ) where
  turn-found :
      (i : ℕ) (ws : List Worker) (s : Shared)
      → let (s', ws') = turn num_threads i ws s in
        found test s'.results + to_find test s'.queue + in_hands test ws'
        ≡ found test s.results + to_find test s.queue + in_hands test ws
  unfolding turn
  turn-found i [] s = refl
  turn-found zero (w ∷ ws) s = omega (arith, worker_main-found test num_threads w s)
  turn-found (suc i) (w ∷ ws) s = omega (arith, turn-found i ws s)

  run-found :
      (schedule : List ℕ) (ws : List Worker) (s : Shared)
      → let (s', ws') = run num_threads schedule ws s in
        found test s'.results + to_find test s'.queue + in_hands test ws'
        ≡ found test s.results + to_find test s.queue + in_hands test ws
  unfolding run
  run-found [] ws s = refl
  run-found (i ∷ schedule) ws s =
      run-found schedule (turn num_threads i ws s).1 (turn num_threads i ws s).0 ∙ turn-found i ws s

nothing_queued : (test : Str → Bool) (js : List Job) → queued js ≡ 0 → to_find test js ≡ 0
nothing_queued test [] h = refl
nothing_queued test (dir d ∷ js) h = absurd (omega (arith, h))
nothing_queued test (done ∷ js) h = nothing_queued test js h

nothing_held : (test : Str → Bool) (ws : List Worker) → all_held ws ≡ 0 → in_hands test ws ≡ 0
nothing_held test [] h = refl
nothing_held test (waiting ∷ ws) h = omega (arith, h, nothing_held test ws (omega (arith, h)))
nothing_held test (working items ∷ ws) h = absurd (omega (arith, h))
nothing_held test (adding d items ∷ ws) h = absurd (omega (arith, h))
nothing_held test (announcing d items ∷ ws) h = absurd (omega (arith, h))
nothing_held test (finishing ∷ ws) h = absurd (omega (arith, h))
nothing_held test (stopping n ∷ ws) h = omega (arith, h, nothing_held test ws (omega (arith, h)))
nothing_held test (stopped ∷ ws) h = omega (arith, h, nothing_held test ws (omega (arith, h)))

idle_hands : (test : Str → Bool) (n : ℕ) → in_hands test (workers n) ≡ 0
idle_hands test zero = refl
idle_hands test (suc n) = omega (arith, idle_hands test n)

-- Whatever the number of threads and the schedule: once a worker sends or has taken `Done`, every
-- folder could be read, no folder is left, and every entry that the filters let through has been sent
-- to the caller just as often as it is there. So a walk with a folder that cannot be read never ends.
pub parallel_walk_dir_complete :
    (root : Folder) (num_threads : ℕ) (schedule : List ℕ)
    → 0 < all_ending (parallel_walk_dir root num_threads schedule).1
    → let (s, ws) = parallel_walk_dir root num_threads schedule in
      (failed s.results ≡ 0)
      × (queued s.queue ≡ 0)
      × ((test : Str → Bool) → found test s.results ≡ below test root)
unfolding parallel_walk_dir
parallel_walk_dir_complete root num_threads schedule ended =
    let (s, ws) = parallel_walk_dir root num_threads schedule in
    complete s ws (parallel_walk_dir-AllCounted root num_threads schedule) ended (λ test.
      run-found test num_threads schedule (workers num_threads) (initial root)
      ∙ omega (arith, idle_hands test num_threads))
  where
    complete :
        (s : Shared) (ws : List Worker)
        → AllCounted 0 0 ws s
        → 0 < all_ending ws
        → ((test : Str → Bool)
            → found test s.results + to_find test s.queue + in_hands test ws ≡ below test root)
        → (failed s.results ≡ 0)
          × (queued s.queue ≡ 0)
          × ((test : Str → Bool) → found test s.results ≡ below test root)
    complete s ws x ended all =
        let over : s.num_unfinished_jobs ≡ 0 = ground (arith, x.over, ended) in
        let none_queued : queued s.queue ≡ 0 = omega (arith, over, x.counted) in
        let none_held : all_held ws ≡ 0 = omega (arith, over, x.counted) in
        (
          omega (arith, over, x.counted),
          none_queued,
          λ test. omega (
            arith,
            all test,
            nothing_queued test s.queue none_queued,
            nothing_held test ws none_held,
          ),
        )
