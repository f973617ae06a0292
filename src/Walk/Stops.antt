-- ===== src/Walk/Stops.antt =====
-- When no worker can go on, all have stopped.
use rjrssync.Common.{
  ℕ, zero, suc, ◌+◌, ◌≤◌, List, [], ◌∷◌, length, All, ◌≡◌, refl, ap, ◌∙◌, arith, nat_beq,
  if◌then◌else◌,
}
use rjrssync.Walk.{
  Folder, at_path, unreadable, readable, no_items, failing, skipped, plain, sub_folder, Job, dir,
  done, Worker, waiting, working, adding, announcing, finishing, stopping, stopped, Shared,
  worker_main, take_job, turn, run, workers, initial, parallel_walk_dir, fetch_sub,
}
use rjrssync.Walk.Counts.{queued, held, failed, dones, ending, Counted, dones-append}
use rjrssync.Walk.Ends.{
  all_held, all_ending, AllCounted, one_of, put_aside, turn-AllCounted,
  parallel_walk_dir-AllCounted,
}
use rjrssync.Walk.Finishes.{acts}

-- The `Done`s that a worker still has to send, and the one that it has taken.
abbrev tokens : Worker → ℕ
tokens (stopping n) = n
tokens stopped = 1
tokens waiting = 0
tokens (working items) = 0
tokens (adding d items) = 0
tokens (announcing d items) = 0
tokens finishing = 0

abbrev all_tokens : List Worker → ℕ
all_tokens [] = 0
all_tokens (w ∷ ws) = tokens w + all_tokens ws

-- Once the counter is 0 there is one `Done` for each thread: in the queue, to be sent, or taken.
record Tokens (num_threads others other_ends : ℕ) (s : Shared) (w : Worker) : Type 0 where
  pub enough : s.num_unfinished_jobs ≡ 0 → dones s.queue + (tokens w + others) ≡ num_threads
  pub none_early : other_ends ≡ 0 → others ≡ 0

module _ (num_threads : ℕ) where
  worker_main-Tokens :
      (others other_jobs other_ends : ℕ) (w : Worker) (s : Shared)
      → Counted other_jobs other_ends s w
      → Tokens num_threads others other_ends s w
      → let (s', w') = worker_main num_threads w s in Tokens num_threads others other_ends s' w'
  unfolding worker_main
  worker_main-Tokens others other_jobs other_ends waiting s c x = take s.queue refl
    where
      take :
          (queue : List Job)
          → s.queue ≡ queue
          → let (s', w') = take_job queue s in Tokens num_threads others other_ends s' w'
      take [] e = record { enough = x.enough; none_early = x.none_early }
      take (done ∷ queue) e = record {
        enough = λ h. omega (arith, x.enough h, ap dones e);
        none_early = x.none_early;
      }
      take (dir (at_path path (unreadable err)) ∷ queue) e = record {
        enough = λ h. omega (arith, x.enough h, ap dones e);
        none_early = x.none_early;
      }
      take (dir (at_path path (readable items)) ∷ queue) e = record {
        enough = λ h. omega (arith, x.enough h, ap dones e);
        none_early = x.none_early;
      }
  worker_main-Tokens others other_jobs other_ends (working no_items) s c x = record {
    enough = x.enough;
    none_early = x.none_early;
  }
  worker_main-Tokens others other_jobs other_ends (working (failing err items)) s c x = record {
    enough = x.enough;
    none_early = x.none_early;
  }
  worker_main-Tokens others other_jobs other_ends (working (skipped items)) s c x = record {
    enough = x.enough;
    none_early = x.none_early;
  }
  worker_main-Tokens others other_jobs other_ends (working (plain path items)) s c x = record {
    enough = x.enough;
    none_early = x.none_early;
  }
  worker_main-Tokens others other_jobs other_ends (working (sub_folder d items)) s c x = record {
    enough = x.enough;
    none_early = x.none_early;
  }
  worker_main-Tokens others other_jobs other_ends (adding d items) s c x = record {
    enough = λ h. absurd (omega (arith, h));
    none_early = x.none_early;
  }
  worker_main-Tokens others other_jobs other_ends (announcing d items) s c x = record {
    enough = λ h. omega (arith, x.enough h, dones-append s.queue (dir d ∷ []));
    none_early = x.none_early;
  }
  worker_main-Tokens others other_jobs other_ends finishing s c x =
      finish s.num_unfinished_jobs refl
    where
      finish :
          (n : ℕ)
          → s.num_unfinished_jobs ≡ n
          → Tokens num_threads others other_ends
              (record s { num_unfinished_jobs = fetch_sub n })
              (if nat_beq n 1 then stopping num_threads else waiting)
      finish zero e = absurd (omega (arith, e, c.counted))
      finish (suc zero) e = record {
        enough = λ h. ground (arith, c.over, e, x.none_early);
        none_early = x.none_early;
      }
      finish (suc (suc n)) e = record {
        enough = λ h. absurd (ground (arith, h));
        none_early = x.none_early;
      }
  worker_main-Tokens others other_jobs other_ends (stopping zero) s c x = record {
    enough = x.enough;
    none_early = x.none_early;
  }
  worker_main-Tokens others other_jobs other_ends (stopping (suc n)) s c x = record {
    enough = λ h. omega (arith, x.enough h, dones-append s.queue (done ∷ []));
    none_early = x.none_early;
  }
  worker_main-Tokens others other_jobs other_ends stopped s c x = x

ending-tokens : (w : Worker) → ending w ≡ 0 → tokens w ≡ 0
ending-tokens (stopping n) h = absurd (omega (arith, h))
ending-tokens stopped h = absurd (omega (arith, h))
ending-tokens waiting h = refl
ending-tokens (working items) h = refl
ending-tokens (adding d items) h = refl
ending-tokens (announcing d items) h = refl
ending-tokens finishing h = refl

all_ending-tokens : (ws : List Worker) → all_ending ws ≡ 0 → all_tokens ws ≡ 0
all_ending-tokens [] h = refl
all_ending-tokens (w ∷ ws) h =
    omega (arith, ending-tokens w (omega (arith, h)), all_ending-tokens ws (omega (arith, h)))

record AllTokens (num_threads others other_ends : ℕ) (ws : List Worker) (s : Shared) : Type 0 where
  pub enough : s.num_unfinished_jobs ≡ 0 → dones s.queue + (all_tokens ws + others) ≡ num_threads
  pub none_early : other_ends ≡ 0 → others ≡ 0

module _ (num_threads : ℕ) where
  turn-AllTokens :
      (i : ℕ) (ws : List Worker) (others other_jobs other_ends : ℕ) (s : Shared)
      → AllCounted other_jobs other_ends ws s
      → AllTokens num_threads others other_ends ws s
      → let (s', ws') = turn num_threads i ws s in AllTokens num_threads others other_ends ws' s'
  unfolding turn
  turn-AllTokens i [] others other_jobs other_ends s c x = x
  turn-AllTokens zero (w ∷ ws) others other_jobs other_ends s c x =
      let y =
        worker_main-Tokens num_threads (all_tokens ws + others) (all_held ws + other_jobs)
          (all_ending ws + other_ends) w s (one_of w ws other_jobs other_ends s c)
          (record {
            enough = λ h. omega (arith, x.enough h);
            none_early = λ h.
                omega
                  (arith, all_ending-tokens ws (omega (arith, h)), x.none_early (omega (arith, h)));
          }) in
      record { enough = λ h. omega (arith, y.enough h); none_early = x.none_early }
  turn-AllTokens (suc i) (w ∷ ws) others other_jobs other_ends s c x =
      let y =
        turn-AllTokens i ws (tokens w + others) (held w + other_jobs) (ending w + other_ends) s
          (put_aside w ws other_jobs other_ends s c)
          (record {
            enough = λ h. omega (arith, x.enough h);
            none_early = λ h.
                omega (arith, ending-tokens w (omega (arith, h)), x.none_early (omega (arith, h)));
          }) in
      record { enough = λ h. omega (arith, y.enough h); none_early = x.none_early }

  turn-length :
      (i : ℕ) (ws : List Worker) (s : Shared) → length (turn num_threads i ws s).1 ≡ length ws
  unfolding turn
  turn-length i [] s = refl
  turn-length zero (w ∷ ws) s = refl
  turn-length (suc i) (w ∷ ws) s = omega (arith, turn-length i ws s)

  run-AllTokens :
      (schedule : List ℕ) (ws : List Worker) (s : Shared)
      → AllCounted 0 0 ws s
      → AllTokens num_threads 0 0 ws s
      → let (s', ws') = run num_threads schedule ws s in
        AllTokens num_threads 0 0 ws' s' × (length ws' ≡ length ws)
  unfolding run
  run-AllTokens [] ws s c x = (x, refl)
  run-AllTokens (i ∷ schedule) ws s c x =
      let (y, same) =
        run-AllTokens schedule (turn num_threads i ws s).1 (turn num_threads i ws s).0
          (turn-AllCounted num_threads i ws 0 0 s c) (turn-AllTokens i ws 0 0 0 s c x) in
      (y, same ∙ turn-length i ws s)

length-workers : (n : ℕ) → length (workers n) ≡ n
length-workers zero = refl
length-workers (suc n) = omega (arith, length-workers n)

-- No worker does anything in a turn.
abbrev pub Stuck : List Worker → List Job → Type 0
Stuck ws js = All (λ w. acts w js ≡ 0) ws

Stuck-idle :
    (ws : List Worker) (js : List Job)
    → Stuck ws js
    → (all_held ws ≡ 0)
      × (all_tokens ws ≤ length ws)
      × (all_tokens ws ≡ length ws → All (λ w. w ≡ stopped) ws)
Stuck-idle [] js _ = (refl, omega arith, (λ h. tt))
Stuck-idle (waiting ∷ ws) js (h, hs) =
    let (a, b, c) = Stuck-idle ws js hs in
    (omega (arith, a), omega (arith, b), (λ e. absurd (omega (arith, b, e))))
Stuck-idle (stopped ∷ ws) js (h, hs) =
    let (a, b, c) = Stuck-idle ws js hs in
    (omega (arith, a), omega (arith, b), (λ e. (refl, c (omega (arith, e)))))
Stuck-idle (working items ∷ ws) js (h, hs) = absurd (omega (arith, h))
Stuck-idle (adding d items ∷ ws) js (h, hs) = absurd (omega (arith, h))
Stuck-idle (announcing d items ∷ ws) js (h, hs) = absurd (omega (arith, h))
Stuck-idle (finishing ∷ ws) js (h, hs) = absurd (omega (arith, h))
Stuck-idle (stopping n ∷ ws) js (h, hs) = absurd (omega (arith, h))

-- With jobs in the queue nobody waits.
Stuck-at_jobs :
    (ws : List Worker) (j : Job) (js : List Job) → Stuck ws (j ∷ js) → All (λ w. w ≡ stopped) ws
Stuck-at_jobs [] j js _ = tt
Stuck-at_jobs (stopped ∷ ws) j js (h, hs) = (refl, Stuck-at_jobs ws j js hs)
Stuck-at_jobs (waiting ∷ ws) j js (h, hs) = absurd (omega (arith, h))
Stuck-at_jobs (working items ∷ ws) j js (h, hs) = absurd (omega (arith, h))
Stuck-at_jobs (adding d items ∷ ws) j js (h, hs) = absurd (omega (arith, h))
Stuck-at_jobs (announcing d items ∷ ws) j js (h, hs) = absurd (omega (arith, h))
Stuck-at_jobs (finishing ∷ ws) j js (h, hs) = absurd (omega (arith, h))
Stuck-at_jobs (stopping n ∷ ws) j js (h, hs) = absurd (omega (arith, h))

-- The workers never wait for each other: if every folder so far could be read, and no worker does
-- anything in its turn, then all have stopped.
pub parallel_walk_dir_stops :
    (root : Folder) (num_threads : ℕ) (schedule : List ℕ)
    → failed (parallel_walk_dir root num_threads schedule).0.results ≡ 0
    → Stuck
        (parallel_walk_dir root num_threads schedule).1
        (parallel_walk_dir root num_threads schedule).0.queue
    → All (λ w. w ≡ stopped) (parallel_walk_dir root num_threads schedule).1
unfolding parallel_walk_dir
parallel_walk_dir_stops root num_threads schedule all_read stuck =
    let (s, ws) = parallel_walk_dir root num_threads schedule in
    let (t, same) =
      run-AllTokens num_threads schedule (workers num_threads) (initial root)
        (parallel_walk_dir-AllCounted root num_threads [])
        (record { enough = λ h. absurd (omega (arith, h)); none_early = λ h. refl }) in
    by_queue s.queue s ws refl (parallel_walk_dir-AllCounted root num_threads schedule) t
      (same ∙ length-workers num_threads) all_read stuck
  where
    by_queue :
        (queue : List Job) (s : Shared) (ws : List Worker)
        → s.queue ≡ queue
        → AllCounted 0 0 ws s
        → AllTokens num_threads 0 0 ws s
        → length ws ≡ num_threads
        → failed s.results ≡ 0
        → Stuck ws s.queue
        → All (λ w. w ≡ stopped) ws
    by_queue (j ∷ js) s ws e c t n f stuck = Stuck-at_jobs ws j js (rw e at stuck)
    by_queue [] s ws e c t n f stuck =
        let (idle, few, all) = Stuck-idle ws s.queue stuck in
        let over : s.num_unfinished_jobs ≡ 0 = omega (arith, c.counted, idle, f, ap queued e) in
        all (omega (arith, t.enough over, ap dones e, n))
