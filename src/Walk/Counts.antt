-- ===== src/Walk/Counts.antt =====
-- What is left to do, and what the counter counts.
use rjrssync.Common.{
  ℕ, zero, suc, ◌+◌, List, [], ◌∷◌, ◌++◌, if◌then◌else◌, nat_beq, ◌≡◌, refl, arith, ◌⊎◌, inr,
}
use rjrssync.Walk.{
  at_path, unreadable, readable, no_items, failing, skipped, plain, sub_folder, Job, dir, done,
  Found, entry, entry_error, dir_error, Worker, waiting, working, adding, announcing, finishing,
  stopping, stopped, Shared, worker_main, take_job, fetch_sub,
}

-- The jobs in the queue, those in the hands of a worker, and the folders that could not be read.
abbrev pub queued : List Job → ℕ
queued [] = 0
queued (dir d ∷ js) = suc (queued js)
queued (done ∷ js) = queued js

abbrev pub held : Worker → ℕ
held waiting = 0
held (working items) = 1
held (adding d items) = 1
held (announcing d items) = 2
held finishing = 1
held (stopping n) = 0
held stopped = 0

abbrev pub failed : List Found → ℕ
failed [] = 0
failed (dir_error e ∷ rs) = suc (failed rs)
failed (entry_error e ∷ rs) = failed rs
failed (entry p ∷ rs) = failed rs

-- The signs of the end: `Done` in the queue, and workers that send it or have taken it.
abbrev pub dones : List Job → ℕ
dones [] = 0
dones (dir d ∷ js) = dones js
dones (done ∷ js) = suc (dones js)

abbrev pub ending : Worker → ℕ
ending (stopping n) = 1
ending stopped = 1
ending waiting = 0
ending (working items) = 0
ending (adding d items) = 0
ending (announcing d items) = 0
ending finishing = 0

-- The counter counts the jobs queued and held, and the folders that could not be read; and if there
-- is a sign of the end, it is 0. `others` are the jobs and the signs of the other workers.
pub record Counted (others other_ends : ℕ) (s : Shared) (w : Worker) : Type 0 where
  pub counted : s.num_unfinished_jobs ≡ queued s.queue + (held w + others) + failed s.results
  pub over : (dones s.queue + (ending w + other_ends) ≡ 0) ⊎ (s.num_unfinished_jobs ≡ 0)

pub queued-append : (xs ys : List Job) → queued (xs ++ ys) ≡ queued xs + queued ys
queued-append [] ys = omega arith
queued-append (dir d ∷ xs) ys = omega (arith, queued-append xs ys)
queued-append (done ∷ xs) ys = omega (arith, queued-append xs ys)

pub dones-append : (xs ys : List Job) → dones (xs ++ ys) ≡ dones xs + dones ys
dones-append [] ys = omega arith
dones-append (dir d ∷ xs) ys = omega (arith, dones-append xs ys)
dones-append (done ∷ xs) ys = omega (arith, dones-append xs ys)

module _ (num_threads : ℕ) where
  -- A turn of a worker keeps the count.
  pub worker_main-Counted :
      (others other_ends : ℕ) (w : Worker) (s : Shared)
      → Counted others other_ends s w
      → let (s', w') = worker_main num_threads w s in Counted others other_ends s' w'
  unfolding worker_main
  worker_main-Counted others other_ends waiting s x = take s.queue refl
    where
      take :
          (queue : List Job)
          → s.queue ≡ queue
          → let (s', w') = take_job queue s in Counted others other_ends s' w'
      take [] e = x
      take (done ∷ queue) e = record {
        counted = ground (arith, x.counted);
        over = inr (ground (arith, x.over));
      }
      take (dir (at_path path (unreadable err)) ∷ queue) e = record {
        counted = ground (arith, x.counted);
        over = ground (arith, x.over);
      }
      take (dir (at_path path (readable items)) ∷ queue) e = record {
        counted = ground (arith, x.counted);
        over = ground (arith, x.over);
      }
  worker_main-Counted others other_ends (working no_items) s x = record {
    counted = x.counted;
    over = x.over;
  }
  worker_main-Counted others other_ends (working (failing err items)) s x = record {
    counted = x.counted;
    over = x.over;
  }
  worker_main-Counted others other_ends (working (skipped items)) s x = record {
    counted = x.counted;
    over = x.over;
  }
  worker_main-Counted others other_ends (working (plain path items)) s x = record {
    counted = x.counted;
    over = x.over;
  }
  worker_main-Counted others other_ends (working (sub_folder d items)) s x = record {
    counted = x.counted;
    over = x.over;
  }
  worker_main-Counted others other_ends (adding d items) s x = record {
    counted = omega (arith, x.counted);
    over = ground (arith, x.over, x.counted);
  }
  worker_main-Counted others other_ends (announcing d items) s x = record {
    counted = omega (arith, x.counted, queued-append s.queue (dir d ∷ []));
    over = ground (arith, x.over, x.counted, dones-append s.queue (dir d ∷ []));
  }
  worker_main-Counted others other_ends finishing s x = finish s.num_unfinished_jobs refl
    where
      finish :
          (n : ℕ)
          → s.num_unfinished_jobs ≡ n
          → Counted others other_ends
              (record s { num_unfinished_jobs = fetch_sub n })
              (if nat_beq n 1 then stopping num_threads else waiting)
      finish zero e = absurd (omega (arith, e, x.counted))
      finish (suc zero) e = record { counted = omega (arith, e, x.counted); over = inr refl }
      finish (suc (suc n)) e = record {
        counted = ground (arith, e, x.counted);
        over = ground (arith, e, x.over);
      }
  worker_main-Counted others other_ends (stopping zero) s x = record {
    counted = x.counted;
    over = ground (arith, x.over);
  }
  worker_main-Counted others other_ends (stopping (suc n)) s x = record {
    counted = omega (arith, x.counted, queued-append s.queue (done ∷ []));
    over = inr (ground (arith, x.over));
  }
  worker_main-Counted others other_ends stopped s x = x
