-- ===== src/Tests/Walks.antt =====
-- The walk of a small folder by two threads.
use rjrssync.Common.{ℕ, ◌+◌, ◌*◌, ◌≤◌, Bool, List, [], ◌∷◌, All, Str, codes, ◌≡◌, refl, arith}
use rjrssync.Walk.{
  Folder, at_path, readable, no_items, plain, sub_folder, failing, Found, entry, entry_error,
  workers, initial, stopped, parallel_walk_dir,
}
use rjrssync.Walk.Complete.{parallel_walk_dir_complete}
use rjrssync.Walk.Counts.{queued, failed}
use rjrssync.Walk.Ends.{AllCounted, parallel_walk_dir-AllCounted, below, found}
use rjrssync.Walk.Finishes.{actions, turns, parallel_walk_dir_bounded}
use rjrssync.Walk.Stops.{parallel_walk_dir_stops}

-- A file, a folder with a file, and an entry that cannot be read.
abbrev inner : Folder
inner = at_path (codes "d") (readable (plain (codes "d/x") no_items))

abbrev root : Folder
root =
    at_path (codes "")
      (readable (plain (codes "a") (sub_folder inner (failing (codes "denied") no_items))))

-- The second thread reads the inner folder.
abbrev schedule : List ℕ
schedule =
    1 ∷ 0 ∷ 0 ∷ 0 ∷ 0 ∷ 0 ∷ 1 ∷ 1 ∷ 0 ∷ 0 ∷ 0 ∷ 1 ∷ 1 ∷ 1 ∷ 1 ∷ 1 ∷ 1 ∷ 0 ∷ 1 ∷ 0 ∷ 1 ∷ 1 ∷ 1 ∷ 1
    ∷ 1 ∷ 1 ∷ 0 ∷ []

abbrev results : List Found
results =
    entry (codes "d/x") ∷ entry_error (codes "denied") ∷ entry (codes "d") ∷ entry (codes "a") ∷ []

walk_run :
    ((parallel_walk_dir root 2 schedule).0.results ≡ results)
    × ((parallel_walk_dir root 2 schedule).1 ≡ stopped ∷ stopped ∷ [])
unfolding parallel_walk_dir
walk_run = (refl, refl)

parallel_walk_dir-AllCounted_example :
    AllCounted 0 0 (parallel_walk_dir root 2 schedule).1 (parallel_walk_dir root 2 schedule).0
parallel_walk_dir-AllCounted_example = parallel_walk_dir-AllCounted root 2 schedule

parallel_walk_dir_complete_example :
    (failed (parallel_walk_dir root 2 schedule).0.results ≡ 0)
    × (queued (parallel_walk_dir root 2 schedule).0.queue ≡ 0)
    × ((test : Str → Bool)
        → found test (parallel_walk_dir root 2 schedule).0.results ≡ below test root)
unfolding parallel_walk_dir
parallel_walk_dir_complete_example = parallel_walk_dir_complete root 2 schedule (omega arith)

parallel_walk_dir_bounded_example :
    actions 2 schedule (workers 2) (initial root) ≤ turns root + (1 + 2 * 2)
parallel_walk_dir_bounded_example = parallel_walk_dir_bounded root 2 schedule

parallel_walk_dir_stops_example : All (λ w. w ≡ stopped) (parallel_walk_dir root 2 schedule).1
unfolding parallel_walk_dir
parallel_walk_dir_stops_example = parallel_walk_dir_stops root 2 schedule refl (refl, (refl, tt))
