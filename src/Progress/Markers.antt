-- ===== src/Progress/Markers.antt =====
-- How often markers are sent, over a whole sync, and what they carry.
use rjrssync.Common.{
  ℕ, ◌<◌, ◌≤◌, ◌⊎◌, Bool, true, false, Option, none, some, List, [], ◌∷◌, sub_u64, ◌≡◌,
}
use rjrssync.Interface.{EntryDetails, ProgressMarker}
use rjrssync.Progress.{
  Progress, delete_sent, copy_sent, copy_sent_partial, get_progress_marker_limited,
  get_progress_marker, marker_threshold,
}

-- The calls of a sync that count work and make markers.
pub data Call : Type 0 where
  deletes : EntryDetails → Call
  copies : EntryDetails → Call
  copies_part : ℕ → ℕ → ℕ → Call
  marks : Call
  marks_limited : Call

-- What a call for a marker came to: whether it is a limited one, the marker, if any, and the work sent
-- at that time.
pub record Mark : Type 0 where
  pub limited : Bool
  pub made : Option ProgressMarker
  pub work : ℕ

unfoldable pub run : List Call → Progress → List Mark
run [] p = []
run (deletes d ∷ cs) p = run cs (delete_sent d p)
run (copies d ∷ cs) p = run cs (copy_sent d p)
run (copies_part start size file_size ∷ cs) p = run cs (copy_sent_partial start size file_size p)
run (marks ∷ cs) p =
    let (m, p') = get_progress_marker p in
    record { limited = false; made = some m; work = p.sent.work } ∷ run cs p'
run (marks_limited ∷ cs) p =
    let (m, p') = get_progress_marker_limited p in
    record { limited = true; made = m; work = p.sent.work } ∷ run cs p'

-- With the work of the last marker: a marker carries the work sent, and a limited one is made with the
-- detailed bar only, if the work is the threshold or more beyond that of the last marker, and only then.
abbrev pub Spaced : Bool → ℕ → List Mark → Type 0
Spaced detailed last [] = Unit
Spaced detailed last (mark ∷ more) = elim mark.made [
  | none ↦
      (mark.limited ≡ true)
      × ((detailed ≡ false) ⊎ (sub_u64 mark.work last < marker_threshold))
      × Spaced detailed last more
  | some m ↦
      (m.completed_work ≡ mark.work)
      × ((mark.limited ≡ false) ⊎ ((detailed ≡ true) × (marker_threshold ≤ sub_u64 mark.work last)))
      × Spaced detailed mark.work more
]
