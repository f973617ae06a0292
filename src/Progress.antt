-- ===== src/Progress.antt =====
-- src/boss_progress.rs: how much work there is, has been sent to the destination doer, and has been
-- completed by it. The `debug_assert!`s do nothing in a release build and are left out, as is the
-- thread that draws the bar: `new_bar_state` is what it would take.
pub mod Chunks
pub mod Markers
use rjrssync.Common.{
  ℕ, ◌*◌, Bool, true, false, not, Option, none, some, List, [], ◌∷◌, ◌++◌, max, ltb, nat_beq,
  if◌then◌else◌, add_u32, add_u64, sub_u64, get_elem?, ◌&&◌,
}
use rjrssync.Interface.{
  EntryDetails, file, folder, symlink, ProgressMarker, ProgressPhase, deleting, copying, done,
}
use rjrssync.OrderedMap.{iter}
use rjrssync.Path.{RootRelativePath, path_eq}
use rjrssync.Sync.{Actions, DeleteReason, CopyReason}

abbrev pub min_file_size : ℕ
min_file_size = 1024 * 1024

abbrev pub marker_threshold : ℕ
marker_threshold = 1024 * 1024

abbrev pub delete_work : ℕ
delete_work = 1024 * 1024

pub record ProgressValues : Type 0 where
  pub work : ℕ
  pub delete : ℕ
  pub copy : ℕ
  pub copy_bytes : ℕ

abbrev pub no_progress : ProgressValues
no_progress = record { work = 0; delete = 0; copy = 0; copy_bytes = 0 }

unfoldable pub for_copy : EntryDetails → ProgressValues
for_copy (file _ size) = record {
  work = max size min_file_size;
  delete = 0;
  copy = 1;
  copy_bytes = size;
}
for_copy folder = record { work = min_file_size; delete = 0; copy = 1; copy_bytes = 0 }
for_copy (symlink _ _) = record { work = min_file_size; delete = 0; copy = 1; copy_bytes = 0 }

unfoldable pub for_copy_partial : ℕ → ℕ → ℕ → ProgressValues
for_copy_partial chunk_start chunk_size file_size =
    if ltb (add_u64 chunk_start chunk_size) file_size
    then record {
      work = if ltb min_file_size file_size then chunk_size else 0;
      delete = 0;
      copy = 0;
      copy_bytes = chunk_size;
    }
    else record {
      work = if ltb min_file_size file_size then chunk_size else min_file_size;
      delete = 0;
      copy = 1;
      copy_bytes = chunk_size;
    }

unfoldable pub for_delete : EntryDetails → ProgressValues
for_delete e = record { work = delete_work; delete = 1; copy = 0; copy_bytes = 0 }

-- `+=`
unfoldable pub add_assign : ProgressValues → ProgressValues → ProgressValues
add_assign a b = record {
  work = add_u64 a.work b.work;
  delete = add_u32 a.delete b.delete;
  copy = add_u32 a.copy b.copy;
  copy_bytes = add_u64 a.copy_bytes b.copy_bytes;
}

pub record BarState : Type 0 where
  pub is_deleting : Bool
  pub completed : ProgressValues
  pub total : ProgressValues
  pub current_entry : Option RootRelativePath

pub record Progress : Type 0 where
  pub detailed : Bool
  pub total : ProgressValues
  pub sent : ProgressValues
  pub completed : ProgressValues
  pub new_bar_state : Option BarState
  pub last_progress_marker : ℕ
  pub first_copy_time : Option ℕ
  pub to_copy_paths : List RootRelativePath
  pub to_delete_paths : List RootRelativePath
  -- the bar has been finished and cleared
  pub finished : Bool

unfoldable pub total_deletes :
    ProgressValues → List (RootRelativePath × (EntryDetails × DeleteReason)) → ProgressValues
total_deletes total [] = total
total_deletes total ((p, (d, _)) ∷ rest) = total_deletes (add_assign total (for_delete d)) rest

unfoldable pub total_copies :
    ProgressValues → List (RootRelativePath × (EntryDetails × CopyReason)) → ProgressValues
total_copies total [] = total
total_copies total ((p, (c, _)) ∷ rest) = total_copies (add_assign total (for_copy c)) rest

abbrev paths_of {ℓ} : {V : Type ℓ} → List (RootRelativePath × V) → List RootRelativePath
paths_of [] = []
paths_of ((p, _) ∷ rest) = p ∷ paths_of rest

-- `hidden` is `progress_bar.is_hidden()`.
unfoldable pub new : Actions → Bool → Bool → Progress
unfolding total_deletes total_copies
new actions hidden detailed = record {
  detailed = if hidden then false else detailed;
  total = total_copies (total_deletes no_progress (iter actions.to_delete)) (iter actions.to_copy);
  sent = no_progress;
  completed = no_progress;
  new_bar_state = none;
  last_progress_marker = 0;
  first_copy_time = none;
  to_copy_paths = paths_of (iter actions.to_copy);
  to_delete_paths = paths_of (iter actions.to_delete);
  finished = false;
}

abbrev phase_sent : Progress → ProgressPhase
phase_sent p =
    if ltb p.sent.delete p.total.delete
    then deleting (p.sent.delete)
    else copying (p.sent.copy) (p.sent.copy_bytes)

unfoldable pub get_progress_marker : Progress → ProgressMarker × Progress
get_progress_marker p = (
  record { completed_work = p.sent.work; phase = phase_sent p },
  record p { last_progress_marker = p.sent.work },
)

unfoldable pub get_progress_marker_limited : Progress → Option ProgressMarker × Progress
unfolding get_progress_marker
get_progress_marker_limited p =
    if not p.detailed
    then (none, p)
    else if ltb (sub_u64 p.sent.work p.last_progress_marker) marker_threshold
    then (none, p)
    else (let (m, p') = get_progress_marker p in (some m, p'))

unfoldable pub delete_sent : EntryDetails → Progress → Progress
delete_sent e p = record p { sent = add_assign p.sent (for_delete e) }

unfoldable pub copy_sent : EntryDetails → Progress → Progress
copy_sent e p = record p { sent = add_assign p.sent (for_copy e) }

unfoldable pub copy_sent_partial : ℕ → ℕ → ℕ → Progress → Progress
copy_sent_partial chunk_start chunk_size file_size p = record p {
  sent = add_assign p.sent (for_copy_partial chunk_start chunk_size file_size);
}

unfoldable pub all_work_sent : Progress → ProgressMarker
all_work_sent p = record { completed_work = p.sent.work; phase = done }

abbrev pub is_none {ℓ} : {A : Type ℓ} → Option A → Bool
is_none none = true
is_none (some a) = false

unfoldable pub update_bar_limited : Progress → Progress
update_bar_limited p = if not p.detailed then p else record p {
  new_bar_state = some (record {
    is_deleting = is_none p.first_copy_time;
    completed = p.completed;
    total = p.total;
    current_entry =
        if is_none p.first_copy_time
        then get_elem? p.to_delete_paths p.completed.delete
        else get_elem? p.to_copy_paths p.completed.copy;
  });
}

-- The phase of a marker that came back at the time `now`.
unfoldable pub update_phase : ℕ → ProgressPhase → Progress → Progress
unfolding update_bar_limited
update_phase now (deleting n) p =
    update_bar_limited (record p { completed = record (p.completed) { delete = n } })
update_phase now (copying n bytes) p = update_bar_limited (record p {
  first_copy_time =
      if is_none p.first_copy_time && nat_beq n 0 then some now else p.first_copy_time;
  completed = record (p.completed) { copy = n; copy_bytes = bytes };
})
update_phase now done p = record p { finished = true }

unfoldable pub update_completed : ℕ → ProgressMarker → Progress → Progress
unfolding update_phase
update_completed now m p =
    update_phase now m.phase
      (record p { completed = record (p.completed) { work = m.completed_work } })
