-- ===== src/Tests/Parts.antt =====
-- Paths, ordered maps, histograms and progress at small inputs.
use rjrssync.Common.{
  List, inr, ℕ, ◌+◌, true, false, some, [], ◌∷◌, ok, err, ◌≡◌, refl, codes, length, max, nat_beq,
  if◌then◌else◌, add_u32, arith, inl,
}
use rjrssync.Common.HashMap.{get, NodupKeys}
use rjrssync.Histogram.{FileSizeHistogram}
use rjrssync.Histogram
use rjrssync.Histogram.Counts.{count_at, count_at-add}
use rjrssync.Interface.{file}
use rjrssync.OrderedMap.{OrderedMap, iter, lookup, len}
use rjrssync.OrderedMap
use rjrssync.OrderedMap.Contents.{IsValid, new-IsValid, add-IsValid, remove-IsValid, iter-lookup}
use rjrssync.Path.{RootRelativePath, path_eq, try_from, illegal_characters, to_platform_path}
use rjrssync.Path.Normalize.{
  split, split-try_from, try_from_illegal, split_on, split_on-to_platform_path,
}
use rjrssync.Progress.{Progress, new, copy_sent}
use rjrssync.Progress.Chunks.{send_chunks, send_chunks-copy_sent}
use rjrssync.Progress.Markers.{Call, marks, marks_limited, copies_part}
use rjrssync.Sync.{Actions, not_on_dest}
use rjrssync.Tests.Queries.{path}

split-try_from_example :
    (p : RootRelativePath) × (try_from
        (record { is_absolute = false; components = some (codes "a") ∷ some (codes "b") ∷ [] })
      ≡ ok p)
    × (split p.inner ≡ codes "a" ∷ codes "b" ∷ [])
split-try_from_example =
    split-try_from (codes "a") (codes "b" ∷ []) ((refl, refl, refl), ((refl, refl, refl), tt))

try_from_illegal_example :
    try_from
      (record { is_absolute = false; components = some (codes "a") ∷ some (codes "b\\c") ∷ [] })
    ≡ err illegal_characters
try_from_illegal_example =
    try_from_illegal (codes "a" ∷ []) (codes "b\\c") [] ((refl, refl, refl), tt) refl

split_on-to_platform_path_example :
    split_on b'\\' (to_platform_path (path "a/b") b'\\') ≡ split (codes "a/b")
split_on-to_platform_path_example = split_on-to_platform_path (path "a/b") b'\\' (inr refl)

-- Of two keys one is removed again.
abbrev small : OrderedMap RootRelativePath ℕ
small =
    OrderedMap.remove (path "a")
      (OrderedMap.add (path "b") 2 (OrderedMap.add (path "a") 1 OrderedMap.new))

small-IsValid : IsValid small
unfolding OrderedMap.add OrderedMap.new
small-IsValid = remove-IsValid (path "a") _ (
    add-IsValid (path "b") 2 (OrderedMap.add (path "a") 1 OrderedMap.new) refl
      (add-IsValid (path "a") 1 OrderedMap.new refl new-IsValid))

iter-lookup_example :
    NodupKeys (iter small)
    × ((k : RootRelativePath) → get k (iter small) ≡ lookup k small)
    × (length (iter small) ≡ len small)
iter-lookup_example = iter-lookup small small-IsValid

abbrev hist : FileSizeHistogram
hist = record { buckets = 4 ∷ [] }

count_at-add_example :
    ((j : ℕ)
      → count_at (Histogram.add (λ n. 2) 500 hist).buckets j
        ≡ (if nat_beq 2 j then add_u32 (count_at hist.buckets j) 1 else count_at hist.buckets j))
    × (length (Histogram.add (λ n. 2) 500 hist).buckets ≡ max (length hist.buckets) (2 + 1))
count_at-add_example = count_at-add (λ n. 2) 500 hist

abbrev actions : Actions
actions = record {
  to_delete = OrderedMap.new;
  to_copy = OrderedMap.add (path "a") (file 5 3, not_on_dest) OrderedMap.new;
}

abbrev start : Progress
start = new actions false true

send_chunks-copy_sent_example : send_chunks 3 0 (2 ∷ []) 1 start ≡ copy_sent (file 5 3) start
send_chunks-copy_sent_example =
    send_chunks-copy_sent 5 3 (2 ∷ []) 1 start (omega arith) refl (inl (omega arith))

-- A file of three parts, each of 2 MB: the second call for a limited marker comes too soon.
abbrev calls : List Call
calls =
    marks
    ∷ copies_part 0 2000000 6000000
    ∷ marks_limited
    ∷ marks_limited
    ∷ copies_part 2000000 2000000 6000000
    ∷ marks_limited
    ∷ []
