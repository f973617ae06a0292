-- ===== src/Histogram/Counts.antt =====
-- Adding a value counts it in its own bucket and in no other.
use rjrssync.Common.{
  ℕ, zero, suc, ◌+◌, ◌-◌, ◌<◌, List, [], ◌∷◌, ◌++◌, length, length-append, add_u32, ◌≡◌, refl,
  arith, if◌then◌else◌, nat_beq, max,
}
use rjrssync.Histogram.{FileSizeHistogram, pad, bump, add}

-- The count of a bucket, zero where the vector ends.
abbrev pub count_at : List ℕ → ℕ → ℕ
count_at [] i = 0
count_at (n ∷ ns) zero = n
count_at (n ∷ ns) (suc i) = count_at ns i

count_at-snoc : (ns : List ℕ) (i : ℕ) → count_at (ns ++ 0 ∷ []) i ≡ count_at ns i
count_at-snoc [] zero = refl
count_at-snoc [] (suc i) = refl
count_at-snoc (n ∷ ns) zero = refl
count_at-snoc (n ∷ ns) (suc i) = count_at-snoc ns i

count_at-pad : (rounds : ℕ) (ns : List ℕ) (i : ℕ) → count_at (pad rounds ns) i ≡ count_at ns i
unfolding pad
count_at-pad zero ns i = refl
count_at-pad (suc rounds) ns i =
    omega (arith, count_at-pad rounds (ns ++ 0 ∷ []) i, count_at-snoc ns i)

length-pad : (rounds : ℕ) (ns : List ℕ) → length (pad rounds ns) ≡ length ns + rounds
unfolding pad
length-pad zero ns = omega arith
length-pad (suc rounds) ns =
    omega (arith, length-pad rounds (ns ++ 0 ∷ []), length-append ns (0 ∷ []))

length-bump : (i : ℕ) (ns : List ℕ) → length (bump i ns) ≡ length ns
unfolding bump
length-bump i [] = refl
length-bump zero (n ∷ ns) = refl
length-bump (suc i) (n ∷ ns) = omega (arith, length-bump i ns)

count_at-bump :
    (i j : ℕ) (ns : List ℕ)
    → i < length ns
    → count_at (bump i ns) j ≡ (if nat_beq i j then add_u32 (count_at ns j) 1 else count_at ns j)
unfolding bump
count_at-bump i j [] h = absurd (omega arith)
count_at-bump zero zero (n ∷ ns) h = ground arith
count_at-bump zero (suc j) (n ∷ ns) h = ground arith
count_at-bump (suc i) zero (n ∷ ns) h = ground arith
count_at-bump (suc i) (suc j) (n ∷ ns) h = ground (arith, count_at-bump i j ns)

-- Adding a value raises the count of its own bucket by one, modulo 2^32, and leaves every other
-- count as it was; the vector grows just enough to have the bucket.
pub count_at-add :
    (log10 : ℕ → ℕ) (val : ℕ) (h : FileSizeHistogram)
    → ((j : ℕ)
        → count_at (add log10 val h).buckets j ≡ (
            if nat_beq (log10 val) j
            then add_u32 (count_at h.buckets j) 1
            else count_at h.buckets j))
      × (length (add log10 val h).buckets ≡ max (length h.buckets) (log10 val + 1))
unfolding add
count_at-add log10 val h = (
  λ j. ground (
    arith,
    count_at-bump (log10 val) j (pad (log10 val + 1 - length h.buckets) h.buckets),
    length-pad (log10 val + 1 - length h.buckets) h.buckets,
    count_at-pad (log10 val + 1 - length h.buckets) h.buckets j,
  ),
  omega (
    arith,
    length-bump (log10 val) (pad (log10 val + 1 - length h.buckets) h.buckets),
    length-pad (log10 val + 1 - length h.buckets) h.buckets,
  ),
)
