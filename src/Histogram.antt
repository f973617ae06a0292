-- ===== src/Histogram.antt =====
-- src/histogram.rs: counts of file sizes by their number of decimal digits. `log10` stands for
-- `(val as f64).log10() as usize`, floating-point arithmetic that is not modelled.
pub mod Counts
use rjrssync.Common.{ℕ, zero, suc, ◌+◌, ◌-◌, List, [], ◌∷◌, ◌++◌, length, add_u32}

pub record FileSizeHistogram : Type 0 where
  pub buckets : List ℕ

-- The rounds of `while self.buckets.len() <= bucket { self.buckets.push(0); }`.
unfoldable pub pad : ℕ → List ℕ → List ℕ
pad zero buckets = buckets
pad (suc rounds) buckets = pad rounds (buckets ++ 0 ∷ [])

-- `self.buckets[bucket] += 1`
unfoldable pub bump : ℕ → List ℕ → List ℕ
bump i [] = []
bump zero (n ∷ buckets) = add_u32 n 1 ∷ buckets
bump (suc i) (n ∷ buckets) = n ∷ bump i buckets

unfoldable pub add : (ℕ → ℕ) → ℕ → FileSizeHistogram → FileSizeHistogram
unfolding pad bump
add log10 val h =
    let bucket = log10 val in
    record { buckets = bump bucket (pad (bucket + 1 - length h.buckets) h.buckets) }
