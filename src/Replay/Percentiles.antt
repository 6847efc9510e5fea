-- ===== src/Replay/Percentiles.antt =====
-- bench/replay.py: the percentiles of a report.
use agentserve.Common.Sort.{sorted, sorted-perm, IsSorted, sorted-IsSorted, IsOrder}
use agentserve.Common.{
  ℕ, zero, suc, ◌≤◌, ◌<◌, ◌≡◌, refl, arith, false, none, some, List, [], ◌∷◌, All, length, sum_by,
  sum_by-eq_of_perm, get_elem?,
}
use agentserve.Replay.{ArmResult, less, rank, round_ratio, percentile, report}

pub less-IsOrder : IsOrder less
unfolding less
less-IsOrder = record {
  asymm = λ x y h. ground (arith, h);
  trans_not = λ x y z h k. ground (arith, h, k);
}

-- Of an ascending list, a later element is no less.
abbrev pub value_at : List ℕ → ℕ → ℕ
value_at xs i = elim (get_elem? xs i) [ none ↦ 0 | some x ↦ x ]

value_at-ge :
    (x : ℕ) (xs : List ℕ) (j : ℕ)
    → All (λ y. less y x ≡ false) xs
    → j < length xs
    → x ≤ value_at xs j
unfolding less
value_at-ge x [] j h lt = absurd (omega (arith, lt))
value_at-ge x (y ∷ xs) zero h lt = ground (arith, h.0)
value_at-ge x (y ∷ xs) (suc j) h lt = value_at-ge x xs j h.1 (omega (arith, lt))

pub value_at-le :
    (xs : List ℕ) (i j : ℕ)
    → IsSorted less xs
    → i ≤ j
    → j < length xs
    → value_at xs i ≤ value_at xs j
value_at-le [] i j h le lt = omega arith
value_at-le (x ∷ xs) zero zero h le lt = omega arith
value_at-le (x ∷ xs) zero (suc j) h le lt = value_at-ge x xs j h.0 (omega (arith, lt))
value_at-le (x ∷ xs) (suc i) zero h le lt = absurd (omega (arith, le))
value_at-le (x ∷ xs) (suc i) (suc j) h le lt =
    value_at-le xs i j h.1 (omega (arith, le)) (omega (arith, lt))

rank_le : (n : ℕ) → rank 500 n ≤ rank 950 n
unfolding rank round_ratio
rank_le n = ground arith

rank_lt : (q n : ℕ) → 1 ≤ n → rank q n < n
unfolding rank
rank_lt q n h = ground arith

pub sum_by-ones {ℓ} : {A : Type ℓ} (xs : List A) → sum_by (λ x. 1) xs ≡ length xs
sum_by-ones [] = refl
sum_by-ones (x ∷ xs) = omega (arith, sum_by-ones xs)

pub length-sorted : (xs : List ℕ) → length (sorted less xs) ≡ length xs
length-sorted xs = omega (
  arith,
  sum_by-ones xs,
  sum_by-ones (sorted less xs),
  sum_by-eq_of_perm (λ x. 1) (sorted-perm less xs),
)

pub percentile_le : (values : List ℕ) → percentile values 500 ≤ percentile values 950
unfolding percentile sorted
percentile_le [] = omega arith
percentile_le (x ∷ xs) =
    value_at-le (sorted less (x ∷ xs)) _ _ (sorted-IsSorted less less-IsOrder (x ∷ xs))
      (rank_le (length (x ∷ xs)))
      (omega (arith, rank_lt 950 (length (x ∷ xs)) (omega arith), length-sorted (x ∷ xs)))

-- In a report, the 50th percentile of the times to the first token is at most the 95th, and so is
-- that of the job completion times.
pub report_percentiles :
    (arm : ArmResult)
    → ((report arm).p50_ttft_ms ≤ (report arm).p95_ttft_ms)
      × ((report arm).p50_jct_ms ≤ (report arm).p95_jct_ms)
unfolding report
report_percentiles arm = (percentile_le arm.stats.ttfts, percentile_le arm.stats.job_completion_ms)
