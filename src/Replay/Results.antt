-- ===== src/Replay/Results.antt =====
-- bench/replay.py: `ArmResult`, its percentiles and its report.
use agentserve.Common.Sort.{sorted}
use agentserve.Common.{
  ℕ, ◌+◌, ◌-◌, ◌*◌, ◌/◌, ◌%◌, min, ltb, ◌==◌, String, Bool, none, some, List, length, get_elem?,
  if◌then◌else◌,
}
use agentserve.Models
use agentserve.Models.{
  CacheTier, Turn, SessionTrace, RequestResult, RunStats, no_stats, Ratio, latency_ms, ttft_ms,
  reuse_rate,
}

pub record ArmResult : Type 0 where
  pub label : String
  pub stats : RunStats
  pub evictions : ℕ
  pub offloads : ℕ
  pub affinity_hits : ℕ
  pub affinity_breaks : ℕ

-- `round(part / whole)`: to the nearest number, and to the even one of two.
unfoldable pub round_ratio : ℕ → ℕ → ℕ
round_ratio part whole =
    let down = part / whole in
    let twice = 2 * (part % whole) in
    if ltb twice whole
    then down
    else (if ltb whole twice then down + 1 else (if down % 2 == 0 then down else down + 1))

-- The index that `percentile` reads, for `q` in thousandths.
unfoldable pub rank : ℕ → ℕ → ℕ
unfolding round_ratio
rank q n = min (n - 1) (round_ratio (q * (n - 1)) 1_000)

unfoldable pub less : ℕ → ℕ → Bool
less a b = ltb a b

-- `percentile`: 0 for no values.
unfoldable pub percentile : List ℕ → ℕ → ℕ
unfolding rank less
percentile values q = elim (get_elem? (sorted less values) (rank q (length values))) [
  | none ↦ 0
  | some value ↦ value
]

pub record Report : Type 0 where
  pub requests : ℕ
  pub gpu_hit_rate : Ratio
  pub any_hit_rate : Ratio
  pub token_reuse_rate : Ratio
  pub tokens_recomputed : ℕ
  pub p50_ttft_ms : ℕ
  pub p95_ttft_ms : ℕ
  pub p50_jct_ms : ℕ
  pub p95_jct_ms : ℕ
  pub gpu_busy_ms : ℕ
  pub evictions : ℕ
  pub offloads : ℕ

unfoldable pub report : ArmResult → Report
unfolding percentile
report arm = record {
  requests = arm.stats.requests;
  gpu_hit_rate = Models.gpu_hit_rate arm.stats;
  any_hit_rate = Models.any_hit_rate arm.stats;
  token_reuse_rate = reuse_rate arm.stats;
  tokens_recomputed = arm.stats.tokens_computed;
  p50_ttft_ms = percentile arm.stats.ttfts 500;
  p95_ttft_ms = percentile arm.stats.ttfts 950;
  p50_jct_ms = percentile arm.stats.job_completion_ms 500;
  p95_jct_ms = percentile arm.stats.job_completion_ms 950;
  gpu_busy_ms = arm.stats.gpu_busy_ms;
  evictions = arm.evictions;
  offloads = arm.offloads;
}
