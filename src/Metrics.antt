-- ===== src/Metrics.antt =====
-- agentserve/metrics.py: the counters and the histogram.
pub mod Cluster
use agentserve.Common.{ℕ, ◌+◌, Bool, true, false, List, [], ◌∷◌, if◌then◌else◌}
use agentserve.Models.{CacheTier, RequestResult, ttft_ms}

-- The metrics that decisions and results change. A counter with labels is a function of the tier,
-- and the histogram is the list of its observations.
pub record Metrics : Type 0 where
  pub affinity_decisions : ℕ
  pub rebalanced_decisions : ℕ
  pub requests : CacheTier → ℕ
  pub tokens_reused : ℕ
  pub tokens_computed : ℕ
  pub ttft : List ℕ
  pub cache_actions : CacheTier → ℕ

abbrev pub no_metrics : Metrics
no_metrics = record {
  affinity_decisions = 0;
  rebalanced_decisions = 0;
  requests = λ tier. 0;
  tokens_reused = 0;
  tokens_computed = 0;
  ttft = [];
  cache_actions = λ tier. 0;
}

abbrev same_tier : CacheTier → CacheTier → Bool
same_tier CacheTier.gpu CacheTier.gpu = true
same_tier CacheTier.dram CacheTier.dram = true
same_tier CacheTier.miss CacheTier.miss = true
same_tier _ _ = false

-- `COUNTER.labels(tier).inc()`
unfoldable pub inc : CacheTier → (CacheTier → ℕ) → CacheTier → ℕ
inc tier counter t = if same_tier tier t then counter t + 1 else counter t

-- `observe_result`
unfoldable pub observe_result : RequestResult → Metrics → Metrics
unfolding inc
observe_result result m = record m {
  requests = inc result.tier m.requests;
  tokens_reused = m.tokens_reused + result.reused_tokens;
  tokens_computed = m.tokens_computed + result.computed_tokens;
  ttft = ttft_ms result ∷ m.ttft;
}
