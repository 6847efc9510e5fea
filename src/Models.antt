-- ===== src/Models.antt =====
-- agentserve/models.py: the value types that the router, the policies and the backends share.
use agentserve.Common.{ℕ, ◌+◌, ◌-◌, ◌==◌, String, Option, List, [], sum_by, if◌then◌else◌}

pub data CacheTier : Type 0 where
  gpu dram miss : CacheTier

-- One call of a session, and the tool call that follows.
pub record Turn : Type 0 where
  pub prompt_tokens : ℕ
  pub output_tokens : ℕ
  pub tool_name : Option String
  pub tool_duration_ms : ℕ

pub record SessionTrace : Type 0 where
  pub session_id : String
  pub arrival_ms : ℕ
  pub turns : List Turn

unfoldable pub total_prompt_tokens : SessionTrace → ℕ
total_prompt_tokens s = sum_by (λ t. t.prompt_tokens) s.turns

-- The cache of one session on one replica.
pub record CacheEntry : Type 0 where
  pub session_id : String
  pub tokens : ℕ
  pub tier : CacheTier
  pub last_touch_ms : ℕ
  pub predicted_return_ms : ℕ

-- `max(0.0, a - b)` is the subtraction that stops at 0.
unfoldable pub predicted_idle_ms : CacheEntry → ℕ
predicted_idle_ms e = e.predicted_return_ms - e.last_touch_ms

pub record RequestResult : Type 0 where
  pub session_id : String
  pub replica_id : ℕ
  pub tier : CacheTier
  pub reused_tokens : ℕ
  pub computed_tokens : ℕ
  pub prefill_ms : ℕ
  pub decode_ms : ℕ
  pub queue_ms : ℕ
  pub restore_ms : ℕ
  pub text : String
  pub completion_tokens : ℕ

unfoldable pub latency_ms : RequestResult → ℕ
latency_ms r = r.queue_ms + r.restore_ms + r.prefill_ms + r.decode_ms

unfoldable pub ttft_ms : RequestResult → ℕ
ttft_ms r = r.queue_ms + r.restore_ms + r.prefill_ms

pub record RunStats : Type 0 where
  pub requests : ℕ
  pub gpu_hits : ℕ
  pub dram_hits : ℕ
  pub misses : ℕ
  pub tokens_reused : ℕ
  pub tokens_computed : ℕ
  pub ttfts : List ℕ
  pub job_completion_ms : List ℕ
  pub gpu_busy_ms : ℕ

abbrev pub no_stats : RunStats
no_stats = record {
  requests = 0;
  gpu_hits = 0;
  dram_hits = 0;
  misses = 0;
  tokens_reused = 0;
  tokens_computed = 0;
  ttfts = [];
  job_completion_ms = [];
  gpu_busy_ms = 0;
}

-- A ratio of two counters; the code's float division is exact here.
pub record Ratio : Type 0 where
  pub part : ℕ
  pub whole : ℕ

abbrev ratio_or_zero : ℕ → ℕ → Ratio
ratio_or_zero part whole =
    if whole == 0 then record { part = 0; whole = 1 } else record { part = part; whole = whole }

unfoldable pub gpu_hit_rate : RunStats → Ratio
gpu_hit_rate s = ratio_or_zero s.gpu_hits s.requests

unfoldable pub any_hit_rate : RunStats → Ratio
any_hit_rate s = ratio_or_zero (s.gpu_hits + s.dram_hits) s.requests

unfoldable pub reuse_rate : RunStats → Ratio
reuse_rate s = ratio_or_zero s.tokens_reused (s.tokens_reused + s.tokens_computed)
