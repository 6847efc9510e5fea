-- ===== src/Policy/Placements.antt =====
-- agentserve/policy.py: the three-way decision of `AdaptiveTtlPolicy.on_release`.
use agentserve.Common.{ℕ, ◌≤◌, ◌<◌, ◌≡◌, ◌↔◌, arith}
use agentserve.Config.{PolicyConfig}
use agentserve.Models.{CacheEntry, predicted_idle_ms}
use agentserve.Policy.{pin_gpu, offload_dram, drop, on_release, adaptive_ttl_policy}

-- The adaptive policy pins exactly if the predicted idle time is at most the pin threshold,
-- offloads exactly if it is above that and at most the offload threshold, and drops exactly if it
-- is above both.
pub on_release_iff :
    (config : PolicyConfig) (e : CacheEntry) (now_ms : ℕ)
    → (((adaptive_ttl_policy config).on_release e now_ms ≡ pin_gpu)
        ↔ (predicted_idle_ms e ≤ config.pin_threshold_ms))
      × (((adaptive_ttl_policy config).on_release e now_ms ≡ offload_dram) ↔ (
          (config.pin_threshold_ms < predicted_idle_ms e)
          × (predicted_idle_ms e ≤ config.offload_threshold_ms)))
      × (((adaptive_ttl_policy config).on_release e now_ms ≡ drop) ↔ (
          (config.pin_threshold_ms < predicted_idle_ms e)
          × (config.offload_threshold_ms < predicted_idle_ms e)))
unfolding adaptive_ttl_policy on_release
on_release_iff config e now_ms = ground arith
