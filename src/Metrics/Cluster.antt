-- ===== src/Metrics/Cluster.antt =====
-- agentserve/metrics.py: the gauges, which `/metrics` sets from the cluster and the predictor.
use agentserve.Common.Dict.{Dict, insert}
use agentserve.Common.{ℕ, ◌==◌, Option, some, List, [], ◌∷◌, if◌then◌else◌}
use agentserve.Models.{Ratio}
use agentserve.Predictor.{ToolDurationPredictor, snapshot}
use agentserve.Replica.{Replica, gpu_utilization, dram_tokens}

-- A gauge with the label of a replica is a function of its number. The gaps are in ticks.
pub record Gauges : Type 0 where
  pub gpu_cache_util : ℕ → Option Ratio
  pub dram_cache_tokens : ℕ → Option ℕ
  pub predicted_gap : Dict ℕ

-- `GAUGE.labels(replica=str(id)).set(value)`
unfoldable pub set_gauge {ℓ} : {V : Type ℓ} → ℕ → V → (ℕ → Option V) → ℕ → Option V
set_gauge id value gauge i = if i == id then some value else gauge i

unfoldable pub observe_replicas : List Replica → Gauges → Gauges
unfolding set_gauge
observe_replicas [] g = g
observe_replicas (r ∷ rs) g = observe_replicas rs (record g {
  gpu_cache_util = set_gauge r.id (gpu_utilization r) g.gpu_cache_util;
  dram_cache_tokens = set_gauge r.id (dram_tokens r) g.dram_cache_tokens;
})

unfoldable pub observe_gaps : Dict ℕ → Dict ℕ → Dict ℕ
observe_gaps [] gaps = gaps
observe_gaps ((tool, ms) ∷ estimates) gaps = observe_gaps estimates (insert tool ms gaps)

unfoldable pub observe_cluster : List Replica → ToolDurationPredictor → Gauges → Gauges
unfolding observe_replicas observe_gaps
observe_cluster replicas predictor g =
    let observed = observe_replicas replicas g in
    record observed { predicted_gap = observe_gaps (snapshot predictor) observed.predicted_gap }
