-- ===== src/Config.antt =====
-- agentserve/config.py. Times and durations are natural numbers of ticks. A tick is a thousandth of
-- a millisecond, the unit in which every default cost per token is a whole number. A fraction such
-- as `ewma_alpha` is a number of thousandths.
use agentserve.Common.{ℕ}

-- The defaults: 0.065, 0.35, 0.004 and 0.003 milliseconds.
pub record HardwareProfile : Type 0 where
  pub prefill_ms_per_token : ℕ
  pub decode_ms_per_token : ℕ
  pub dram_restore_ms_per_token : ℕ
  pub dram_offload_ms_per_token : ℕ
  pub gpu_cache_tokens : ℕ
  pub dram_cache_tokens : ℕ

abbrev pub default_hardware : HardwareProfile
default_hardware = record {
  prefill_ms_per_token = 65;
  decode_ms_per_token = 350;
  dram_restore_ms_per_token = 4;
  dram_offload_ms_per_token = 3;
  gpu_cache_tokens = 150_000;
  dram_cache_tokens = 1_400_000;
}

pub record PolicyConfig : Type 0 where
  pub pin_threshold_ms : ℕ
  pub offload_threshold_ms : ℕ
  pub dead_session_ms : ℕ
  pub affinity_queue_limit : ℕ

abbrev pub default_policy : PolicyConfig
default_policy = record {
  pin_threshold_ms = 2_000_000;
  offload_threshold_ms = 300_000_000;
  dead_session_ms = 600_000_000;
  affinity_queue_limit = 6;
}

pub record PredictorConfig : Type 0 where
  pub ewma_alpha : ℕ
  pub prior_ms : ℕ
  pub min_observations : ℕ

abbrev pub default_predictor : PredictorConfig
default_predictor = record { ewma_alpha = 300; prior_ms = 5_000_000; min_observations = 2 }

pub record ClusterConfig : Type 0 where
  pub replicas : ℕ
  pub hardware : HardwareProfile
  pub policy : PolicyConfig
  pub predictor : PredictorConfig

abbrev pub default_cluster : ClusterConfig
default_cluster = record {
  replicas = 4;
  hardware = default_hardware;
  policy = default_policy;
  predictor = default_predictor;
}
