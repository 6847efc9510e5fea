-- ===== src/Settings/Values.antt =====
-- agentserve/settings.py: `Settings`, as `load_settings` returns it and as the app takes it.
use agentserve.Common.Float.{Float, thousandths}
use agentserve.Common.{ℕ, String, Option, none, List, []}
use agentserve.Config.{HardwareProfile, ClusterConfig, default_cluster}

pub data BackendName : Type 0 where
  simulated_workers vllm_workers : BackendName

pub data RouterName : Type 0 where
  affinity_router round_robin_router : RouterName

pub data PolicyName : Type 0 where
  adaptive_eviction lru_eviction : PolicyName

-- Settings whose `float`s are finite, in thousandths, as the app takes them.
pub record Settings : Type 0 where
  pub backend : BackendName
  pub router : RouterName
  pub policy : PolicyName
  pub vllm_endpoints : List String
  pub vllm_model : String
  pub vllm_timeout_s : ℕ
  pub vllm_max_retries : ℕ
  pub redis_url : Option String
  pub session_ttl_s : ℕ
  pub max_sessions : ℕ
  pub api_key : Option String
  pub tokenizer : String
  pub cluster : ClusterConfig

abbrev pub default_settings : Settings
default_settings = record {
  backend = simulated_workers;
  router = affinity_router;
  policy = adaptive_eviction;
  vllm_endpoints = [];
  vllm_model = "mistralai/Mistral-7B-Instruct-v0.3";
  vllm_timeout_s = 300_000;
  vllm_max_retries = 2;
  redis_url = none;
  session_ttl_s = 3_600_000;
  max_sessions = 100_000;
  api_key = none;
  tokenizer = "cl100k_base";
  cluster = default_cluster;
}

pub record LoadedPolicy : Type 0 where
  pub pin_threshold_ms : Float
  pub offload_threshold_ms : Float
  pub dead_session_ms : Float
  pub affinity_queue_limit : ℕ

pub record LoadedPredictor : Type 0 where
  pub ewma_alpha : Float
  pub prior_ms : Float
  pub min_observations : ℕ

pub record LoadedCluster : Type 0 where
  pub replicas : ℕ
  pub hardware : HardwareProfile
  pub policy : LoadedPolicy
  pub predictor : LoadedPredictor

-- Settings as `load_settings` returns them, with any `float`.
pub record LoadedSettings : Type 0 where
  pub backend : BackendName
  pub router : RouterName
  pub policy : PolicyName
  pub vllm_endpoints : List String
  pub vllm_model : String
  pub vllm_timeout_s : Float
  pub vllm_max_retries : ℕ
  pub redis_url : Option String
  pub session_ttl_s : Float
  pub max_sessions : ℕ
  pub api_key : Option String
  pub tokenizer : String
  pub cluster : LoadedCluster

abbrev pub loaded_cluster : ClusterConfig → LoadedCluster
loaded_cluster c = record {
  replicas = c.replicas;
  hardware = c.hardware;
  policy = record {
    pin_threshold_ms = thousandths c.policy.pin_threshold_ms;
    offload_threshold_ms = thousandths c.policy.offload_threshold_ms;
    dead_session_ms = thousandths c.policy.dead_session_ms;
    affinity_queue_limit = c.policy.affinity_queue_limit;
  };
  predictor = record {
    ewma_alpha = thousandths c.predictor.ewma_alpha;
    prior_ms = thousandths c.predictor.prior_ms;
    min_observations = c.predictor.min_observations;
  };
}

-- Settings with finite `float`s among those that `load_settings` may return.
abbrev pub loaded : Settings → LoadedSettings
loaded s = record {
  backend = s.backend;
  router = s.router;
  policy = s.policy;
  vllm_endpoints = s.vllm_endpoints;
  vllm_model = s.vllm_model;
  vllm_timeout_s = thousandths s.vllm_timeout_s;
  vllm_max_retries = s.vllm_max_retries;
  redis_url = s.redis_url;
  session_ttl_s = thousandths s.session_ttl_s;
  max_sessions = s.max_sessions;
  api_key = s.api_key;
  tokenizer = s.tokenizer;
  cluster = loaded_cluster s.cluster;
}
