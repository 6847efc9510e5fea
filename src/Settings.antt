-- ===== src/Settings.antt =====
-- agentserve/settings.py. The environment is a function from names to values. What Python's `int` and
-- `float` make of a text is a parameter, as the code passes them to `_num` as its argument `cast`. A
-- finite number of `float` is one of thousandths; nan and the infinities are values of their own.
mod Values
pub mod Validity
unfoldable pub use Values.*
use agentserve.Common.Float.{Float, leb_float, ltb_float, thousandths}
use agentserve.Common.Int.{ℤ, pos, negsuc}
use agentserve.Common.Text.{strip, is_empty, rstrip_by, split_at, reads_as}
use agentserve.Common.{
  ℕ, ◌*◌, leb, ltb, ◌==◌, String, Bool, true, false, not, ◌&&◌, ◌||◌, Option, none, some, List, [],
  ◌∷◌, length, truthy, if◌then◌else◌,
}
use agentserve.Config.{
  HardwareProfile, ClusterConfig, default_cluster, default_hardware, default_policy,
  default_predictor,
}
use agentserve.Result.{Result, ok, raise, ◌>>=◌, config_error}

abbrev pub Environ : Type 0
Environ = String → Option String

-- What a conversion makes of a text: none for a ValueError.
abbrev pub Cast : Type 0 → Type 0
Cast V = String → Option V

-- The number behind the test for a positive one.
unfoldable pub checked : Option ℤ → Result ℕ
checked none = raise config_error
checked (some (negsuc _)) = raise config_error
checked (some (pos value)) = if value == 0 then raise config_error else ok value

-- The same test of a `float`. A comparison with nan is false.
unfoldable pub checked_float : Option Float → Result Float
checked_float none = raise config_error
checked_float (some value) =
    if leb_float value (thousandths 0) then raise config_error else ok value

module _ (environ : Environ) where
  -- `_num` with `cast=int`
  unfoldable pub num : Cast ℤ → String → ℕ → Result ℕ
  unfolding checked
  num cast name default = elim (environ name) [
    | none ↦ ok default
    | some raw ↦ if is_empty (strip raw) then ok default else checked (cast raw)
  ]

  -- `_num` with `cast=float`, and the default in thousandths
  unfoldable pub float_num : Cast Float → String → ℕ → Result Float
  unfolding checked_float
  float_num cast name default = elim (environ name) [
    | none ↦ ok (thousandths default)
    | some raw ↦ if is_empty (strip raw) then ok (thousandths default) else checked_float (cast raw)
  ]

  -- `_flag`
  unfoldable pub flag : String → Bool → Bool
  flag name default = elim (environ name) [
    | none ↦ default
    | some raw ↦ reads_as "1" raw || reads_as "true" raw || reads_as "yes" raw || reads_as "on" raw
  ]

  -- `os.environ.get(name, default)`
  abbrev pub value_or : String → String → String
  value_or name default = elim (environ name) [ none ↦ default | some raw ↦ raw ]

  -- `os.environ.get(name) or None`
  abbrev pub value_if_full : String → Option String
  value_if_full name = if truthy (environ name) then environ name else none

-- `part.strip().rstrip(",")`
unfoldable pub trim_part : String → String
unfolding strip rstrip_by
trim_part part = rstrip_by (λ c. c == b',') (strip part)

unfoldable pub full_parts : List String → List String
unfolding trim_part
full_parts [] = []
full_parts (part ∷ parts) =
    let rest = full_parts parts in if is_empty (trim_part part) then rest else trim_part part ∷ rest

-- `_csv`
unfoldable pub csv : Environ → String → List String
unfolding full_parts split_at
csv environ name = full_parts (split_at b',' (value_or environ name ""))

unfoldable pub multi_pod_safe : Settings → Bool
multi_pod_safe s = elim s.redis_url [ none ↦ false | some _ ↦ true ]

-- The three choices among two names each.
unfoldable pub router_of : String → Result RouterName
unfolding reads_as
router_of raw =
    if reads_as "affinity" raw
    then ok affinity_router
    else if reads_as "round-robin" raw
    then ok round_robin_router
    else raise config_error

unfoldable pub policy_of : String → Result PolicyName
unfolding reads_as
policy_of raw =
    if reads_as "adaptive" raw
    then ok adaptive_eviction
    else if reads_as "lru" raw
    then ok lru_eviction
    else raise config_error

unfoldable pub backend_of : String → Result BackendName
unfolding reads_as
backend_of raw =
    if reads_as "simulated" raw
    then ok simulated_workers
    else if reads_as "vllm" raw
    then ok vllm_workers
    else raise config_error

abbrev pub require : Bool → Result (Unit {0})
require true = ok tt
require false = raise config_error

abbrev pub is_vllm : BackendName → Bool
is_vllm simulated_workers = false
is_vllm vllm_workers = true

abbrev pub is_empty_list : List String → Bool
is_empty_list [] = true
is_empty_list (_ ∷ _) = false

module _ (int_of : Cast ℤ) (float_of : Cast Float) (environ : Environ) where
  -- One replica for each endpoint of real workers.
  unfoldable pub replicas_of : BackendName → List String → Result ℕ
  unfolding num
  replicas_of vllm_workers endpoints = ok (length endpoints)
  replicas_of simulated_workers endpoints = num environ int_of "AGENTSERVE_REPLICAS" 4

  -- The expression that builds `cluster`.
  unfoldable pub load_cluster : ℕ → Result LoadedCluster
  unfolding num float_num
  load_cluster replicas = do
    gpu ← num environ int_of "AGENTSERVE_GPU_CACHE_TOKENS" 150_000
    dram ← num environ int_of "AGENTSERVE_DRAM_CACHE_TOKENS" 1_400_000
    pin ← float_num environ float_of "AGENTSERVE_PIN_THRESHOLD_MS" 2_000_000
    offload ← float_num environ float_of "AGENTSERVE_OFFLOAD_THRESHOLD_MS" 300_000_000
    dead ← float_num environ float_of "AGENTSERVE_DEAD_SESSION_MS" 600_000_000
    limit ← num environ int_of "AGENTSERVE_AFFINITY_QUEUE_LIMIT" 6
    alpha ← float_num environ float_of "AGENTSERVE_EWMA_ALPHA" 300
    prior ← float_num environ float_of "AGENTSERVE_PREDICTOR_PRIOR_MS" 5_000_000
    observed ← num environ int_of "AGENTSERVE_PREDICTOR_MIN_OBS" 2
    ok (record {
      replicas = replicas;
      hardware = record default_hardware { gpu_cache_tokens = gpu; dram_cache_tokens = dram };
      policy = record {
        pin_threshold_ms = pin;
        offload_threshold_ms = offload;
        dead_session_ms = dead;
        affinity_queue_limit = limit;
      };
      predictor = record { ewma_alpha = alpha; prior_ms = prior; min_observations = observed };
    })

  unfoldable pub load_settings : Result LoadedSettings
  unfolding router_of policy_of backend_of csv replicas_of load_cluster num float_num
  load_settings = do
    router ← router_of (value_or environ "AGENTSERVE_ROUTER" "affinity")
    policy ← policy_of (value_or environ "AGENTSERVE_POLICY" "adaptive")
    backend ← backend_of (value_or environ "AGENTSERVE_BACKEND" "simulated")
    let endpoints = csv environ "AGENTSERVE_VLLM_ENDPOINTS"
    _ ← require (not (is_vllm backend && is_empty_list endpoints))
    replicas ← replicas_of backend endpoints
    cluster ← load_cluster replicas
    _ ← require (
        ltb_float (thousandths 0) cluster.predictor.ewma_alpha
        && leb_float cluster.predictor.ewma_alpha (thousandths 1_000))
    _ ←
        require
          (not (leb_float cluster.policy.offload_threshold_ms cluster.policy.pin_threshold_ms))
    timeout ← float_num environ float_of "AGENTSERVE_VLLM_TIMEOUT_S" 300_000
    retries ← num environ int_of "AGENTSERVE_VLLM_MAX_RETRIES" 2
    ttl ← float_num environ float_of "AGENTSERVE_SESSION_TTL_S" 3_600_000
    sessions ← num environ int_of "AGENTSERVE_MAX_SESSIONS" 100_000
    ok (record {
      backend = backend;
      router = router;
      policy = policy;
      vllm_endpoints = endpoints;
      vllm_model = value_or environ "AGENTSERVE_VLLM_MODEL" default_settings.vllm_model;
      vllm_timeout_s = timeout;
      vllm_max_retries = retries;
      redis_url = value_if_full environ "AGENTSERVE_REDIS_URL";
      session_ttl_s = ttl;
      max_sessions = sessions;
      api_key = value_if_full environ "AGENTSERVE_API_KEY";
      tokenizer = value_or environ "AGENTSERVE_TOKENIZER" "cl100k_base";
      cluster = cluster;
    })
