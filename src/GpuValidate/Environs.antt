-- ===== src/GpuValidate/Environs.antt =====
-- scripts/gpu_validate.py and agentserve/settings.py: the gateway takes the environment of each arm.
use agentserve.Common.Float.{Float, leb_float, thousandths}
use agentserve.Common.Int.{ℤ, pos}
use agentserve.Common.Text.{is_empty, strip, lstrip_by, rstrip_by, reads_as}
use agentserve.Common.{
  ℕ, zero, suc, ◌+◌, ◌≤◌, ◌<◌, ◌≡◌, refl, ap, arith, ◌==◌, String, Bool, false, none, some, List,
  [], ◌∷◌, All, length, map,
}
use agentserve.GpuValidate.Endpoints.{decimal-IsPart, endpoints-IsPart}
use agentserve.GpuValidate.Lists.{csv-join_by_comma, full_number}
use agentserve.GpuValidate.{
  Arguments, WorkerPlacement, placed_from, placement, decimal, endpoint, gateway_environ, shares,
}
use agentserve.Result.{ok}
use agentserve.Settings.{
  Cast, Environ, Settings, float_num, checked_float, loaded, loaded_cluster, RouterName, PolicyName,
  affinity_router, round_robin_router, adaptive_eviction, lru_eviction, vllm_workers,
  default_settings, csv, num, checked, load_cluster, load_settings, router_of, policy_of,
  backend_of, replicas_of,
}

length-placed_from :
    (is_shared : Bool) (n_gpus first left : ℕ)
    → length (map endpoint (placed_from is_shared n_gpus first left)) ≡ left
unfolding placed_from
length-placed_from is_shared n_gpus first zero = refl
length-placed_from is_shared n_gpus first (suc left) =
    ap suc (length-placed_from is_shared n_gpus (first + 1) left)

num-given :
    (environ : Environ) (cast : Cast ℤ) (name raw : String) (default n : ℕ)
    → environ name ≡ some raw
    → is_empty (strip raw) ≡ false
    → cast raw ≡ some (pos n)
    → 1 ≤ n
    → num environ cast name default ≡ ok n
unfolding num checked
num-given environ cast name raw default n given full read h =
    let positive : (n == 0) ≡ false = ground (arith, h) in
    rw (given, num, full, read, checked, positive)

num-unset :
    (environ : Environ) (cast : Cast ℤ) (name : String) (default : ℕ)
    → environ name ≡ none
    → num environ cast name default ≡ ok default
unfolding num
num-unset environ cast name default unset = rw (unset, num)

float_num-given :
    (environ : Environ) (cast : Cast Float) (name raw : String) (default n : ℕ)
    → environ name ≡ some raw
    → is_empty (strip raw) ≡ false
    → cast raw ≡ some (thousandths n)
    → 1 ≤ n
    → float_num environ cast name default ≡ ok (thousandths n)
unfolding float_num checked_float
float_num-given environ cast name raw default n given full read h =
    let positive : leb_float (thousandths n) (thousandths 0) ≡ false = ground (arith, h) in
    rw (given, float_num, full, read, checked_float, positive)

float_num-unset :
    (environ : Environ) (cast : Cast Float) (name : String) (default : ℕ)
    → environ name ≡ none
    → float_num environ cast name default ≡ ok (thousandths default)
unfolding float_num
float_num-unset environ cast name default unset = rw (unset, float_num)

-- The variables that `start_gateway` does not set.
abbrev pub outer_names : List String
outer_names =
    "AGENTSERVE_DRAM_CACHE_TOKENS" ∷ "AGENTSERVE_DEAD_SESSION_MS"
    ∷ "AGENTSERVE_AFFINITY_QUEUE_LIMIT" ∷ "AGENTSERVE_EWMA_ALPHA" ∷ "AGENTSERVE_PREDICTOR_PRIOR_MS"
    ∷ "AGENTSERVE_PREDICTOR_MIN_OBS" ∷ "AGENTSERVE_VLLM_TIMEOUT_S" ∷ "AGENTSERVE_VLLM_MAX_RETRIES"
    ∷ "AGENTSERVE_SESSION_TTL_S" ∷ "AGENTSERVE_MAX_SESSIONS" ∷ "AGENTSERVE_REDIS_URL"
    ∷ "AGENTSERVE_TOKENIZER" ∷ []

-- A text that Python reads as a number of thousandths.
abbrev pub ReadsAs : Cast Float → String → ℕ → Type 0
ReadsAs cast raw n = (is_empty (strip raw) ≡ false) × (cast raw ≡ some (thousandths n))

-- The settings of an arm.
abbrev pub arm_settings :
    Arguments → List String → (pin offload : ℕ) → RouterName → PolicyName → Settings
arm_settings args endpoints pin offload router policy = record default_settings {
  backend = vllm_workers;
  router = router;
  policy = policy;
  vllm_endpoints = endpoints;
  vllm_model = args.model;
  cluster = record default_settings.cluster {
    replicas = length endpoints;
    hardware = record default_settings.cluster.hardware {
      gpu_cache_tokens = args.kv_budget_tokens;
    };
    policy = record default_settings.cluster.policy {
      pin_threshold_ms = pin;
      offload_threshold_ms = offload;
    };
  };
}

-- The choice of an arm.
abbrev Chooses : (router policy : String) → RouterName → PolicyName → Type 0
Chooses router policy r p = (router_of router ≡ ok r) × (policy_of policy ≡ ok p)

baseline-Chooses : Chooses "round-robin" "lru" round_robin_router lru_eviction
unfolding router_of policy_of reads_as strip lstrip_by rstrip_by
baseline-Chooses = (refl, refl)

treatment-Chooses : Chooses "affinity" "adaptive" affinity_router adaptive_eviction
unfolding router_of policy_of reads_as strip lstrip_by rstrip_by
treatment-Chooses = (refl, refl)

module _ (int_of : Cast ℤ) (float_of : Cast Float) (environ : Environ) (root : String)
    (args : Arguments) (unset : All (λ name. environ name ≡ none) outer_names) (pin offload : ℕ)
    (budget : 1 ≤ args.kv_budget_tokens)
    (budget_read : int_of (decimal args.kv_budget_tokens) ≡ some (pos args.kv_budget_tokens))
    (pin_read : ReadsAs float_of args.pin_threshold_ms pin)
    (offload_read : ReadsAs float_of args.offload_threshold_ms offload) (positive : 1 ≤ pin)
    (ordered : pin < offload) where
  module _ (endpoints : List String) (router policy : String) where
    abbrev inner : Environ
    inner = gateway_environ environ root args endpoints router policy

    load_cluster-inner :
        (n : ℕ)
        → load_cluster int_of float_of inner n
          ≡ ok (
              loaded_cluster (record default_settings.cluster {
                replicas = n;
                hardware = record default_settings.cluster.hardware {
                  gpu_cache_tokens = args.kv_budget_tokens;
                };
                policy = record default_settings.cluster.policy {
                  pin_threshold_ms = pin;
                  offload_threshold_ms = offload;
                };
              }))
    unfolding load_cluster gateway_environ
    load_cluster-inner n = rw (
      num-given inner int_of "AGENTSERVE_GPU_CACHE_TOKENS" (decimal args.kv_budget_tokens) 150_000
          args.kv_budget_tokens refl (full_number _ (decimal-IsPart args.kv_budget_tokens))
          budget_read budget,
      num-unset inner int_of "AGENTSERVE_DRAM_CACHE_TOKENS" 1_400_000 unset.0,
      float_num-given inner float_of "AGENTSERVE_PIN_THRESHOLD_MS" args.pin_threshold_ms 2_000_000
          pin refl pin_read.0 pin_read.1 positive,
      float_num-given inner float_of "AGENTSERVE_OFFLOAD_THRESHOLD_MS" args.offload_threshold_ms
          300_000_000 offload refl offload_read.0 offload_read.1 (omega (arith, ordered)),
      float_num-unset inner float_of "AGENTSERVE_DEAD_SESSION_MS" 600_000_000 unset.1.0,
      num-unset inner int_of "AGENTSERVE_AFFINITY_QUEUE_LIMIT" 6 unset.1.1.0,
      float_num-unset inner float_of "AGENTSERVE_EWMA_ALPHA" 300 unset.1.1.1.0,
      float_num-unset inner float_of "AGENTSERVE_PREDICTOR_PRIOR_MS" 5_000_000 unset.1.1.1.1.0,
      num-unset inner int_of "AGENTSERVE_PREDICTOR_MIN_OBS" 2 unset.1.1.1.1.1.0,
    )

  load_settings-inner :
      (p : WorkerPlacement) (ps : List WorkerPlacement) (router policy : String) (r : RouterName)
      (q : PolicyName)
      → Chooses router policy r q
      → load_settings int_of float_of (inner (map endpoint (p ∷ ps)) router policy)
        ≡ ok (loaded (arm_settings args (map endpoint (p ∷ ps)) pin offload r q))
  unfolding load_settings gateway_environ csv replicas_of backend_of
  load_settings-inner p ps router policy r q chosen =
      let endpoints = map endpoint (p ∷ ps) in
      let env = inner endpoints router policy in
      let in_order : leb_float (thousandths offload) (thousandths pin) ≡ false =
        ground (arith, ordered) in
      rw (
        chosen.0,
        chosen.1,
        csv-join_by_comma endpoints (endpoints-IsPart (p ∷ ps)),
        load_cluster-inner endpoints router policy (length endpoints),
        in_order,
        float_num-unset env float_of "AGENTSERVE_VLLM_TIMEOUT_S" 300_000 unset.1.1.1.1.1.1.0,
        num-unset env int_of "AGENTSERVE_VLLM_MAX_RETRIES" 2 unset.1.1.1.1.1.1.1.0,
        float_num-unset env float_of "AGENTSERVE_SESSION_TTL_S" 3_600_000 unset.1.1.1.1.1.1.1.1.0,
        num-unset env int_of "AGENTSERVE_MAX_SESSIONS" 100_000 unset.1.1.1.1.1.1.1.1.1.0,
        unset.1.1.1.1.1.1.1.1.1.1.0,
        unset.1.1.1.1.1.1.1.1.1.1.1.0,
      )

  -- If the outer environment sets none of the other variables, Python reads the texts of the
  -- numbers as positive numbers, with the pin threshold below the offload threshold, and there is
  -- a worker: `load_settings` accepts the environment of both arms, with the router and the policy
  -- of the arm, the endpoints of the placed workers in their order, one replica for each, and the
  -- thresholds and the budget of the arguments.
  pub load_settings-gateway_environ :
      (share_gpu : Bool) (replicas n_gpus : ℕ)
      → 1 ≤ replicas
      → let endpoints = map endpoint (placement share_gpu replicas n_gpus) in
        (length endpoints ≡ replicas)
        × (load_settings int_of float_of
              (gateway_environ environ root args endpoints "round-robin" "lru")
            ≡ ok (loaded (arm_settings args endpoints pin offload round_robin_router lru_eviction)))
        × (load_settings int_of float_of
              (gateway_environ environ root args endpoints "affinity" "adaptive")
            ≡ ok (
                loaded (arm_settings args endpoints pin offload affinity_router adaptive_eviction)))
  unfolding placement placed_from
  load_settings-gateway_environ share_gpu zero n_gpus h = absurd (omega (arith, h))
  load_settings-gateway_environ share_gpu (suc others) n_gpus h =
      let is_shared = shares share_gpu (suc others) n_gpus in
      let rest = placed_from is_shared n_gpus (0 + 1) others in
      (
        length-placed_from is_shared n_gpus 0 (suc others),
        load_settings-inner _ rest "round-robin" "lru" round_robin_router lru_eviction
            baseline-Chooses,
        load_settings-inner _ rest "affinity" "adaptive" affinity_router adaptive_eviction
            treatment-Chooses,
      )
