-- ===== src/Settings/Validity.antt =====
-- agentserve/settings.py: what `load_settings` lets through.
use agentserve.Common.Float.{Float, leb_float, ltb_float, thousandths}
use agentserve.Common.Int.{ℤ, pos, negsuc}
use agentserve.Common.Text.{strip, is_empty}
use agentserve.Common.{
  ℕ, ◌≤◌, ◌<◌, ◌≡◌, refl, ◌∙◌, ◌∷◌, arith, String, true, Option, none, some, List, [], length,
  Option-cases, Bool-cases, inl, inr, Bool, false, not, ◌&&◌,
}
use agentserve.Settings.{
  Environ, Cast, checked, num, checked_float, float_num, LoadedCluster, LoadedSettings, loaded,
  BackendName, simulated_workers, vllm_workers, Settings, default_settings, replicas_of,
  load_cluster, load_settings, csv, require, router_of, policy_of, backend_of, value_or, is_vllm,
  is_empty_list,
}
use mathlib.Core.Path.{fun_ext}
use agentserve.Result.Ensures.{Ensures, escapes, yields, >>=-Ensures, Ensures-of_eq, Ensures-eq-ok}
use agentserve.Result.{Result, ok}

-- A value that passes the test of `_num`: no value of at most 0. nan passes.
abbrev pub IsAbove : (bound : Float) → Float → Type 0
IsAbove bound value = leb_float value bound ≡ false

abbrev IsPositive : Float → Type 0
IsPositive value = IsAbove (thousandths 0) value

-- What `load_settings` establishes.
pub record IsAccepted (s : LoadedSettings) : Type 0 where
  pub replicas : 1 ≤ s.cluster.replicas
  pub gpu_cache : 1 ≤ s.cluster.hardware.gpu_cache_tokens
  pub dram_cache : 1 ≤ s.cluster.hardware.dram_cache_tokens
  pub queue_limit : 1 ≤ s.cluster.policy.affinity_queue_limit
  pub pin : IsPositive s.cluster.policy.pin_threshold_ms
  pub dead : IsPositive s.cluster.policy.dead_session_ms
  pub ordered : IsAbove s.cluster.policy.pin_threshold_ms s.cluster.policy.offload_threshold_ms
  pub alpha : (n : ℕ) × (s.cluster.predictor.ewma_alpha ≡ thousandths n) × (1 ≤ n) × (n ≤ 1_000)
  pub prior : IsPositive s.cluster.predictor.prior_ms
  pub observations : 1 ≤ s.cluster.predictor.min_observations
  pub timeout : IsPositive s.vllm_timeout_s
  pub retries : 1 ≤ s.vllm_max_retries
  pub ttl : IsPositive s.session_ttl_s
  pub sessions : 1 ≤ s.max_sessions
  pub endpoints : s.backend ≡ vllm_workers → s.cluster.replicas ≡ length s.vllm_endpoints

-- Settings with which the rest of the code works.
pub record IsSound (s : Settings) : Type 0 where
  pub replicas : 1 ≤ s.cluster.replicas
  pub gpu_cache : 1 ≤ s.cluster.hardware.gpu_cache_tokens
  pub ordered : s.cluster.policy.pin_threshold_ms < s.cluster.policy.offload_threshold_ms
  pub observations : 1 ≤ s.cluster.predictor.min_observations

checked_positive : (cast : Option ℤ) (n : ℕ) → checked cast ≡ ok n → 1 ≤ n
unfolding checked
checked_positive none n e = ground arith
checked_positive (some (negsuc m)) n e = ground arith
checked_positive (some (pos m)) n e = ground arith

num_positive :
    (environ : Environ) (cast : Cast ℤ) (name : String) (default n : ℕ)
    → 1 ≤ default
    → num environ cast name default ≡ ok n
    → 1 ≤ n
unfolding num
num_positive environ cast name default n h e = elim (Option-cases (environ name)) [
  | inl unset ↦ ground (arith, unset, e)
  | inr (raw, given) ↦ elim (Bool-cases (is_empty (strip raw))) [
    | inl blank ↦ ground (arith, given, blank, e)
    | inr full ↦ checked_positive (cast raw) n (ground (arith, given, full, e))
  ]
]

checked_float-IsPositive :
    (cast : Option Float) (value : Float) → checked_float cast ≡ ok value → IsPositive value
unfolding checked_float
checked_float-IsPositive none value e = ground (arith, e)
checked_float-IsPositive (some x) value e = elim (Bool-cases (leb_float x (thousandths 0))) [
  | inl low ↦ ground (arith, low, e)
  | inr above ↦ ground (arith, above, e)
]

abbrev Positive : ℕ → Type 0
Positive n = 1 ≤ n

-- A number that is not nan.
proportion :
    (x : Float)
    → (ltb_float (thousandths 0) x && leb_float x (thousandths 1_000)) ≡ true
    → (n : ℕ) × (x ≡ thousandths n) × (1 ≤ n) × (n ≤ 1_000)
proportion (Float.finite (pos n)) h = (n, refl, ground (arith, h), ground (arith, h))
proportion (Float.finite (negsuc n)) h = ground (arith, h)
proportion Float.infinity h = ground (arith, h)
proportion Float.minus_infinity h = ground (arith, h)
proportion Float.nan h = ground (arith, h)

is_false : (b : Bool) → not b ≡ true → b ≡ false
is_false true h = ground (arith, h)
is_false false h = refl

abbrev Always {ℓ} : {V : Type ℓ} → V → Type 0
Always value = Unit

any {ℓ} : {V : Type ℓ} (call : Result V) → Ensures Always call
any call = Ensures-of_eq call (λ value e. tt)

require-Ensures : (b : Bool) → Ensures (λ (_ : Unit {0}). b ≡ true) (require b)
require-Ensures true = yields refl
require-Ensures false = escapes

module _ (int_of : Cast ℤ) (float_of : Cast Float) (environ : Environ) where
  num-Ensures :
      (cast : Cast ℤ) (name : String) (default : ℕ)
      → 1 ≤ default
      → Ensures Positive (num environ cast name default)
  num-Ensures cast name default h =
      Ensures-of_eq (num environ cast name default)
        (λ n e. num_positive environ cast name default n h e)

  float_num-Ensures :
      (cast : Cast Float) (name : String) (default : ℕ)
      → IsPositive (thousandths default)
      → Ensures IsPositive (float_num environ cast name default)
  unfolding float_num
  float_num-Ensures cast name default h = elim (Option-cases (environ name)) [
    | inl unset ↦ rw (unset, float_num) (yields h)
    | inr (raw, given) ↦ elim (Bool-cases (is_empty (strip raw))) [
      | inl blank ↦ rw (given, float_num, blank) (yields h)
      | inr full ↦
          rw (given, float_num, full)
            (Ensures-of_eq (checked_float (cast raw)) (checked_float-IsPositive (cast raw)))
    ]
  ]

  abbrev IsSoundCluster : ℕ → LoadedCluster → Type 0
  IsSoundCluster replicas c =
      (c.replicas ≡ replicas)
      × (1 ≤ c.hardware.gpu_cache_tokens)
      × (1 ≤ c.hardware.dram_cache_tokens)
      × (1 ≤ c.policy.affinity_queue_limit)
      × IsPositive c.policy.pin_threshold_ms
      × IsPositive c.policy.dead_session_ms
      × IsPositive c.predictor.prior_ms
      × (1 ≤ c.predictor.min_observations)

  load_cluster-Ensures :
      (replicas : ℕ)
      → Ensures (IsSoundCluster replicas) (load_cluster int_of float_of environ replicas)
  unfolding load_cluster
  load_cluster-Ensures replicas =
      >>=-Ensures (num-Ensures int_of "AGENTSERVE_GPU_CACHE_TOKENS" 150_000 (omega arith))
        λ gpu some_gpu.
          >>=-Ensures (num-Ensures int_of "AGENTSERVE_DRAM_CACHE_TOKENS" 1_400_000 (omega arith))
            λ dram some_dram.
              >>=-Ensures (float_num-Ensures float_of "AGENTSERVE_PIN_THRESHOLD_MS" 2_000_000 refl)
                λ pin pinned.
                  >>=-Ensures
                    (float_num-Ensures float_of "AGENTSERVE_OFFLOAD_THRESHOLD_MS" 300_000_000 refl)
                    λ offload _.
                      >>=-Ensures
                        (float_num-Ensures float_of "AGENTSERVE_DEAD_SESSION_MS" 600_000_000 refl)
                        λ dead some_time.
                          >>=-Ensures
                            (num-Ensures int_of "AGENTSERVE_AFFINITY_QUEUE_LIMIT" 6 (omega arith))
                            λ limit some_limit.
                              >>=-Ensures
                                (float_num-Ensures float_of "AGENTSERVE_EWMA_ALPHA" 300 refl)
                                λ alpha _.
                                  >>=-Ensures
                                    (float_num-Ensures float_of "AGENTSERVE_PREDICTOR_PRIOR_MS"
                                      5_000_000 refl)
                                    λ prior some_prior.
                                      >>=-Ensures
                                        (num-Ensures int_of "AGENTSERVE_PREDICTOR_MIN_OBS" 2
                                          (omega arith))
                                        λ observed some_observed. yields (
                                          refl, some_gpu, some_dram, some_limit, pinned, some_time,
                                          some_prior, some_observed,
                                        )

  replicas_of-Ensures :
      (backend : BackendName) (endpoints : List String)
      → not (is_vllm backend && is_empty_list endpoints) ≡ true
      → Ensures
          (λ n. (1 ≤ n) × (backend ≡ vllm_workers → n ≡ length endpoints))
          (replicas_of int_of float_of environ backend endpoints)
  unfolding replicas_of
  replicas_of-Ensures vllm_workers [] h = absurd (ground (arith, h))
  replicas_of-Ensures vllm_workers (e ∷ es) h = yields (omega arith, λ _. refl)
  replicas_of-Ensures simulated_workers endpoints h =
      Ensures-of_eq (num environ int_of "AGENTSERVE_REPLICAS" 4) (λ n e. (
        num_positive environ int_of "AGENTSERVE_REPLICAS" 4 n (omega arith) e,
        λ same. absurd (ground (arith, same)),
      ))

  load_settings-Ensures : Ensures IsAccepted (load_settings int_of float_of environ)
  unfolding load_settings
  load_settings-Ensures =
      >>=-Ensures (any (router_of (value_or environ "AGENTSERVE_ROUTER" "affinity"))) λ router _.
        >>=-Ensures (any (policy_of (value_or environ "AGENTSERVE_POLICY" "adaptive"))) λ policy _.
          >>=-Ensures (any (backend_of (value_or environ "AGENTSERVE_BACKEND" "simulated")))
            λ backend _.
              >>=-Ensures
                (require-Ensures (
                  not (is_vllm backend && is_empty_list (csv environ "AGENTSERVE_VLLM_ENDPOINTS"))))
                λ _ served.
                  >>=-Ensures
                    (replicas_of-Ensures backend (csv environ "AGENTSERVE_VLLM_ENDPOINTS") served)
                    λ replicas counted. >>=-Ensures (load_cluster-Ensures replicas) λ cluster sound.
                      >>=-Ensures
                        (require-Ensures (
                          ltb_float (thousandths 0) cluster.predictor.ewma_alpha
                          && leb_float cluster.predictor.ewma_alpha (thousandths 1_000)))
                        λ _ alpha.
                          >>=-Ensures
                            (require-Ensures (
                              not (
                                leb_float cluster.policy.offload_threshold_ms
                                  cluster.policy.pin_threshold_ms)))
                            λ _ ordered.
                              >>=-Ensures
                                (float_num-Ensures float_of "AGENTSERVE_VLLM_TIMEOUT_S" 300_000
                                  refl)
                                λ timeout some_timeout.
                                  >>=-Ensures
                                    (num-Ensures int_of "AGENTSERVE_VLLM_MAX_RETRIES" 2
                                      (omega arith))
                                    λ retries some_retry.
                                      >>=-Ensures
                                        (float_num-Ensures float_of "AGENTSERVE_SESSION_TTL_S"
                                          3_600_000 refl)
                                        λ ttl some_ttl.
                                          >>=-Ensures
                                            (num-Ensures int_of "AGENTSERVE_MAX_SESSIONS" 100_000
                                              (omega arith))
                                            λ sessions some_session. yields (record {
                                              replicas = omega (arith, sound.0, counted.0);
                                              gpu_cache = sound.1;
                                              dram_cache = sound.2;
                                              queue_limit = sound.3;
                                              pin = sound.4;
                                              dead = sound.5;
                                              ordered = is_false _ ordered;
                                              alpha = proportion _ alpha;
                                              prior = sound.6;
                                              observations = sound.7;
                                              timeout = some_timeout;
                                              retries = some_retry;
                                              ttl = some_ttl;
                                              sessions = some_session;
                                              endpoints = λ real. sound.0 ∙ counted.1 real;
                                            })

  pub load_settings-IsAccepted :
      (s : LoadedSettings) → load_settings int_of float_of environ ≡ ok s → IsAccepted s
  load_settings-IsAccepted s = Ensures-eq-ok _ s load_settings-Ensures

pub IsSound-loaded : (s : Settings) → IsAccepted (loaded s) → IsSound s
IsSound-loaded s h = record {
  replicas = h.replicas;
  gpu_cache = h.gpu_cache;
  ordered = ground (arith, h.ordered);
  observations = h.observations;
}

-- With no variable set, `load_settings` returns the settings that the defaults of the dataclasses
-- give.
pub load_settings_default :
    (int_of : Cast ℤ) (float_of : Cast Float) (environ : Environ)
    → ((name : String) → environ name ≡ none)
    → load_settings int_of float_of environ ≡ ok (loaded default_settings)
unfolding load_settings
load_settings_default int_of float_of environ unset =
    let same : environ ≡ (λ name. none) = fun_ext unset in rw same refl
