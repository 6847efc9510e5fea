-- ===== src/GpuValidate.antt =====
-- scripts/gpu_validate.py: where the workers of a run are placed, and how the gateway of an arm is
-- started. The texts of the arguments that are floats are parameters. Shares of a GPU's memory are in
-- thousandths.
pub mod Placements
pub mod Lists
pub mod Endpoints
pub mod Environs
use agentserve.Common.Text.{strip, is_empty}
use agentserve.Common.{
  ℕ, zero, suc, ◌+◌, ◌*◌, ◌%◌, min, max, ltb, ◌==◌, String, Bool, true, false, ◌||◌, str_eq, Option,
  none, some, List, [], ◌∷◌, length, map, if◌then◌else◌,
}
use agentserve.LiveReplay.{decimal_on}
use agentserve.Replay.{round_ratio}
use agentserve.Result.{Result, ok, raise, zero_division_error}
use agentserve.Settings.{Environ}
use Prim.Native.String.{◌++◌ as append}

-- `detect_gpus`: the lines that the tool prints, without the empty ones.
unfoldable pub full_lines : List String → List String
unfolding strip
full_lines [] = []
full_lines (line ∷ lines) =
    let rest = full_lines lines in if is_empty (strip line) then rest else strip line ∷ rest

unfoldable pub gpu_count : List String → ℕ
gpu_count gpus = max 1 (length gpus)

-- Whether all workers go to the first GPU.
unfoldable pub shares : (share_gpu : Bool) → (replicas n_gpus : ℕ) → Bool
shares share_gpu replicas n_gpus = share_gpu || ltb n_gpus replicas

-- The share of a GPU's memory that each worker may claim, where the command line gives none:
-- `round(min(0.85, 0.80 / per_gpu), 3)`.
unfoldable pub memory_share : (is_shared : Bool) → (replicas n_gpus : ℕ) → Result ℕ
unfolding round_ratio
memory_share false replicas n_gpus = ok 800
memory_share true zero n_gpus = raise zero_division_error
memory_share true (suc others) n_gpus = ok (min 850 (round_ratio (800 * n_gpus) (suc others)))

pub record WorkerPlacement : Type 0 where
  pub worker : ℕ
  pub gpu : ℕ
  pub port : ℕ

-- The workers from one on, and the number of those that are left.
unfoldable pub placed_from : (is_shared : Bool) → (n_gpus first left : ℕ) → List WorkerPlacement
placed_from is_shared n_gpus first zero = []
placed_from is_shared n_gpus first (suc left) =
    record { worker = first; gpu = if is_shared then 0 else first % n_gpus; port = 8_300 + first }
    ∷ placed_from is_shared n_gpus (first + 1) left

unfoldable pub placement : (share_gpu : Bool) → (replicas n_gpus : ℕ) → List WorkerPlacement
unfolding shares placed_from
placement share_gpu replicas n_gpus =
    placed_from (shares share_gpu replicas n_gpus) n_gpus 0 replicas

-- `str(n)`. A number has fewer digits than one more than itself.
unfoldable pub decimal : ℕ → String
unfolding decimal_on
decimal n = decimal_on (n + 1) n

unfoldable pub endpoint : WorkerPlacement → String
unfolding decimal
endpoint p = append "http://127.0.0.1:" (decimal p.port)

-- `",".join(texts)`
unfoldable pub join_by_comma : List String → String
join_by_comma [] = ""
join_by_comma (text ∷ []) = text
join_by_comma (text ∷ more ∷ texts) = append text (append "," (join_by_comma (more ∷ texts)))

-- The arguments that `start_gateway` reads, with the texts of the two that are floats.
pub record Arguments : Type 0 where
  pub model : String
  pub kv_budget_tokens : ℕ
  pub pin_threshold_ms : String
  pub offload_threshold_ms : String

-- The environment of the gateway: the outer one, with these variables, and without the key.
unfoldable pub gateway_environ :
    Environ
    → (root : String) → Arguments
    → (endpoints : List String) → (router policy : String) → Environ
unfolding join_by_comma decimal
gateway_environ environ root args endpoints router policy name =
    if str_eq name "AGENTSERVE_API_KEY"
    then none
    else if str_eq name "AGENTSERVE_BACKEND"
    then some "vllm"
    else if str_eq name "AGENTSERVE_VLLM_ENDPOINTS"
    then some (join_by_comma endpoints)
    else if str_eq name "AGENTSERVE_VLLM_MODEL"
    then some args.model
    else if str_eq name "AGENTSERVE_ROUTER"
    then some router
    else if str_eq name "AGENTSERVE_POLICY"
    then some policy
    else if str_eq name "AGENTSERVE_GPU_CACHE_TOKENS"
    then some (decimal args.kv_budget_tokens)
    else if str_eq name "AGENTSERVE_PIN_THRESHOLD_MS"
    then some args.pin_threshold_ms
    else if str_eq name "AGENTSERVE_OFFLOAD_THRESHOLD_MS"
    then some args.offload_threshold_ms
    else if str_eq name "PYTHONPATH"
    then some root
    else environ name

-- The two arms: a label, a router and a policy.
abbrev pub arms : List (String × String × String)
arms = ("round-robin + LRU", "round-robin", "lru") ∷ ("AgentServe", "affinity", "adaptive") ∷ []
