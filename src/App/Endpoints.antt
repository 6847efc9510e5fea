-- ===== src/App/Endpoints.antt =====
-- agentserve/gateway.py: the guard of the completions, `/ready`, `/debug/sessions` and `/health`.
use agentserve.App.{AnyBackend, simulator, workers, App, over_memory, over_redis, chosen_policy}
use agentserve.Settings
use agentserve.Settings.{Settings, multi_pod_safe}
use agentserve.Common.Dict.{Dict}
use agentserve.Common.Int.{ℤ, pos, negsuc}
use agentserve.Common.{
  ℕ, String, Bool, true, false, ◌&&◌, Option, none, some, List, map, length, str_eq, if◌then◌else◌,
}
use agentserve.Gateway.{Gateway, Request, Response, Worker, http_error, chat_completions}
use agentserve.Models.{Ratio}
use agentserve.Predictor.{snapshot}
use agentserve.Replica
use agentserve.Replica.{Replica, inflight, gpu_utilization}
use agentserve.Router.Choice
use agentserve.Router.Choice.{AnyRouter, affinity, round_robin, affinity_hits, affinity_breaks}
use agentserve.State.{SessionStore}
use Prim.Native.String.{◌++◌ as append}

-- `require_api_key`: whether a request with this header goes on to its handler.
unfoldable pub require_api_key : (api_key authorization : Option String) → Bool
require_api_key none authorization = true
require_api_key (some api_key) none = false
require_api_key (some api_key) (some authorization) =
    str_eq authorization (append "Bearer " api_key)

-- Whether a size is at least 0.
abbrev pub is_size : ℤ → Bool
is_size (pos n) = true
is_size (negsuc n) = false

-- The answer of `/ready`.
pub record Readiness : Type 0 where
  pub session_store : Bool
  pub workers : Bool
  pub status : ℕ

-- One entry of `replicas` in the answer of `/debug/sessions`. The utilisation is not rounded.
pub record ReplicaReport : Type 0 where
  pub id : ℕ
  pub gpu_sessions : ℕ
  pub dram_sessions : ℕ
  pub gpu_utilization : Ratio
  pub inflight : ℕ
  pub peak_inflight : ℕ
  pub evictions : ℕ
  pub offloads : ℕ

unfoldable pub replica_report : Replica → ReplicaReport
replica_report r = record {
  id = r.id;
  gpu_sessions = length r.gpu;
  dram_sessions = length r.dram;
  gpu_utilization = Replica.gpu_utilization r;
  inflight = Replica.inflight r;
  peak_inflight = r.peak_active;
  evictions = r.evictions;
  offloads = r.offloads;
}

pub record SessionsReport : Type 0 where
  pub tracked_sessions : ℤ
  pub affinity_hits : ℕ
  pub affinity_breaks : ℕ
  pub replicas : List ReplicaReport
  pub predicted_tool_gaps_ms : Dict ℕ

module _ {S : Type 0} (ops : SessionStore S) where
  -- `probe` is what `aprobe` returns, where the backend has it.
  unfoldable pub ready : Option Bool → S → S × Readiness
  ready probe store =
      let (store', size) = ops.size store in
      let workers : Bool = elim probe [ none ↦ true | some answer ↦ answer ] in
      (
        store',
        record {
          session_store = is_size size;
          workers = workers;
          status = if is_size size && workers then 200 else 503;
        },
      )

  -- `router.tracked_sessions`, or 0 for a router without it.
  unfoldable pub tracked_sessions : AnyRouter → S → S × ℤ
  tracked_sessions (affinity config hits breaks) store = ops.size store
  tracked_sessions (round_robin cursor) store = (store, pos 0)

  unfoldable pub debug_sessions : Gateway S → Gateway S × SessionsReport
  unfolding tracked_sessions replica_report snapshot affinity_hits affinity_breaks
  debug_sessions g =
      let (store, tracked) = tracked_sessions g.router g.store in
      (
        record g { store = store },
        record {
          tracked_sessions = tracked;
          affinity_hits = Choice.affinity_hits g.router;
          affinity_breaks = Choice.affinity_breaks g.router;
          replicas = map replica_report g.replicas;
          predicted_tool_gaps_ms = snapshot g.predictor;
        },
      )

  -- The completions behind the guard.
  unfoldable pub post_completions :
      Worker
      → (encoder : Option (String → ℕ)) → (api_key authorization : Option String) → Gateway S
      → (read_at write_at now_ms : ℕ) → Request
      → Gateway S × Response
  unfolding chat_completions require_api_key
  post_completions worker encoder api_key authorization g read_at write_at now_ms request =
      let served = chat_completions ops worker encoder g read_at write_at now_ms request in
      if require_api_key api_key authorization then served else (g, http_error 401)

-- The names that `/health` shows: of the backend, the policy, the router and the session store.
abbrev pub backend_name : AnyBackend → String
backend_name (simulator hw) = "simulated"
backend_name (workers b) = "vllm"

abbrev pub router_name : AnyRouter → String
router_name (affinity config hits breaks) = "session-affinity"
router_name (round_robin cursor) = "round-robin"

pub record Health : Type 0 where
  pub status : String
  pub version : String
  pub backend : String
  pub replicas : ℕ
  pub policy : String
  pub router : String
  pub session_store : String
  pub multi_pod_safe : Bool

-- `/health` reads what was put together, and no session.
unfoldable pub health_of :
    {S : Type 0} → Settings → (version store_name : String) → AnyBackend → Gateway S → Health
unfolding multi_pod_safe
health_of s version store_name backend g = record {
  status = "ok";
  version = version;
  backend = backend_name backend;
  replicas = length g.replicas;
  policy = (chosen_policy s).name;
  router = router_name g.router;
  session_store = store_name;
  multi_pod_safe = Settings.multi_pod_safe s;
}

unfoldable pub health : {C : Type 0} → Settings → (version : String) → App C → Health
unfolding health_of
health s version app = elim app.gateway [
  | over_memory g ↦ health_of s version "memory" app.backend g
  | over_redis g ↦ health_of s version "redis" app.backend g
]
