-- ===== src/App.antt =====
-- agentserve/gateway.py: `create_app` and `build_backend`.
pub mod Endpoints
pub mod Interleaving
pub mod Readiness
pub mod Serving
use agentserve.Backends.Vllm
use agentserve.Backends.Vllm.{VllmBackend}
use agentserve.Common.{ℕ, zero, suc, ◌+◌, ◌*◌, String, Option, none, some, List, [], ◌∷◌}
use agentserve.Config.{HardwareProfile}
use agentserve.Gateway.{Gateway}
use agentserve.Metrics.{no_metrics}
use agentserve.Policy.{CachePolicy, lru_policy, adaptive_ttl_policy}
use agentserve.Predictor
use agentserve.Replica
use agentserve.Replica.{Replica}
use agentserve.Result.{Result, ok, raise, ◌>>=◌}
use agentserve.Router.Choice.{AnyRouter, affinity, round_robin}
use agentserve.Settings.{
  Settings, BackendName, simulated_workers, vllm_workers, RouterName, affinity_router,
  round_robin_router, PolicyName, adaptive_eviction, lru_eviction,
}
use agentserve.State.Memory.{InMemorySessionStore}
use agentserve.State.Redis.{
  RedisClient, RedisSessionStore, AnyStore, in_memory, in_redis, build_session_store,
}

-- `[Replica(i, hardware, policy) for i in range(first, first + n)]`
unfoldable pub fresh_replicas : HardwareProfile → CachePolicy → (first n : ℕ) → List Replica
fresh_replicas hw policy first zero = []
fresh_replicas hw policy first (suc n) =
    Replica.init first hw policy ∷ fresh_replicas hw policy (first + 1) n

abbrev pub chosen_policy : Settings → CachePolicy
chosen_policy s = elim s.policy [
  | adaptive_eviction ↦ adaptive_ttl_policy s.cluster.policy
  | lru_eviction ↦ lru_policy
]

abbrev pub chosen_router : Settings → AnyRouter
chosen_router s = elim s.router [
  | affinity_router ↦ affinity s.cluster.policy 0 0
  | round_robin_router ↦ round_robin 0
]

-- The parts that `create_app` puts together, over a session store.
unfoldable pub assemble : {S : Type 0} → Settings → S → Gateway S
unfolding fresh_replicas
assemble s store = record {
  replicas = fresh_replicas s.cluster.hardware (chosen_policy s) 0 s.cluster.replicas;
  router = chosen_router s;
  predictor = Predictor.init s.cluster.predictor;
  store = store;
  metrics = no_metrics;
}

pub data AnyBackend : Type 0 where
  simulator : HardwareProfile → AnyBackend
  workers : VllmBackend → AnyBackend

unfoldable pub build_backend : Settings → Result AnyBackend
build_backend s = elim s.backend [
  | simulated_workers ↦ ok (simulator s.cluster.hardware)
  | vllm_workers ↦
      Vllm.init s.vllm_endpoints s.vllm_model s.vllm_max_retries >>= λ b. ok (workers b)
]

pub data AnyGateway (C : Type 0) : Type 0 where
  over_memory : Gateway InMemorySessionStore → AnyGateway C
  over_redis : Gateway (RedisSessionStore C) → AnyGateway C

pub record App (C : Type 0) : Type 0 where
  pub gateway : AnyGateway C
  pub backend : AnyBackend
  pub api_key : Option String

unfoldable pub over_store : {C : Type 0} → Settings → AnyStore C → AnyGateway C
unfolding assemble
over_store s (in_memory store) = over_memory (assemble s store)
over_store s (in_redis store) = over_redis (assemble s store)

unfoldable pub create_app : {C : Type 0} → RedisClient C → Settings → Result (App C)
unfolding over_store build_backend
create_app redis s = do
  store ← build_session_store redis s.redis_url (s.session_ttl_s * 1_000) s.max_sessions
  backend ← build_backend s
  ok (record { gateway = over_store s store; backend = backend; api_key = s.api_key })
