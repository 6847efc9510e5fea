-- ===== src/App/Interleaving.antt =====
-- agentserve/gateway.py: the app from its start on, while requests interleave.
use agentserve.App.Serving.{init-IsBounded}
use agentserve.App.{
  AnyBackend, AnyGateway, App, simulator, over_memory, over_redis, workers, fresh_replicas,
  assemble, over_store, build_backend, chosen_policy, create_app,
}
use agentserve.Backends.Vllm.Streaming.{Piece}
use agentserve.Common.Positions.{AllAt}
use agentserve.Common.{
  ◌*◌, ℕ, zero, suc, ◌+◌, ◌≡◌, refl, subst, arith, inl, inr, String, Option, List, All,
}
use agentserve.Config.{HardwareProfile}
use agentserve.Gateway.Interleaved.Caches.{
  Wiring, Healthy, CallKeeps, vllm_worker, vllm_worker-CallKeeps, simulated-CallKeeps,
  interleave-Healthy,
}
use agentserve.Gateway.Interleaved.Counts.{IsFresh, started}
use agentserve.Gateway.Interleaved.{EventLoop, Job, LoopEvent, interleave, open_requests}
use agentserve.Gateway.Capacity.{simulated}
use agentserve.Gateway.Streams.{whole}
use agentserve.Gateway.{Worker}
use agentserve.Policy.{CachePolicy}
use agentserve.Replica
use agentserve.Replica.{Replica}
use agentserve.Replica.Storing.{IsBounded}
use agentserve.Result.{ok, Result-cases}
use agentserve.Settings.{Settings}
use agentserve.State.Memory.{memory_store}
use agentserve.State.Redis.{
  RedisClient, AnyStore, in_memory, in_redis, build_session_store, redis_store,
}
use agentserve.State.{SessionStore}

-- Every replica stands at its number and is healthy, with as many requests inside of its slots.
abbrev pub AllHealthy : {S : Type 0} → EventLoop S → Type 0
AllHealthy loop =
    AllAt (λ i r. (r.id ≡ i) × Healthy (open_requests i loop.jobs) r) 0 loop.gateway.replicas

module _ (hw : HardwareProfile) (policy : CachePolicy) where
  fresh_replicas-IsFresh : (first n : ℕ) → AllAt IsFresh first (fresh_replicas hw policy first n)
  unfolding fresh_replicas Replica.init
  fresh_replicas-IsFresh first zero = tt
  fresh_replicas-IsFresh first (suc n) = (
    (refl, refl),
    subst (λ k. AllAt IsFresh k (fresh_replicas hw policy (first + 1) n))
        (let e : first + 1 ≡ suc first = omega arith in e) (fresh_replicas-IsFresh (first + 1) n),
  )

  fresh_replicas-IsBounded : (first n : ℕ) → All IsBounded (fresh_replicas hw policy first n)
  unfolding fresh_replicas
  fresh_replicas-IsBounded first zero = tt
  fresh_replicas-IsBounded first (suc n) =
      (init-IsBounded first hw policy, fresh_replicas-IsBounded (first + 1) n)

-- The backend of the app at a call.
unfoldable pub worker_of : (String → Option Piece) → AnyBackend → Wiring → Worker
worker_of loads (simulator hw) wiring = whole (simulated hw)
worker_of loads (workers b) wiring = vllm_worker loads b wiring

worker_of-CallKeeps :
    (loads : String → Option Piece) (backend : AnyBackend) (wiring : Wiring) (job : Job) (n : ℕ)
    (r : Replica)
    → Healthy n r
    → CallKeeps (worker_of loads backend wiring) job n r
unfolding worker_of
worker_of-CallKeeps loads (simulator hw) wiring job n r h = simulated-CallKeeps hw job n r h
worker_of-CallKeeps loads (workers b) wiring job n r h =
    vllm_worker-CallKeeps loads b wiring job n r h

module _ (encoder : Option (String → ℕ)) (loads : String → Option Piece) (wirings : ℕ → Wiring)
    (events : List LoopEvent) where
  -- The requests of an app over its backend and its session store.
  abbrev pub HealthyAfter : {C : Type 0} → RedisClient C → AnyBackend → AnyGateway C → Type 0
  HealthyAfter redis backend (over_memory g) = AllHealthy (
      interleave (λ k. worker_of loads backend (wirings k)) memory_store encoder (started g) events)
  HealthyAfter redis backend (over_redis g) = AllHealthy (
      interleave (λ k. worker_of loads backend (wirings k)) (redis_store redis) encoder (started g)
        events)

  assemble-Healthy :
      {S : Type 0} (ops : SessionStore S) (s : Settings) (store : S) (backend : AnyBackend)
      → AllHealthy (
          interleave
            (λ k. worker_of loads backend (wirings k))
            ops
            encoder
            (started (assemble s store))
            events)
  unfolding assemble
  assemble-Healthy ops s store backend =
      interleave-Healthy ops encoder (λ k. worker_of loads backend (wirings k))
        (λ k. worker_of-CallKeeps loads backend (wirings k)) (assemble s store) events
        (fresh_replicas-IsFresh s.cluster.hardware (chosen_policy s) 0 s.cluster.replicas)
        (fresh_replicas-IsBounded s.cluster.hardware (chosen_policy s) 0 s.cluster.replicas)

  over_store-Healthy :
      {C : Type 0} (redis : RedisClient C) (s : Settings) (store : AnyStore C)
      (backend : AnyBackend)
      → HealthyAfter redis backend (over_store s store)
  unfolding over_store
  over_store-Healthy redis s (in_memory store) backend =
      assemble-Healthy memory_store s store backend
  over_store-Healthy redis s (in_redis store) backend =
      assemble-Healthy (redis_store redis) s store backend

  -- For any settings for which `create_app` gives an app, over either backend and either session
  -- store, whatever the workers and the Redis client do at each call, and for any interleaving of
  -- requests, of their turns and of clients that leave: each replica of the app stands at its
  -- number, its `active` is the number of requests inside of a slot of it and `peak_active` is no
  -- smaller, and its caches are consistent and within their capacities.
  pub create_app-Healthy :
      {C : Type 0} (redis : RedisClient C) (s : Settings) (app : App C)
      → create_app redis s ≡ ok app
      → HealthyAfter redis app.backend app.gateway
  unfolding create_app
  create_app-Healthy redis s app created =
      elim (Result-cases
        (build_session_store redis s.redis_url (s.session_ttl_s * 1_000) s.max_sessions)) [
          | inl (e, raised) ↦ absurd (ground (arith, created, raised))
          | inr (store, built) ↦ elim (Result-cases (build_backend s)) [
            | inl (e, raised) ↦ absurd (ground (arith, created, built, raised))
            | inr (backend, chosen) ↦
                let made = rw (built, chosen) at created in
                let made_app : App _ = record {
                  gateway = over_store s store;
                  backend = backend;
                  api_key = s.api_key;
                } in
                let same : made_app ≡ app = cc in
                subst (λ a. HealthyAfter redis a.backend a.gateway) same
                  (over_store-Healthy redis s store backend)
          ]
        ]
