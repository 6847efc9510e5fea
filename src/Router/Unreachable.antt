-- ===== src/Router/Unreachable.antt =====
-- agentserve/router.py: `SessionAffinityRouter.select` over a Redis store whose server is unreachable.
use agentserve.Common.{ℕ, ◌≡◌, ◌≢◌, ◌∙◌, ap, String, none, List, [], All}
use agentserve.Replica.{Replica}
use agentserve.Result.{Result, ok}
use agentserve.Router.Balance.{HasGpu, IsLeastLoaded, least_loaded-IsLeastLoaded}
use agentserve.Router.{SessionAffinityRouter, least_loaded, rehome, select}
use agentserve.State.Redis.Outage.{IsUnreachable, failed, redis_store_degrades}
use agentserve.State.Redis.{RedisClient, RedisSessionStore, redis_store}
use agentserve.State.{SessionStore}

module _ {S : Type 0} (ops : SessionStore S) (replicas : List Replica) (session_id : String)
    (now_ms : ℕ) (r : Replica) (least : least_loaded replicas now_ms none ≡ ok r) where
  rehome_lem :
      (router : SessionAffinityRouter S) (clock : ℕ)
      → rehome ops replicas router clock session_id now_ms
        ≡ (record router { store = ops.set_home clock session_id r.id router.store }, ok r)
  unfolding rehome
  rehome_lem router clock = rw (least, rehome)

  -- A session whose home the store does not know goes to the least loaded replica.
  select_of_none :
      (router : SessionAffinityRouter S) (store : S) (read_at write_at : ℕ)
      → ops.get_home read_at session_id router.store ≡ (store, ok none)
      → select ops replicas router read_at write_at session_id now_ms
        ≡ (record router { store = ops.set_home write_at session_id r.id store }, ok r)
  unfolding select
  select_of_none router store read_at write_at missed =
      let moved : S → SessionAffinityRouter S × Result Replica =
        λ s. rehome ops replicas (record router { store = s }) write_at session_id now_ms in
      let opened : select ops replicas router read_at write_at session_id now_ms
          ≡ moved (ops.get_home read_at session_id router.store).0 =
        rw (ap (λ p. p.1) missed, select) in
      opened
      ∙ ap moved (ap (λ p. p.0) missed)
      ∙ rehome_lem (record router { store = store }) write_at

module _ {C : Type 0} (redis : RedisClient C) (h : IsUnreachable redis) where
  -- While each call of the Redis client raises, if there is a replica and all have a GPU tier,
  -- `select` over the Redis store does not raise: it returns a least loaded replica, leaves its
  -- counters, and the store counts two errors.
  pub select_unreachable :
      (replicas : List Replica) (router : SessionAffinityRouter (RedisSessionStore C))
      (read_at write_at : ℕ) (session_id : String) (now_ms : ℕ)
      → replicas ≢ []
      → All HasGpu replicas
      → (r : Replica) × (select
            (redis_store redis)
            replicas
            router
            read_at
            write_at
            session_id
            now_ms
          ≡ (record router { store = failed redis h (failed redis h router.store) }, ok r))
        × IsLeastLoaded replicas now_ms none r
  select_unreachable replicas router read_at write_at sid now_ms some_replica gpus =
      let (r, least, is_least) =
        least_loaded-IsLeastLoaded replicas now_ms none some_replica gpus in
      let (missed, _, _, _, _) = redis_store_degrades redis h read_at sid 0 router.store in
      let (_, unsaved, _, _, _) =
        redis_store_degrades redis h write_at sid r.id (failed redis h router.store) in
      let moved =
        select_of_none (redis_store redis) replicas sid now_ms r least router _ read_at write_at
          missed in
      (r, moved ∙ ap (λ store. (record router { store = store }, ok r)) unsaved, is_least)
