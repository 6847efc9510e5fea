-- ===== src/App/Readiness.antt =====
-- agentserve/gateway.py: what `/ready` answers while the Redis server is unreachable.
use agentserve.App.Endpoints.{ready}
use agentserve.Common.{◌≡◌, refl, Bool, false, Option}
use agentserve.State.Redis.Outage.{IsUnreachable, failed, size_unreachable}
use agentserve.State.Redis.{RedisClient, RedisSessionStore, redis_store}

module _ {C : Type 0} (redis : RedisClient C) (h : IsUnreachable redis) where
  -- While each call of the Redis client raises, `/ready` answers 503, whatever the probe of the
  -- workers says, and the only change is one error counted by the store.
  pub ready_unreachable :
      (probe : Option Bool) (s : RedisSessionStore C)
      → ((ready (redis_store redis) probe s).0 ≡ failed redis h s)
        × ((ready (redis_store redis) probe s).1.session_store ≡ false)
        × ((ready (redis_store redis) probe s).1.status ≡ 503)
  unfolding ready redis_store
  ready_unreachable probe s = rw (size_unreachable redis h s) (refl, refl, refl)
