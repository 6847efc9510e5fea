-- ===== src/State/Redis/Outage.antt =====
-- agentserve/state.py: what the callers of `RedisSessionStore` see while the server is unreachable.
use agentserve.Common.Int.{negsuc}
use agentserve.Common.{ℕ, ◌+◌, ◌≡◌, ap, String, none}
use agentserve.Result.{Exception, Result, ok, raise}
use agentserve.State.Redis.{RedisClient, RedisSessionStore, read, write, count_homes, redis_store}
use Prim.Native.String.{◌++◌ as append}

-- Each call of the client raises, as it does without a connection.
pub record IsUnreachable {C : Type 0} (redis : RedisClient C) : Type 0 where
  pub get : (key : String) (c : C) → (e : Exception) × (redis.get key c ≡ (c, raise e))
  pub set :
      (key : String) (value ex : ℕ) (c : C)
      → (e : Exception) × (redis.set key value ex c ≡ (c, raise e))
  pub count_keys :
      (pattern : String) (c : C) → (e : Exception) × (redis.count_keys pattern c ≡ (c, raise e))

module _ {C : Type 0} (redis : RedisClient C) (h : IsUnreachable redis) where
  abbrev pub failed : RedisSessionStore C → RedisSessionStore C
  failed s = record s { errors = s.errors + 1 }

  read_unreachable :
      {V : Type 0} (decode : String → Result V) (key : String) (s : RedisSessionStore C)
      → read redis decode key s ≡ (failed s, ok none)
  unfolding read
  read_unreachable decode key s =
      let e = (h.get key s.client).1 in rw (ap (λ p. p.1) e, read, ap (λ p. p.0) e)

  write_unreachable :
      (key : String) (value : ℕ) (s : RedisSessionStore C) → write redis key value s ≡ failed s
  unfolding write
  write_unreachable key value s =
      let e = (h.set key value s.ttl_s s.client).1 in rw (ap (λ p. p.1) e, write, ap (λ p. p.0) e)

  pub size_unreachable : (s : RedisSessionStore C) → count_homes redis s ≡ (failed s, negsuc 0)
  unfolding count_homes
  size_unreachable s =
      let e = (h.count_keys (append s.prefix ":home:*") s.client).1 in
      rw (ap (λ p. p.1) e, count_homes, ap (λ p. p.0) e)

  -- While each call of the client raises, the Redis store never raises: both reads are misses,
  -- both writes change nothing, the size is -1, and each of the five calls is counted as one
  -- error.
  pub redis_store_degrades :
      (clock : ℕ) (session_id : String) (value : ℕ) (s : RedisSessionStore C)
      → ((redis_store redis).get_home clock session_id s ≡ (failed s, ok none))
        × ((redis_store redis).set_home clock session_id value s ≡ failed s)
        × ((redis_store redis).get_last_seen clock session_id s ≡ (failed s, ok none))
        × ((redis_store redis).set_last_seen clock session_id value s ≡ failed s)
        × ((redis_store redis).size s ≡ (failed s, negsuc 0))
  unfolding redis_store
  redis_store_degrades clock session_id value s = (
    read_unreachable redis.int_of _ s,
    write_unreachable _ value s,
    read_unreachable redis.float_of _ s,
    write_unreachable _ value s,
    size_unreachable s,
  )
