-- ===== src/State/Redis.antt =====
-- agentserve/state.py: `RedisSessionStore` and `build_session_store`. The client of the library redis
-- is a parameter. The server's time to live runs on its own clock, so the clocks are not read.
pub mod Outage
use agentserve.Common.Int.{ℤ, pos, negsuc}
use agentserve.Common.{ℕ, ◌+◌, ◌/◌, String, Option, none, some, truthy, if◌then◌else◌}
use agentserve.Result.{Result, ok, raise, ◌>>=◌}
use agentserve.State.Memory.{InMemorySessionStore, init}
use agentserve.State.{SessionStore}
use Prim.Native.String.{◌++◌ as append}

-- The calls of the client, over the state of the connection and the server. `int_of` and `float_of`
-- are what Python's `int` and `float` make of a text that the client returns.
pub record RedisClient (C : Type 0) : Type 0 where
  pub get : String → C → C × Result (Option String)
  pub set : String → ℕ → (ex : ℕ) → C → C × Result (Unit {0})
  pub count_keys : (pattern : String) → C → C × Result ℕ
  pub disconnect : C → C × Result (Unit {0})
  pub from_url : String → Result C
  pub ping : C → C × Result (Unit {0})
  pub int_of : String → Result ℤ
  pub float_of : String → Result ℕ

pub record RedisSessionStore (C : Type 0) : Type 0 where
  pub client : C
  pub ttl_s : ℕ
  pub prefix : String
  pub errors : ℕ

-- `int(ttl_s)`: a time to live in ticks becomes whole seconds.
unfoldable pub connected : {C : Type 0} → C → ℕ → String → RedisSessionStore C
connected client ttl_s prefix = record {
  client = client;
  ttl_s = ttl_s / 1_000_000;
  prefix = prefix;
  errors = 0;
}

-- `f"{self.prefix}:{kind}:{session_id}"`
abbrev pub key_of : String → String → String → String
key_of prefix kind session_id = append prefix (append ":" (append kind (append ":" session_id)))

module _ {C : Type 0} (redis : RedisClient C) where
  -- A read whose exceptions are counted, and taken for a missing value. What `decode` raises is
  -- outside of the `try`.
  unfoldable pub read :
      {V : Type 0}
      → (String → Result V)
      → String
      → RedisSessionStore C
      → RedisSessionStore C × Result (Option V)
  read decode key s =
      let (client, raw) = redis.get key s.client in
      elim raw [
        | raise e ↦ (record s { client = client; errors = s.errors + 1 }, ok none)
        | ok found ↦ (
          record s { client = client },
          elim found [ none ↦ ok none | some text ↦ decode text >>= λ value. ok (some value) ],
        )
      ]

  unfoldable pub write : String → ℕ → RedisSessionStore C → RedisSessionStore C
  write key value s =
      let (client, done) = redis.set key value s.ttl_s s.client in
      elim done [
        | raise e ↦ record s { client = client; errors = s.errors + 1 }
        | ok _ ↦ record s { client = client }
      ]

  unfoldable pub count_homes : RedisSessionStore C → RedisSessionStore C × ℤ
  count_homes s =
      let (client, counted) = redis.count_keys (append s.prefix ":home:*") s.client in
      elim counted [
        | raise e ↦ (record s { client = client; errors = s.errors + 1 }, negsuc 0)
        | ok n ↦ (record s { client = client }, pos n)
      ]

  unfoldable pub disconnected : RedisSessionStore C → RedisSessionStore C
  disconnected s = record s { client = (redis.disconnect s.client).0 }

  unfoldable pub redis_store : SessionStore (RedisSessionStore C)
  unfolding read write count_homes
  redis_store = record {
    get_home = λ clock session_id s. read redis.int_of (key_of s.prefix "home" session_id) s;
    set_home =
        λ clock session_id replica_id s. write (key_of s.prefix "home" session_id) replica_id s;
    get_last_seen = λ clock session_id s. read redis.float_of (key_of s.prefix "seen" session_id) s;
    set_last_seen =
        λ clock session_id when_ms s. write (key_of s.prefix "seen" session_id) when_ms s;
    size = count_homes;
  }

-- What `build_session_store` gives.
pub data AnyStore (C : Type 0) : Type 0 where
  in_memory : InMemorySessionStore → AnyStore C
  in_redis : RedisSessionStore C → AnyStore C

module _ {C : Type 0} (redis : RedisClient C) where
  -- `from_url` raises on a text that is no address, and `client.ping()` if there is no server.
  unfoldable pub build_session_store : Option String → ℕ → ℕ → Result (AnyStore C)
  unfolding connected
  build_session_store none ttl_s max_sessions = ok (in_memory (init max_sessions ttl_s))
  build_session_store (some url) ttl_s max_sessions =
      let made : Result (AnyStore C) = redis.from_url url >>= λ made.
      let (client, answer) = redis.ping made in
      answer >>= λ _. ok (in_redis (connected client ttl_s "agentserve")) in
      if truthy (some url) then made else ok (in_memory (init max_sessions ttl_s))
