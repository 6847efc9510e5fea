-- ===== src/Tests/Outages.antt =====
-- agentserve/state.py and agentserve/router.py without a Redis server.
use agentserve.Common.{ℕ, ◌≡◌, ◌≢◌, ◌+◌, [], refl, arith, none}
use agentserve.Config.{default_policy}
use agentserve.Replica.{Replica}
use agentserve.Router.Balance.{IsLeastLoaded}
use agentserve.Router.Unreachable.{select_unreachable}
use agentserve.Router.{SessionAffinityRouter, select}
use agentserve.Tests.Data.{cluster}
use agentserve.Result.{ok, raise, client_error, value_error}
use agentserve.State.Redis.Outage.{IsUnreachable}
use agentserve.State.Redis.{RedisClient, RedisSessionStore, connected, redis_store}

-- The state of the connection is a number that no call changes.
abbrev pub no_server : RedisClient ℕ
no_server = record {
  get = λ key c. (c, raise client_error);
  set = λ key value ex c. (c, raise client_error);
  count_keys = λ pattern c. (c, raise client_error);
  disconnect = λ c. (c, ok tt);
  from_url = λ url. ok 0;
  ping = λ c. (c, raise client_error);
  int_of = λ text. raise value_error;
  float_of = λ text. raise value_error;
}

no_server-IsUnreachable : IsUnreachable no_server
no_server-IsUnreachable = record {
  get = λ key c. (client_error, refl);
  set = λ key value ex c. (client_error, refl);
  count_keys = λ pattern c. (client_error, refl);
}

abbrev session_store : RedisSessionStore ℕ
session_store = connected 0 3_600_000_000 "agentserve"

abbrev router : SessionAffinityRouter (RedisSessionStore ℕ)
router = record {
  config = default_policy;
  store = session_store;
  affinity_hits = 3;
  affinity_breaks = 0;
}

some_replica : cluster ≢ []
some_replica e = ground (arith, e)

select_unreachable_example :
    (r : Replica) × (select (redis_store no_server) cluster router 5 6 "a" 30 ≡ (
      record router { store = record session_store { errors = session_store.errors + 1 + 1 } },
      ok r,
    ))
    × IsLeastLoaded cluster 30 none r
select_unreachable_example =
    select_unreachable no_server no_server-IsUnreachable cluster router 5 6 "a" 30 some_replica
      (omega arith, (omega arith, tt))
