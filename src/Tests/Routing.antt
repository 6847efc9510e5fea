-- ===== src/Tests/Routing.antt =====
-- agentserve/router.py and agentserve/state.py on the small cluster.
use agentserve.Common.Dict.{lookup, erase, contains}
use agentserve.Common.Sort.{min_by}
use agentserve.Common.Int.{pos}
use agentserve.Common.{
  ℕ, ◌+◌, ◌%◌, ◌≡◌, ◌≢◌, ◌<◌, refl, arith, none, List, [], ◌∷◌, ◌++◌, length, get_elem?, ltb,
  if◌then◌else◌,
}
use agentserve.Config.{default_policy}
use agentserve.Models.{CacheTier}
use agentserve.Replica.{Replica, inflight, lookup_session}
use agentserve.Result.{ok}
use agentserve.Router.Affinity.{select_warm, select_total, select_returns_home}
use agentserve.Router.Balance.{IsLeastLoaded, least_loaded-IsLeastLoaded}
use agentserve.Router.Rotation.{selections, selections_lem}
use agentserve.Router.{
  SessionAffinityRouter, others, candidates, least_loaded_of, least_loaded, select, less_loaded,
  divides_by_zero,
}
use agentserve.State.Memory.Laws.{
  IsStore, call_all, set_home_at, get_home_at, closed, call_all-init-IsStore,
}
use agentserve.State.Memory.Tables.{put_lem, without_oldest}
use agentserve.State.Memory.{InMemorySessionStore, init, get, put, get_home, memory_store}
use agentserve.Tests.Data.{kept, busy, idle, cluster}
use mathlib.Core.List.{Mem}

some_replica : cluster ≢ []
some_replica e = ground (arith, e)

least_loaded_example :
    (r : Replica) × (least_loaded cluster 30 none ≡ ok r) × IsLeastLoaded cluster 30 none r
least_loaded_example =
    least_loaded-IsLeastLoaded cluster 30 none some_replica (omega arith, (omega arith, tt))

selections_example :
    (picked : List Replica) × (selections cluster 1 3 ≡ ok picked)
    × (length picked ≡ 3)
    × ((i : ℕ) → i < 3 → get_elem? picked i ≡ get_elem? cluster ((1 + i) % 2))
selections_example = selections_lem cluster 3 1 (omega arith)

-- The session `a` lives on the busy replica, and `z` is unknown.
abbrev sessions : InMemorySessionStore
sessions = record { max_sessions = 2; ttl_s = 3_600; home = ("a", (pos 0, 4_000)) ∷ []; seen = [] }

abbrev router : SessionAffinityRouter InMemorySessionStore
router = record {
  config = default_policy;
  store = sessions;
  affinity_hits = 0;
  affinity_breaks = 0;
}

select_warm_example :
    select memory_store cluster router 50 50 "a" 30
    ≡ (record router { store = (get_home 50 "a" sessions).0; affinity_hits = 1 }, ok busy)
unfolding lookup get get_home lookup_session inflight
select_warm_example = select_warm cluster router 50 50 "a" 30 busy refl (omega arith)

select_total_example :
    (r : Replica) × ((select memory_store cluster router 50 50 "a" 30).1 ≡ ok r) × Mem r cluster
select_total_example =
    select_total cluster router 50 50 "a" 30 some_replica (omega arith, (omega arith, tt))

sessions-IsStore : IsStore 2 sessions
unfolding contains
sessions-IsStore = record {
  limit = refl;
  home = record { distinct = (refl, tt); bounded = omega arith };
  seen = record { distinct = tt; bounded = omega arith };
}

-- Later the idle replica holds the session that was sent there.
abbrev home_of_z : Replica
home_of_z = record idle { gpu = ("z", kept "z" 5 CacheTier.gpu 40 900) ∷ [] }

abbrev later_cluster : List Replica
later_cluster = busy ∷ home_of_z ∷ []

select_returns_home_example :
    (select memory_store later_cluster
      (select memory_store cluster router 50 60 "z" 30).0
      3_660
      70
      "z"
      500).1
    ≡ ok home_of_z
unfolding lookup get get_home lookup_session inflight least_loaded candidates others least_loaded_of
    divides_by_zero less_loaded min_by
select_returns_home_example =
    select_returns_home cluster later_cluster router 2 50 60 3_660 70 30 500 "z" idle home_of_z
      sessions-IsStore (omega arith) refl refl refl refl (omega arith) (omega arith)

call_all-init-IsStore_example : IsStore 2 (
    call_all
      (set_home_at 10 "a" 0
        ∷ set_home_at 11 "b" 1
        ∷ set_home_at 12 "c" 1
        ∷ get_home_at 13 "a"
        ∷ closed
        ∷ [])
      (init 2 3_600))
call_all-init-IsStore_example = call_all-init-IsStore 2 3_600 (
    set_home_at 10 "a" 0
    ∷ set_home_at 11 "b" 1
    ∷ set_home_at 12 "c" 1
    ∷ get_home_at 13 "a"
    ∷ closed
    ∷ [])

put_lem_example :
    put 1 3_600 100 "b" (pos 1) sessions.home
    ≡ (if ltb (length (erase "b" sessions.home)) 1
        then erase "b" sessions.home
        else without_oldest (erase "b" sessions.home))
      ++ ("b", (pos 1, 3_700)) ∷ []
put_lem_example = put_lem 1 3_600 100 "b" (pos 1) sessions.home (omega arith) (omega arith)
