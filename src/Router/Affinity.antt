-- ===== src/Router/Affinity.antt =====
-- agentserve/router.py: `SessionAffinityRouter.select` over the in-memory store.
use agentserve.Common.Int.{ℤ, pos, negsuc}
use agentserve.Common.{
  ℕ, ◌+◌, ◌≤◌, ◌<◌, ◌≡◌, ◌≢◌, ◌∙◌, ap, arith, inl, inr, String, false, Option, none, some, List, [],
  ◌∷◌, zero, suc, All, leb, ltb, get_elem?, if◌then◌else◌, Bool-cases, Option-cases, leb→le, subst,
}
use agentserve.Replica.{Replica, inflight, lookup_session}
use agentserve.Result.{Result, ok}
use agentserve.Router.Balance.{HasGpu, least_loaded-IsLeastLoaded}
use agentserve.Router.{SessionAffinityRouter, least_loaded, home_of, is_miss, select}
use agentserve.State.Memory.Laws.{IsStore, call, call-IsStore, get_home_at, get_home-set_home}
use mathlib.Core.List.{Mem, mem-cons_self, mem-cons_of_mem}
use agentserve.State.Memory.{InMemorySessionStore, get_home, set_home, memory_store}

-- The home of a session, if the store has one that is among the replicas and holds its cache.
abbrev pub warm_home : List Replica → InMemorySessionStore → ℕ → String → Option Replica
warm_home replicas store read_at session_id =
    elim (home_of replicas (get_home read_at session_id store).1) [
      | none ↦ none
      | some home ↦ if is_miss (lookup_session home session_id).0 then none else some home
    ]

get_elem?-mem : (rs : List Replica) (i : ℕ) (r : Replica) → get_elem? rs i ≡ some r → Mem r rs
get_elem?-mem [] i r e = ground arith
get_elem?-mem (s ∷ rs) zero r e =
    subst (λ (x : Replica). Mem x (s ∷ rs)) (let same : s ≡ r = cc in same) mem-cons_self
get_elem?-mem (s ∷ rs) (suc i) r e = mem-cons_of_mem s (get_elem?-mem rs i r e)

home_of-mem : (rs : List Replica) (id : Option ℤ) (r : Replica) → home_of rs id ≡ some r → Mem r rs
home_of-mem rs none r e = ground arith
home_of-mem rs (some (pos i)) r e = get_elem?-mem rs i r e
home_of-mem rs (some (negsuc i)) r e = ground arith

warm_home-mem :
    (rs : List Replica) (s : InMemorySessionStore) (read_at : ℕ) (session_id : String) (r : Replica)
    → warm_home rs s read_at session_id ≡ some r
    → Mem r rs
warm_home-mem rs s read_at sid r e = home_of-mem rs (get_home read_at sid s).1 r (ground (arith, e))

get_home-IsStore :
    (n clock : ℕ) (session_id : String) (s : InMemorySessionStore)
    → IsStore n s
    → IsStore n (get_home clock session_id s).0
unfolding call
get_home-IsStore n clock sid s h = call-IsStore n (get_home_at clock sid) s h

module _ (replicas : List Replica) (router : SessionAffinityRouter InMemorySessionStore)
    (read_at write_at : ℕ) (session_id : String) (now_ms : ℕ) where
  abbrev pub chosen : SessionAffinityRouter InMemorySessionStore × Result Replica
  chosen = select memory_store replicas router read_at write_at session_id now_ms

  abbrev pub read_store : InMemorySessionStore
  read_store = (get_home read_at session_id router.store).0

  -- A warm home within the queue limit serves the call, which is counted as an affinity hit.
  pub select_warm :
      (home : Replica)
      → warm_home replicas router.store read_at session_id ≡ some home
      → inflight home ≤ router.config.affinity_queue_limit
      → chosen
        ≡ (record router { store = read_store; affinity_hits = router.affinity_hits + 1 }, ok home)
  unfolding select memory_store
  select_warm home warm within = ground (arith, warm, within)

  -- If the home of a session is warm but over the queue limit, the call goes to the least loaded
  -- of the other replicas and is counted as an affinity break, and the store is only read.
  pub select_congested :
      (home : Replica)
      → warm_home replicas router.store read_at session_id ≡ some home
      → router.config.affinity_queue_limit < inflight home
      → chosen ≡ (
        record router { store = read_store; affinity_breaks = router.affinity_breaks + 1 },
        least_loaded replicas now_ms (some home.id),
      )
  unfolding select memory_store
  select_congested home warm over = ground (arith, warm, over)

  -- If a session has no warm home and `_least_loaded` returns a replica, the call goes there, and
  -- that replica becomes the home of the session.
  pub select_cold :
      (r : Replica)
      → warm_home replicas router.store read_at session_id ≡ none
      → least_loaded replicas now_ms none ≡ ok r
      → chosen ≡ (record router { store = set_home write_at session_id r.id read_store }, ok r)
  unfolding select memory_store
  select_cold r cold least = ground (arith, cold, least)

  -- If there is a replica, and all have a GPU tier, `select` over the in-memory store does not
  -- raise, and the replica that it returns is one of the cluster.
  pub select_total :
      replicas ≢ [] → All HasGpu replicas → (r : Replica) × (chosen.1 ≡ ok r) × Mem r replicas
  select_total some_replica gpus =
      elim (Option-cases (warm_home replicas router.store read_at session_id)) [
        | inl cold ↦
            let (r, least, is_least) =
              least_loaded-IsLeastLoaded replicas now_ms none some_replica gpus in
            (r, ap (λ c. c.1) (select_cold r cold least), is_least.member)
        | inr (home, warm) ↦
            elim (Bool-cases (leb (inflight home) router.config.affinity_queue_limit)) [
              | inl within ↦ (
                home,
                ap (λ c. c.1) (select_warm home warm (leb→le _ _ within)),
                warm_home-mem replicas router.store read_at session_id home warm,
              )
              | inr over ↦
                  let (r, least, is_least) =
                    least_loaded-IsLeastLoaded replicas now_ms (some home.id) some_replica gpus in
                  (
                    r,
                    ap (λ c. c.1) (select_congested home warm (ground (arith, over))) ∙ least,
                    is_least.member,
                  )
            ]
      ]

-- A session without a warm home that was placed on the least loaded replica comes back to the
-- replica at that place of the cluster, whatever the cluster has become, as long as the store's
-- entry has not expired, that replica holds its cache, and the queue there is within the limit.
-- The store is valid and has room for one session.
pub select_returns_home :
    (replicas later_replicas : List Replica) (router : SessionAffinityRouter InMemorySessionStore)
    (n read_at write_at later later_write now_ms later_ms : ℕ) (session_id : String)
    (r home : Replica)
    → IsStore n router.store
    → 1 ≤ n
    → warm_home replicas router.store read_at session_id ≡ none
    → least_loaded replicas now_ms none ≡ ok r
    → get_elem? later_replicas r.id ≡ some home
    → is_miss (lookup_session home session_id).0 ≡ false
    → inflight home ≤ router.config.affinity_queue_limit
    → later ≤ write_at + router.store.ttl_s
    → (select memory_store later_replicas
        (select memory_store replicas router read_at write_at session_id now_ms).0
        later
        later_write
        session_id
        later_ms).1
      ≡ ok home
unfolding get_home
select_returns_home rs later_rs router n read_at write_at later later_write now_ms later_ms sid r
      home valid positive cold least there kept within early =
    let store = (get_home read_at sid router.store).0 in
    let moved : SessionAffinityRouter InMemorySessionStore = record router {
      store = set_home write_at sid r.id store;
    } in
    let in_time : ltb (write_at + router.store.ttl_s) later ≡ false = ground (arith, early) in
    let found =
      get_home-set_home store n (get_home-IsStore n read_at sid router.store valid) positive
        write_at sid r.id later in
    rw (select_cold rs router read_at write_at sid now_ms r cold least) (
      ap (λ c. c.1)
        (select_warm later_rs moved later later_write sid later_ms home
          (ground (arith, found, in_time, there, kept)) within))
