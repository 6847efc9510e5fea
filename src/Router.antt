-- ===== src/Router.antt =====
-- agentserve/router.py: which replica serves a call. The routers read the replicas and never change
-- them, so the cluster is an argument and a router keeps only its own state.
pub mod Balance
pub mod Rotation
pub mod Affinity
pub mod Members
pub mod Unreachable
pub mod Choice
use agentserve.Common.Int.{ℤ, pos, negsuc}
use agentserve.Common.Sort.{min_by}
use agentserve.Common.{
  ℕ, suc, ◌+◌, ◌*◌, ◌%◌, ltb, leb, ◌==◌, max, String, Bool, true, false, not, ◌&&◌, ◌||◌, Option,
  none, some, List, [], ◌∷◌, length, get_elem?, if◌then◌else◌,
}
use agentserve.Config.{PolicyConfig}
use agentserve.Models.{CacheTier, Ratio}
use agentserve.Replica.{Replica, inflight, gpu_utilization, lookup_session}
use agentserve.Result.{Result, ok, raise, ◌>>=◌, value_error, zero_division_error, index_error}
use agentserve.State.{SessionStore}

-- `self.replicas[i]` at an index that is not negative.
abbrev pub at : List Replica → ℕ → Result Replica
at replicas i = elim (get_elem? replicas i) [ none ↦ raise index_error | some r ↦ ok r ]

-- `RoundRobinRouter.select`: the replica, with the new cursor. A modulus of 0 raises.
unfoldable pub select_next : List Replica → ℕ → Result (Replica × ℕ)
select_next replicas cursor =
    if length replicas == 0
    then raise zero_division_error
    else (do r ← at replicas (cursor % length replicas); ok (r, cursor + 1))

-- `a / b < c / d`, for positive divisors.
abbrev pub ltb_ratio : Ratio → Ratio → Bool
ltb_ratio a b = ltb (a.part * b.whole) (b.part * a.whole)

-- The key of `_least_loaded` at `y` is less than that at `x`.
unfoldable pub less_loaded : ℕ → Replica → Replica → Bool
unfolding gpu_utilization
less_loaded now_ms y x =
    ltb (inflight y) (inflight x)
    || ((inflight y == inflight x)
        && (ltb (max y.free_at_ms now_ms) (max x.free_at_ms now_ms)
            || ((max y.free_at_ms now_ms == max x.free_at_ms now_ms)
                && ltb_ratio (gpu_utilization y) (gpu_utilization x))))

-- `r.id != avoid`, where `avoid` may be `None`.
abbrev pub avoids : Option ℕ → Replica → Bool
avoids none r = true
avoids (some i) r = not (r.id == i)

unfoldable pub others : Option ℕ → List Replica → List Replica
others avoid [] = []
others avoid (r ∷ rs) = let rest = others avoid rs in if avoids avoid r then r ∷ rest else rest

-- `[r for r in self.replicas if r.id != avoid] or self.replicas`
unfoldable pub candidates : Option ℕ → List Replica → List Replica
unfolding others
candidates avoid replicas = elim (others avoid replicas) [ [] ↦ replicas | r ∷ rs ↦ r ∷ rs ]

-- The key of a candidate divides by the capacity of its GPU tier.
unfoldable pub divides_by_zero : List Replica → Bool
divides_by_zero [] = false
divides_by_zero (r ∷ rs) = (r.hw.gpu_cache_tokens == 0) || divides_by_zero rs

unfoldable pub least_loaded_of : ℕ → List Replica → Result Replica
unfolding divides_by_zero less_loaded
least_loaded_of now_ms [] = raise value_error
least_loaded_of now_ms (r ∷ rs) =
    if divides_by_zero (r ∷ rs)
    then raise zero_division_error
    else ok (min_by (less_loaded now_ms) r rs)

unfoldable pub least_loaded : List Replica → ℕ → Option ℕ → Result Replica
unfolding candidates least_loaded_of
least_loaded replicas now_ms avoid = least_loaded_of now_ms (candidates avoid replicas)

pub record SessionAffinityRouter (S : Type 0) : Type 0 where
  pub config : PolicyConfig
  pub store : S
  pub affinity_hits : ℕ
  pub affinity_breaks : ℕ

-- `0 <= home_id < len(self.replicas)`, and the replica there.
abbrev pub home_of : List Replica → Option ℤ → Option Replica
home_of replicas none = none
home_of replicas (some (negsuc _)) = none
home_of replicas (some (pos i)) = get_elem? replicas i

abbrev pub is_miss : CacheTier → Bool
is_miss CacheTier.miss = true
is_miss _ = false

module _ {S : Type 0} (ops : SessionStore S) where
  -- The call goes to the least loaded replica, which becomes the session's home.
  unfoldable pub rehome :
      List Replica
      → SessionAffinityRouter S
      → (clock : ℕ) → String
      → ℕ
      → SessionAffinityRouter S × Result Replica
  rehome replicas router clock session_id now_ms = elim (least_loaded replicas now_ms none) [
    | raise e ↦ (router, raise e)
    | ok r ↦ (record router { store = ops.set_home clock session_id r.id router.store }, ok r)
  ]

  -- The call of a session whose home is known.
  unfoldable pub select_home :
      List Replica
      → SessionAffinityRouter S
      → (clock : ℕ) → String
      → ℕ
      → Option Replica
      → SessionAffinityRouter S × Result Replica
  unfolding rehome
  select_home replicas router clock session_id now_ms none =
      rehome replicas router clock session_id now_ms
  select_home replicas router clock session_id now_ms (some home) =
      if is_miss (lookup_session home session_id).0
      then rehome replicas router clock session_id now_ms
      else (if leb (inflight home) router.config.affinity_queue_limit
          then (record router { affinity_hits = router.affinity_hits + 1 }, ok home)
          else (
            record router { affinity_breaks = router.affinity_breaks + 1 },
            least_loaded replicas now_ms (some home.id),
          ))

  -- `SessionAffinityRouter.select`. The two clocks are those that the store reads in its two calls.
  unfoldable pub select :
      List Replica
      → SessionAffinityRouter S
      → (read_at write_at : ℕ) → String
      → ℕ
      → SessionAffinityRouter S × Result Replica
  unfolding select_home
  select replicas router read_at write_at session_id now_ms =
      let (store, found) = ops.get_home read_at session_id router.store in
      elim found [
        | raise e ↦ (record router { store = store }, raise e)
        | ok home_id ↦
            select_home replicas (record router { store = store }) write_at session_id now_ms
              (home_of replicas home_id)
      ]
