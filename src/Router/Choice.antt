-- ===== src/Router/Choice.antt =====
-- agentserve/router.py: one router of the two, as the gateway and the replay harness choose it.
pub mod Laws
use agentserve.Common.{ℕ, String, List}
use agentserve.Config.{PolicyConfig}
use agentserve.Replica.{Replica}
use agentserve.Result.{Result, ok, raise}
use agentserve.Router.{SessionAffinityRouter, select, select_next}
use agentserve.State.{SessionStore}

-- The state of either router, without its session store.
pub data AnyRouter : Type 0 where
  affinity : (config : PolicyConfig) (affinity_hits affinity_breaks : ℕ) → AnyRouter
  round_robin : (cursor : ℕ) → AnyRouter

-- `getattr(router, "affinity_hits", 0)`
unfoldable pub affinity_hits : AnyRouter → ℕ
affinity_hits (affinity config hits breaks) = hits
affinity_hits (round_robin cursor) = 0

-- `getattr(router, "affinity_breaks", 0)`
unfoldable pub affinity_breaks : AnyRouter → ℕ
affinity_breaks (affinity config hits breaks) = breaks
affinity_breaks (round_robin cursor) = 0

module _ {S : Type 0} (ops : SessionStore S) where
  -- `router.select(session_id, now_ms)`
  unfoldable pub route :
      List Replica
      → AnyRouter
      → S
      → (read_at write_at : ℕ) → String
      → ℕ
      → AnyRouter × S × Result Replica
  route replicas (affinity config hits breaks) store read_at write_at session_id now_ms =
      let (router, chosen) =
        select ops replicas
          (record {
            config = config;
            store = store;
            affinity_hits = hits;
            affinity_breaks = breaks;
          })
          read_at write_at session_id now_ms in
      (affinity config router.affinity_hits router.affinity_breaks, router.store, chosen)
  route replicas (round_robin cursor) store read_at write_at session_id now_ms =
      elim (select_next replicas cursor) [
        | raise e ↦ (round_robin cursor, store, raise e)
        | ok (r, next) ↦ (round_robin next, store, ok r)
      ]
