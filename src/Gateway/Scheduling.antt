-- ===== src/Gateway/Scheduling.antt =====
-- agentserve/gateway.py: which replica `schedule` returns, and what it changes in the cluster.
use agentserve.Common.{ℕ, ◌≡◌, arith, String, Option, List, All, map}
use agentserve.Gateway.{Gateway, dispatch, schedule}
use agentserve.Replica.{Replica, prune}
use agentserve.Result.{ok}
use agentserve.Router.Choice.Laws.{All-route}
use agentserve.State.{SessionStore}

-- The cluster as `schedule` leaves it.
abbrev pub pruned : ℕ → List Replica → List Replica
pruned now_ms = map (λ r. prune r now_ms)

module _ {S : Type 0} (ops : SessionStore S) where
  dispatch-replicas :
      (g : Gateway S) (read_at write_at : ℕ) (sid : String) (tool : Option String) (now_ms : ℕ)
      → (dispatch ops g read_at write_at sid tool now_ms).0.replicas ≡ g.replicas
  unfolding dispatch
  dispatch-replicas g read_at write_at sid tool now_ms = ground arith

  pub schedule-replicas :
      (g : Gateway S) (read_at write_at : ℕ) (sid : String) (tool : Option String) (now_ms : ℕ)
      → (schedule ops g read_at write_at sid tool now_ms).0.replicas ≡ pruned now_ms g.replicas
  unfolding schedule dispatch
  schedule-replicas g read_at write_at sid tool now_ms = ground arith

  module _ {κ} (P : Replica → Type κ) where
    pub All-schedule :
        (g : Gateway S) (read_at write_at : ℕ) (sid : String) (tool : Option String) (now_ms : ℕ)
        (r : Replica) (gap : ℕ)
        → All P (pruned now_ms g.replicas)
        → (schedule ops g read_at write_at sid tool now_ms).1 ≡ ok (r, gap)
        → P r
    unfolding schedule dispatch
    All-schedule g read_at write_at sid tool now_ms r gap h e =
        All-route ops P (pruned now_ms g.replicas) g.router
          (ops.get_last_seen read_at sid g.store).0 read_at write_at sid now_ms r h
          (ground (arith, e))
