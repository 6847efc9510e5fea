-- ===== src/Router/Choice/Laws.antt =====
-- agentserve/router.py: which replica either router returns.
use agentserve.Common.{ℕ, ◌≡◌, ◌≢◌, refl, arith, subst, String, List, [], All}
use agentserve.Replica.{Replica}
use agentserve.Result.{Result, ok, raise}
use agentserve.Router.Affinity.{select_total}
use agentserve.Router.Balance.{HasGpu}
use agentserve.Router.Choice.{AnyRouter, affinity, round_robin, route}
use agentserve.Router.Members.{All-select, All-select_next}
use agentserve.Router.Rotation.{select_next_lem}
use agentserve.Router.{select_next}
use agentserve.State.Memory.{InMemorySessionStore, memory_store}
use agentserve.State.{SessionStore}

module _ {κ} {S : Type 0} (ops : SessionStore S) (P : Replica → Type κ) where
  pub All-route :
      (rs : List Replica) (router : AnyRouter) (store : S) (read_at write_at : ℕ) (sid : String)
      (now_ms : ℕ) (r : Replica)
      → All P rs
      → (route ops rs router store read_at write_at sid now_ms).2 ≡ ok r
      → P r
  unfolding route
  All-route rs (affinity config hits breaks) store read_at write_at sid now_ms r h e =
      All-select P ops rs h r _ read_at write_at sid now_ms e
  All-route rs (round_robin cursor) store read_at write_at sid now_ms r h e =
      go (select_next rs cursor) refl
    where
      go : (found : Result (Replica × ℕ)) → select_next rs cursor ≡ found → P r
      go (raise x) same = absurd (ground (arith, same, e))
      go (ok (s, next)) same =
          subst P (ground (arith, same, e)) (All-select_next P rs cursor next s h same)

-- Over the in-memory store, either router finds a replica, if there is one and all have a GPU tier.
pub route_total :
    (rs : List Replica) (router : AnyRouter) (store : InMemorySessionStore) (read_at write_at : ℕ)
    (session_id : String) (now_ms : ℕ)
    → rs ≢ []
    → All HasGpu rs
    → (r : Replica) × ((route memory_store rs router store read_at write_at session_id now_ms).2
        ≡ ok r)
unfolding route
route_total rs (affinity config hits breaks) store read_at write_at sid now_ms some_replica gpus =
    let (r, e, _) =
      select_total rs
        (record { config = config; store = store; affinity_hits = hits; affinity_breaks = breaks })
        read_at write_at sid now_ms some_replica gpus in
    (r, e)
route_total rs (round_robin cursor) store read_at write_at sid now_ms some_replica gpus =
    let (r, e, _) = select_next_lem rs cursor (ground (arith, some_replica)) in
    (r, ground (arith, e))
