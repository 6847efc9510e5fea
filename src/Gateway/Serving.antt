-- ===== src/Gateway/Serving.antt =====
-- agentserve/gateway.py over the in-memory session store: when `schedule` gives a replica.
use agentserve.Common.{
  ℕ, ◌≤◌, ◌≡◌, ◌≢◌, refl, ap, arith, String, Option, none, some, List, [], ◌∷◌, All, All_imp,
  length,
}
use agentserve.Gateway.Capacity.{IsBounded-prune}
use agentserve.Gateway.Requests.{All-pruned}
use agentserve.Gateway.Scheduling.{pruned}
use agentserve.Gateway.{Gateway, learn, dispatch, schedule}
use agentserve.Predictor.Answers.{
  CanPredict, observe_tool-CanPredict, observe_session-CanPredict, touch_count-CanPredict,
  predict_ms_total,
}
use agentserve.Predictor.{ToolDurationPredictor, observe, predict_ms}
use agentserve.Replica.Storing.{IsBounded}
use agentserve.Replica.{Replica, prune}
use agentserve.Result.{ok}
use agentserve.Router.Balance.{HasGpu}
use agentserve.Router.Choice.Laws.{route_total}
use agentserve.State.Memory.{InMemorySessionStore, get_last_seen, memory_store}

-- A replica in order: its caches are consistent and bounded, and its GPU tier has a capacity.
abbrev pub Works : Replica → Type 0
Works r = IsBounded r × HasGpu r

-- A gateway that can serve: there is a replica, all work, and the predictor can predict.
pub record IsServing (g : Gateway InMemorySessionStore) : Type 0 where
  pub some_replica : 1 ≤ length g.replicas
  pub work : All Works g.replicas
  pub predicts : CanPredict g.predictor

learn_total :
    (p : ToolDurationPredictor) (sid : String) (tool : Option String) (now_ms : ℕ) (last : Option ℕ)
    → CanPredict p
    → (q : ToolDurationPredictor) × (learn p sid tool now_ms last ≡ ok q) × CanPredict q
unfolding learn observe
learn_total p sid tool now_ms none h = (p, refl, h)
learn_total p sid tool now_ms (some last) h =
    (_, refl, observe_session-CanPredict _ sid _ (observe_tool-CanPredict p tool _ h))

dispatch_total :
    (g : Gateway InMemorySessionStore) (read_at write_at : ℕ) (sid : String) (tool : Option String)
    (now_ms : ℕ)
    → g.replicas ≢ []
    → All HasGpu g.replicas
    → CanPredict g.predictor
    → (r : Replica) × (gap : ℕ) × ((dispatch memory_store g read_at write_at sid tool now_ms).1
        ≡ ok (r, gap))
      × CanPredict (dispatch memory_store g read_at write_at sid tool now_ms).0.predictor
unfolding dispatch predict_ms
dispatch_total g read_at write_at sid tool now_ms some_replica gpus h =
    let (r, chosen) =
      route_total g.replicas g.router g.store read_at write_at sid now_ms some_replica gpus in
    let (gap, found) = predict_ms_total g.predictor sid tool h in
    (
      r,
      gap,
      rw (chosen, dispatch, found),
      rw (chosen, dispatch) (touch_count-CanPredict g.predictor tool h),
    )

pub length-pruned : (now_ms : ℕ) (rs : List Replica) → length (pruned now_ms rs) ≡ length rs
length-pruned now_ms [] = refl
length-pruned now_ms (r ∷ rs) = omega (arith, length-pruned now_ms rs)

pub ne-nil_of_length : (rs : List Replica) → 1 ≤ length rs → rs ≢ []
ne-nil_of_length rs h e = omega (arith, ap (λ (s : List Replica). length s) e)

pub Works-prune : (now_ms : ℕ) (r : Replica) → Works r → Works (prune r now_ms)
unfolding prune
Works-prune now_ms r w = (IsBounded-prune now_ms r w.0, w.1)

pub schedule_total :
    (g : Gateway InMemorySessionStore) (read_at write_at : ℕ) (sid : String) (tool : Option String)
    (now_ms : ℕ)
    → IsServing g
    → (r : Replica) × (gap : ℕ) × ((schedule memory_store g read_at write_at sid tool now_ms).1
        ≡ ok (r, gap))
      × CanPredict (schedule memory_store g read_at write_at sid tool now_ms).0.predictor
unfolding schedule memory_store
schedule_total g read_at write_at sid tool now_ms h =
    let seen = get_last_seen read_at sid g.store in
    let (q, learned, predicts) = learn_total g.predictor sid tool now_ms seen.1 h.predicts in
    let some_replica : 1 ≤ length (pruned now_ms g.replicas) =
      omega (arith, h.some_replica, length-pruned now_ms g.replicas) in
    let works = All-pruned Works now_ms g.replicas (Works-prune now_ms) h.work in
    rw (learned, schedule)
      (dispatch_total
        (record g { replicas = pruned now_ms g.replicas; store = seen.0; predictor = q }) read_at
        write_at sid tool now_ms (ne-nil_of_length _ some_replica)
        (All_imp (λ r w. w.1) (pruned now_ms g.replicas) works) predicts)
