-- ===== src/Replay/Turns.antt =====
-- bench/replay.py: what one turn does to the arm, from the pruning of the replicas to the call of the
-- backend and the replica's new queue.
use agentserve.Backends.Simulated.Costs.{execute-IsBounded, execute-hw, execute_tokens}
use agentserve.Backends.Simulated.{execute}
use agentserve.Common.Int.{pos}
use agentserve.Common.{
  ℕ, zero, suc, ◌+◌, ◌≤◌, ◌<◌, ◌≡◌, refl, sym, arith, subst, inl, inr, String, Option, some, List,
  [], ◌∷◌, All, All_imp, length, length-set, get_elem?, truthy, Bool-cases,
}
use agentserve.Config.{ClusterConfig, HardwareProfile}
use agentserve.Gateway.Serving.{Works, Works-prune, length-pruned, ne-nil_of_length}
use agentserve.Gateway.Requests.{All-pruned, All-set}
use agentserve.Gateway.Scheduling.{pruned}
use agentserve.Models.{SessionTrace, Turn, RequestResult}
use agentserve.Predictor.Answers.{
  CanPredict, observe_tool-CanPredict, observe_session-CanPredict, touch_count-CanPredict,
  predict_ms_total,
}
use agentserve.Predictor.{ToolDurationPredictor, observe, predict_ms}
use agentserve.Replay.{Arm, nth, run_turn, settle, learn_previous, gap_of}
use agentserve.Replica.{Replica, gpu_tokens, dram_tokens}
use agentserve.Result.Produces.{Produces, produces, >>=-Produces}
use agentserve.Result.{ok}
use agentserve.Router.Choice.Laws.{All-route, route_total}
use agentserve.State.Memory.{memory_store}

-- An arm that can serve a turn: there is a replica, all work, and the predictor can predict.
pub record IsReady (arm : Arm) : Type 0 where
  pub some_replica : 1 ≤ length arm.replicas
  pub work : All Works arm.replicas
  pub predicts : CanPredict arm.predictor

observe_total :
    (p : ToolDurationPredictor) (sid : String) (tool : Option String) (ms : ℕ)
    → CanPredict p
    → Produces CanPredict (observe p sid tool (pos ms))
unfolding observe
observe_total p sid tool ms h =
    produces (observe_session-CanPredict _ sid ms (observe_tool-CanPredict p tool ms h))

get_elem?-before {ℓ} :
    {A : Type ℓ} (xs : List A) (i : ℕ) (x : A)
    → get_elem? xs (suc i) ≡ some x
    → (y : A) × (get_elem? xs i ≡ some y)
get_elem?-before [] i x e = absurd (cc e)
get_elem?-before (y ∷ xs) zero x e = (y, refl)
get_elem?-before (y ∷ xs) (suc i) x e = get_elem?-before xs i x e

pub nth-Produces {ℓ} :
    {A : Type ℓ} (xs : List A) (i : ℕ)
    → (x : A) × (get_elem? xs i ≡ some x)
    → Produces (λ y. get_elem? xs i ≡ some y) (nth xs i)
nth-Produces [] i (x, e) = absurd (cc e)
nth-Produces (y ∷ xs) zero (x, e) = produces refl
nth-Produces (y ∷ xs) (suc i) (x, e) = nth-Produces xs i (x, e)

learn_previous_total :
    (p : ToolDurationPredictor) (trace : SessionTrace) (t : ℕ) (turn : Turn)
    → get_elem? trace.turns t ≡ some turn
    → CanPredict p
    → Produces CanPredict (learn_previous p trace t)
unfolding learn_previous
learn_previous_total p trace zero turn e h = produces h
learn_previous_total p trace (suc t) turn e h =
    >>=-Produces (nth-Produces trace.turns t (get_elem?-before trace.turns t turn e)) (λ prev found.
      elim (Bool-cases (truthy prev.tool_name)) [
        | inl named ↦
            rw named (observe_total p trace.session_id prev.tool_name prev.tool_duration_ms h)
        | inr unnamed ↦ rw unnamed (produces h)
      ])

gap_of_total :
    (config : ClusterConfig) (p : ToolDurationPredictor) (sid : String) (turn : Turn)
    → CanPredict p
    → (gap : ℕ) × ((gap_of config p sid turn).1 ≡ ok gap) × CanPredict (gap_of config p sid turn).0
unfolding gap_of predict_ms
gap_of_total config p sid turn h = elim (Bool-cases (truthy turn.tool_name)) [
  | inl named ↦
      let (gap, found) = predict_ms_total p sid turn.tool_name h in
      rw named (gap, found, touch_count-CanPredict p turn.tool_name h)
  | inr unnamed ↦ rw unnamed (_, refl, h)
]

module _ (hw : HardwareProfile) where
  Works-execute :
      (r : Replica) (sid : String) (prompt output now_ms due : ℕ)
      → Works r
      → Works (execute hw r sid prompt output now_ms due).0
  Works-execute r sid prompt output now_ms due w = (
    execute-IsBounded hw r sid prompt output now_ms due w.0.consistent,
    subst (λ (h : HardwareProfile). 0 < h.gpu_cache_tokens)
        (sym (execute-hw hw r sid prompt output now_ms due w.0.consistent)) w.1,
  )

Works-pending : (r : Replica) (queue : List ℕ) → Works r → Works (record r { pending = queue })
unfolding gpu_tokens dram_tokens
Works-pending r queue w = (
  record {
    consistent = record {
      gpu_distinct = w.0.consistent.gpu_distinct;
      dram_distinct = w.0.consistent.dram_distinct;
      gpu_keyed = w.0.consistent.gpu_keyed;
      dram_keyed = w.0.consistent.dram_keyed;
      disjoint = w.0.consistent.disjoint;
      dram_bounded = w.0.consistent.dram_bounded;
    };
    gpu_bounded = w.0.gpu_bounded;
  },
  w.1,
)

pub settle-IsReady :
    (arm : Arm) (after : Replica) (completed_ms : ℕ)
    → IsReady arm
    → Works after
    → IsReady (settle arm after completed_ms)
unfolding settle
settle-IsReady arm after completed_ms h w = record {
  some_replica = omega (arith, h.some_replica, length-set arm.replicas after.id _);
  work = All-set Works arm.replicas after.id _ (Works-pending after _ w) h.work;
  predicts = h.predicts;
}

-- What a turn leaves: an arm that is ready, and the tokens of the prompt in the result.
pub record Served (turn : Turn) (out : Arm × Replica × RequestResult) : Type 0 where
  pub ready : IsReady out.0
  pub works : Works out.1
  pub tokens : out.2.reused_tokens + out.2.computed_tokens ≡ turn.prompt_tokens

module _ (traces : List SessionTrace) (config : ClusterConfig) (read_at write_at : ℕ → ℕ) where
  pub run_turn_total :
      (arm : Arm) (round : ℕ) (trace : SessionTrace) (t : ℕ) (turn : Turn) (now_ms : ℕ)
      → IsReady arm
      → get_elem? trace.turns t ≡ some turn
      → Produces
          (Served turn)
          (run_turn traces config read_at write_at arm round trace t turn now_ms)
  unfolding run_turn
  run_turn_total arm round trace t turn now_ms h e =
      let works = All-pruned Works now_ms arm.replicas (Works-prune now_ms) h.work in
      let some_replica : 1 ≤ length (pruned now_ms arm.replicas) =
        omega (arith, h.some_replica, length-pruned now_ms arm.replicas) in
      let (r, chosen) =
        route_total (pruned now_ms arm.replicas) arm.router arm.store (read_at round)
          (write_at round) trace.session_id now_ms (ne-nil_of_length _ some_replica)
          (All_imp (λ r w. w.1) (pruned now_ms arm.replicas) works) in
      let w =
        All-route memory_store Works (pruned now_ms arm.replicas) arm.router arm.store
          (read_at round) (write_at round) trace.session_id now_ms r works chosen in
      >>=-Produces (learn_previous_total arm.predictor trace t turn e h.predicts) (λ learned known.
        let (gap, found, predicts) = gap_of_total config learned trace.session_id turn known in
        rw (chosen, found)
          (produces (record {
            ready = record { some_replica = some_replica; work = works; predicts = predicts };
            works = Works-execute config.hardware r trace.session_id _ _ now_ms _ w;
            tokens =
                (execute_tokens config.hardware r trace.session_id turn.prompt_tokens
                  turn.output_tokens now_ms _).0;
          })))
