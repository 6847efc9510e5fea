-- ===== src/Gateway/Interleaved/Turns.antt =====
-- agentserve/gateway.py: the three turns of a request that no other interrupts.
use agentserve.Common.Positions.{get_elem?-set, set-set}
use agentserve.Common.{
  ℕ, ◌+◌, ◌≡◌, refl, ap, ◌∙◌, Bool, true, false, String, Option, none, some, List, [], ◌∷◌, set,
  get_elem?,
}
use agentserve.Gateway.Interleaved.Drained.{step_on}
use agentserve.Gateway.Interleaved.{
  Job, LoopEvent, EventLoop, Given, returned, streamed, waiting, running, answered, finished, enter,
  work, leave, resume, call_backend, given_by, result_in, response_of, take_turn, note, apply_turn,
  step, interleave,
}
use agentserve.Gateway.Streams.{asking}
use agentserve.Gateway.{
  Gateway, Worker, Body, stream_of, Response, in_slot, stream_in_slot, complete, stream_response,
  respond, send_result, send_stream,
}
use agentserve.Models.{RequestResult}
use agentserve.Replica.{Replica, enter_slot, leave_slot}
use agentserve.Result.{Result, ok, raise}
use agentserve.State.{SessionStore}

-- The three turns of the only request.
abbrev pub turns : (write_at : ℕ) → List LoopEvent
turns write_at = resume 0 enter write_at ∷ resume 0 (work 0) write_at ∷ resume 0 leave write_at ∷ []

-- The job that a scheduled request becomes.
abbrev pub job_of : String → (prompt now_ms : ℕ) → Body → Replica → (gap_ms : ℕ) → Job
job_of sid prompt now_ms body r gap_ms = record {
  session_id = sid;
  prompt_tokens = prompt;
  max_tokens = body.max_tokens;
  wants_stream = body.wants_stream;
  now_ms = now_ms;
  replica_id = r.id;
  gap_ms = gap_ms;
  stage = waiting;
}

-- The loop behind an answer.
abbrev pub answered_by : {S : Type 0} → Job → Gateway S × Response → EventLoop S
answered_by job answer = record {
  gateway = answer.0;
  jobs = record job { stage = finished answer.1 } ∷ [];
}

module _ {S : Type 0} (ops : SessionStore S) (worker : Worker) (encoder : Option (String → ℕ)) where
  -- What the three turns come to.
  abbrev pub outcome : Gateway S → (write_at : ℕ) → Job → Replica → EventLoop S
  outcome g write_at job r =
      let called = call_backend worker job (enter_slot r) in
      record {
        gateway =
            note (λ k. worker) ops encoder
              (record g { replicas = set g.replicas job.replica_id (leave_slot called.0) }) write_at
              job (result_in called.1);
        jobs = record job { stage = finished (response_of job called.1) } ∷ [];
      }

  pub interleave-turns :
      (g : Gateway S) (write_at : ℕ) (job : Job) (r : Replica)
      → get_elem? g.replicas job.replica_id ≡ some r
      → interleave
          (λ k. worker)
          ops
          encoder
          (record { gateway = g; jobs = record job { stage = waiting } ∷ [] })
          (turns write_at)
        ≡ outcome g write_at job r
  unfolding interleave apply_turn take_turn given_by note
  interleave-turns g write_at job r here =
      let id = job.replica_id in
      let rs = g.replicas in
      let called = call_backend worker job (enter_slot r) in
      let next = step (λ k. worker) ops encoder in
      let fresh : EventLoop S = record {
        gateway = g;
        jobs = record job { stage = waiting } ∷ [];
      } in
      let entered : EventLoop S = record {
        gateway = record g { replicas = set rs id (enter_slot r) };
        jobs = record job { stage = running } ∷ [];
      } in
      let worked : EventLoop S = record {
        gateway = record g { replicas = set (set rs id (enter_slot r)) id called.0 };
        jobs = record job { stage = answered called.1 } ∷ [];
      } in
      let there = get_elem?-set rs id (enter_slot r) r here in
      ap (λ l. next (next l (resume 0 (work 0) write_at)) (resume 0 leave write_at))
        (step_on (λ k. worker) ops encoder fresh 0 write_at enter _ r refl here)
      ∙ ap (λ l. next l (resume 0 leave write_at))
          (step_on (λ k. worker) ops encoder entered 0 write_at (work 0) _ (enter_slot r) refl
            there)
      ∙ step_on (λ k. worker) ops encoder worked 0 write_at leave _ called.0 refl
          (get_elem?-set (set rs id (enter_slot r)) id called.0 (enter_slot r) there)
      ∙ ap
          (λ (qs : List Replica). record {
            gateway =
                note (λ k. worker) ops encoder (record g { replicas = qs }) write_at job
                  (result_in called.1);
            jobs = record job { stage = finished (response_of job called.1) } ∷ [];
          })
          (set-set (set rs id (enter_slot r)) id called.0 (leave_slot called.0)
            ∙ set-set rs id (enter_slot r) (leave_slot called.0))

  module _ (g : Gateway S) (write_at : ℕ) (sid : String) (prompt now_ms : ℕ) (body : Body)
      (r : Replica) (gap : ℕ) where
    abbrev job : Bool → Job
    job wants = job_of sid prompt now_ms (asking wants body) r gap

    -- What leaving the slot comes to.
    abbrev left : Bool → Replica → Given → EventLoop S
    left wants after reply = record {
      gateway =
          note (λ k. worker) ops encoder
            (record g { replicas = set g.replicas r.id (leave_slot after) }) write_at (job wants)
            (result_in reply);
      jobs = record (job wants) { stage = finished (response_of (job wants) reply) } ∷ [];
    }

    left-send_result :
        (after : Replica) (result : Result RequestResult)
        → left false after (returned result)
          ≡ answered_by (job false) (
              send_result ops worker encoder g write_at sid prompt now_ms gap r
                (leave_slot after, result))
    unfolding note result_in response_of send_result
    left-send_result after (raise e) = refl
    left-send_result after (ok x) = refl

    left-send_stream :
        (after : Replica) (texts : List String) (outcome : Result (Option RequestResult))
        → left true after (streamed (record { texts = texts; outcome = outcome }))
          ≡ answered_by (job true) (
              send_stream ops worker encoder g write_at sid now_ms r
                (leave_slot after, record { texts = texts; outcome = outcome }))
    unfolding note result_in response_of send_stream
    left-send_stream after texts (raise e) = refl
    left-send_stream after texts (ok none) = refl
    left-send_stream after texts (ok (some x)) = refl

    pub outcome-respond :
        (wants : Bool)
        → outcome g write_at (job wants) r
          ≡ answered_by (job wants) (
              respond ops worker encoder g write_at sid prompt
                (asking wants body)
                now_ms
                (ok (r, gap)))
    unfolding respond complete stream_response in_slot stream_in_slot call_backend
    outcome-respond true =
        let called =
          stream_of worker (enter_slot r) sid prompt body.max_tokens now_ms (now_ms + gap) in
        left-send_stream called.0 called.1.texts called.1.outcome
    outcome-respond false =
        let called = worker.run (enter_slot r) sid prompt body.max_tokens now_ms (now_ms + gap) in
        left-send_result called.0 called.1
