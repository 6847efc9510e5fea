-- ===== src/Gateway/Interleaved.antt =====
-- agentserve/gateway.py: requests that the event loop interleaves. A request is cut where another
-- may run: behind the scheduling, behind entering the slot, within the backend, and before leaving
-- the slot. A completion is not cut behind its scheduling, so the cuts here allow more orders.
pub mod Invariants
pub mod Counts
pub mod Drained
pub mod Turns
pub mod Alone
pub mod Ends
pub mod Caches
use agentserve.Backends.Streams.{Stream}
use agentserve.Common.{
  ℕ, zero, suc, ◌+◌, ◌==◌, String, Bool, true, false, Option, none, some, List, [], ◌∷◌, ◌++◌, set,
  get_elem?, sum_by, if◌then◌else◌,
}
use agentserve.Gateway.Workers.{Worker, stream_of, chunks}
use agentserve.Gateway.{Gateway, Response, schedule, record_result}
use agentserve.Models.{RequestResult}
use agentserve.Replica.{Replica, enter_slot, leave_slot}
use agentserve.Result.{Result, ok, raise}
use agentserve.State.{SessionStore}
use agentserve.Tokenizer.{Message, count_messages}

-- What the backend has given, within the slot.
pub data Given : Type 0 where
  returned : Result RequestResult → Given
  streamed : Stream → Given

-- `dropped` is a request whose client has left.
pub data Stage : Type 0 where
  waiting : Stage
  running : Stage
  answered : Given → Stage
  finished : Response → Stage
  dropped : Stage

-- A request that `schedule` has given a replica.
pub record Job : Type 0 where
  pub session_id : String
  pub prompt_tokens : ℕ
  pub max_tokens : ℕ
  pub wants_stream : Bool
  pub now_ms : ℕ
  pub replica_id : ℕ
  pub gap_ms : ℕ
  pub stage : Stage

pub record EventLoop (S : Type 0) : Type 0 where
  pub gateway : Gateway S
  pub jobs : List Job

-- What a request does between two cuts. `work` names the call of the backend.
pub data JobTurn : Type 0 where
  enter : JobTurn
  work : (call : ℕ) → JobTurn
  leave : JobTurn
  cancel : JobTurn

pub data LoopEvent : Type 0 where
  arrive :
      (read_at write_at now_ms : ℕ) (session_id : String) (tool_name : Option String)
      (messages : List Message) (max_tokens : ℕ) (wants_stream : Bool)
      → LoopEvent
  resume : (job : ℕ) (turn : JobTurn) (write_at : ℕ) → LoopEvent

-- The result that `record` gets.
unfoldable pub result_in : Given → Option RequestResult
result_in (returned (raise e)) = none
result_in (returned (ok r)) = some r
result_in (streamed stream) = elim stream.outcome [ raise e ↦ none | ok result ↦ result ]

-- The answer to the client.
unfoldable pub response_of : Job → Given → Response
unfolding chunks
response_of job (returned (raise e)) = Response.http_error 502
response_of job (returned (ok r)) = Response.completion job.prompt_tokens r job.gap_ms
response_of job (streamed stream) = Response.streaming job.replica_id (chunks stream)

-- The call of the backend: `astream` or `execute`, as the request asks.
unfoldable pub call_backend : Worker → Job → Replica → Replica × Given
unfolding stream_of
call_backend worker job replica =
    let back_ms = job.now_ms + job.gap_ms in
    let (streaming, stream) =
      stream_of worker replica job.session_id job.prompt_tokens job.max_tokens job.now_ms back_ms in
    let (after, result) =
      worker.run replica job.session_id job.prompt_tokens job.max_tokens job.now_ms back_ms in
    if job.wants_stream then (streaming, streamed stream) else (after, returned result)

unfoldable pub given_by : Replica × Given → Replica × Stage × Option RequestResult
given_by (after, reply) = (after, answered reply, none)

module _ (workers : ℕ → Worker) where
  -- The replica behind a turn, the stage of the request, and the result to record. The slot is left
  -- on every path out of it. A turn that is not next for the request changes nothing.
  unfoldable pub take_turn :
      JobTurn → Job → Stage → Replica → Replica × Stage × Option RequestResult
  unfolding call_backend given_by result_in response_of
  take_turn enter job waiting r = (enter_slot r, running, none)
  take_turn (work k) job running r = given_by (call_backend (workers k) job r)
  take_turn leave job (answered reply) r =
      (leave_slot r, finished (response_of job reply), result_in reply)
  take_turn cancel job waiting r = (r, dropped, none)
  take_turn cancel job running r = (leave_slot r, dropped, none)
  take_turn cancel job (answered reply) r = (leave_slot r, dropped, none)
  take_turn turn job stage r = (r, stage, none)

  module _ {S : Type 0} (ops : SessionStore S) (encoder : Option (String → ℕ)) where
    unfoldable pub note : Gateway S → (write_at : ℕ) → Job → Option RequestResult → Gateway S
    unfolding record_result
    note g write_at job none = g
    note g write_at job (some r) = record_result ops g write_at job.session_id r job.now_ms

    unfoldable pub apply_turn :
        EventLoop S → (i write_at : ℕ) → Job → Replica × Stage × Option RequestResult → EventLoop S
    unfolding note
    apply_turn loop i write_at job (after, stage, result) =
        let replicas = set loop.gateway.replicas job.replica_id after in
        record {
          gateway = note (record (loop.gateway) { replicas = replicas }) write_at job result;
          jobs = set loop.jobs i (record job { stage = stage });
        }

    unfoldable pub resume_on :
        EventLoop S → (i write_at : ℕ) → JobTurn → Job → Option Replica → EventLoop S
    unfolding apply_turn take_turn
    resume_on loop i write_at turn job none = loop
    resume_on loop i write_at turn job (some r) =
        apply_turn loop i write_at job (take_turn turn job job.stage r)

    unfoldable pub resume_job : EventLoop S → (i write_at : ℕ) → JobTurn → Option Job → EventLoop S
    unfolding resume_on
    resume_job loop i write_at turn none = loop
    resume_job loop i write_at turn (some job) =
        resume_on loop i write_at turn job (get_elem? loop.gateway.replicas job.replica_id)

    -- A request that is scheduled joins the others.
    unfoldable pub enlist :
        (session_id : String) (prompt_tokens max_tokens : ℕ) (wants_stream : Bool) (now_ms : ℕ)
        → List Job
        → Gateway S × Result (Replica × ℕ)
        → EventLoop S
    enlist session_id prompt_tokens max_tokens wants_stream now_ms jobs (g, raise e) = record {
      gateway = g;
      jobs = jobs;
    }
    enlist session_id prompt_tokens max_tokens wants_stream now_ms jobs (g, ok (r, gap_ms)) =
        record {
          gateway = g;
          jobs =
              jobs
              ++ record {
                session_id = session_id;
                prompt_tokens = prompt_tokens;
                max_tokens = max_tokens;
                wants_stream = wants_stream;
                now_ms = now_ms;
                replica_id = r.id;
                gap_ms = gap_ms;
                stage = waiting;
              }
                ∷ [];
        }

    unfoldable pub step : EventLoop S → LoopEvent → EventLoop S
    unfolding resume_job enlist schedule
    step loop (arrive read_at write_at now_ms sid tool messages max_tokens wants_stream) =
        enlist sid (count_messages encoder messages) max_tokens wants_stream now_ms loop.jobs
          (schedule ops loop.gateway read_at write_at sid tool now_ms)
    step loop (resume i turn write_at) = resume_job loop i write_at turn (get_elem? loop.jobs i)

    -- The events in their order.
    unfoldable pub interleave : EventLoop S → List LoopEvent → EventLoop S
    unfolding step
    interleave loop [] = loop
    interleave loop (event ∷ events) = interleave (step loop event) events

-- Whether the request is inside of a slot.
unfoldable pub is_open : Stage → Bool
is_open waiting = false
is_open running = true
is_open (answered reply) = true
is_open (finished response) = false
is_open dropped = false

-- The number of requests inside of a slot of the replica.
unfoldable pub open_requests : (replica_id : ℕ) → List Job → ℕ
unfolding is_open
open_requests id [] = 0
open_requests id (job ∷ jobs) =
    let rest = open_requests id jobs in
    if job.replica_id == id then (if is_open job.stage then suc rest else rest) else rest
