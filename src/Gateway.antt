-- ===== src/Gateway.antt =====
-- agentserve/gateway.py: the scheduling of a call and the two kinds of answers. The backend is an
-- argument, and so is the clock: the time of the request, and what the session store reads. A stream
-- is read to its end before the next request.
mod Workers
pub mod Scheduling
pub mod Requests
pub mod Streams
pub mod Serving
pub mod Answers
pub mod Replies
pub mod Slots
pub mod Capacity
pub mod Interleaved
unfoldable pub use Workers.*
use agentserve.Backends.Streams.{Stream, Streamer}
use agentserve.Common.Int.{ℤ, pos}
use agentserve.Common.{
  ℕ, ◌+◌, ◌-◌, ltb, String, Bool, true, false, Option, none, some, List, [], ◌∷◌, ◌++◌, map, set,
  truthy, if◌then◌else◌,
}
use agentserve.Config.{PolicyConfig}
use agentserve.Metrics.{Metrics, inc, observe_result}
use agentserve.Models.{CacheTier, RequestResult, latency_ms, ttft_ms}
use agentserve.Predictor.{ToolDurationPredictor, observe, predict_ms}
use agentserve.Replica.{Replica, prune, enter_slot, leave_slot}
use agentserve.Result.{Result, ok, raise, ◌>>=◌, Exception}
use agentserve.Router.Choice.{AnyRouter, affinity_hits, route}
use agentserve.State.{SessionStore}
use agentserve.Tokenizer.{Message, count_messages}
use Prim.Native.String.{count}

pub record Gateway (S : Type 0) : Type 0 where
  pub replicas : List Replica
  pub router : AnyRouter
  pub predictor : ToolDurationPredictor
  pub store : S
  pub metrics : Metrics

-- `AFFINITY.labels(...).inc()`
unfoldable pub count_decision : AnyRouter → AnyRouter → Metrics → Metrics
unfolding affinity_hits
count_decision before after m =
    if ltb (affinity_hits before) (affinity_hits after)
    then record m { affinity_decisions = m.affinity_decisions + 1 }
    else record m { rebalanced_decisions = m.rebalanced_decisions + 1 }

-- The gap since the session was last seen, clamped at zero, is observed.
unfoldable pub learn :
    ToolDurationPredictor → String → Option String → ℕ → Option ℕ → Result ToolDurationPredictor
learn p session_id tool_name now_ms none = ok p
learn p session_id tool_name now_ms (some last) =
    observe p session_id tool_name (pos (now_ms - last))

module _ {S : Type 0} (ops : SessionStore S) where
  -- `schedule` behind the reading of the time at which the session was last seen.
  unfoldable pub dispatch :
      Gateway S
      → (read_at write_at : ℕ) → String
      → Option String
      → ℕ
      → Gateway S × Result (Replica × ℕ)
  unfolding route count_decision
  dispatch g read_at write_at session_id tool_name now_ms =
      let (router, store, chosen) =
        route ops g.replicas g.router g.store read_at write_at session_id now_ms in
      elim chosen [
        | raise e ↦ (record g { router = router; store = store }, raise e)
        | ok replica ↦
            let (predictor, gap_ms) = predict_ms g.predictor session_id tool_name in
            (
              record g {
                router = router;
                store = store;
                metrics = count_decision g.router router g.metrics;
                predictor = predictor;
              },
              gap_ms >>= λ gap. ok (replica, gap),
            )
      ]

  unfoldable pub schedule :
      Gateway S
      → (read_at write_at : ℕ) → String
      → Option String
      → ℕ
      → Gateway S × Result (Replica × ℕ)
  unfolding learn dispatch
  schedule g read_at write_at session_id tool_name now_ms =
      let replicas = map (λ r. prune r now_ms) g.replicas in
      let (store, last) = ops.get_last_seen read_at session_id g.store in
      let g' : Gateway S = record g { replicas = replicas; store = store } in
      elim (last >>= learn g.predictor session_id tool_name now_ms) [
        | raise e ↦ (g', raise e)
        | ok predictor ↦
            dispatch (record g' { predictor = predictor }) read_at write_at session_id tool_name
              now_ms
      ]

  -- `record`, which the non-streaming answer calls after a success.
  unfoldable pub record_result : Gateway S → (write_at : ℕ) → String → RequestResult → ℕ → Gateway S
  unfolding observe_result inc
  record_result g write_at session_id result now_ms = record g {
    metrics =
        let observed = observe_result result g.metrics in
        record observed { cache_actions = inc result.tier observed.cache_actions };
    store = ops.set_last_seen write_at session_id (now_ms + latency_ms result) g.store;
  }

-- What a client gets: the status of an error, the result with the prompt's tokens and the gap, or the
-- number of the replica and the events of a stream.
pub data Response : Type 0 where
  streaming : (replica_id : ℕ) (events : List Chunk) → Response
  http_error : (status : ℕ) → Response
  completion : (prompt_tokens : ℕ) (result : RequestResult) (gap_ms : ℕ) → Response
  -- An exception that the handler does not catch.
  unhandled : Exception → Response

-- A request: its headers, and the fields that are read of its body, or `none` where the body is no
-- JSON. `messages` is `none` where it is missing or no list.
pub record Body : Type 0 where
  pub messages : Option (List Message)
  pub max_tokens : ℕ
  pub wants_stream : Bool

pub record Request : Type 0 where
  pub session_id : Option String
  pub tool_name : Option String
  pub body : Option Body

module _ {S : Type 0} (ops : SessionStore S) (worker : Worker) (encoder : Option (String → ℕ)) where
  -- The answer to what the worker has returned. The replica's place in the cluster is its number.
  unfoldable pub send_result :
      Gateway S
      → (write_at : ℕ) → String
      → (prompt_tokens now_ms gap_ms : ℕ) → Replica
      → Replica × Result RequestResult
      → Gateway S × Response
  unfolding record_result
  send_result g write_at session_id prompt_tokens now_ms gap_ms replica (after, result) =
      let g' : Gateway S = record g { replicas = set g.replicas replica.id after } in
      elim result [
        | raise e ↦ (g', http_error 502)
        | ok r ↦
            (record_result ops g' write_at session_id r now_ms, completion prompt_tokens r gap_ms)
      ]

  -- The call to the worker, and the answer.
  unfoldable pub complete :
      Gateway S
      → (write_at : ℕ) → String
      → (prompt_tokens max_tokens now_ms : ℕ) → Replica × ℕ
      → Gateway S × Response
  unfolding in_slot send_result
  complete g write_at session_id prompt_tokens max_tokens now_ms (replica, gap_ms) =
      send_result g write_at session_id prompt_tokens now_ms gap_ms replica
        (in_slot worker.run replica session_id prompt_tokens max_tokens now_ms (now_ms + gap_ms))

  -- The events of a stream. The result is recorded, if the stream ends with one.
  unfoldable pub send_stream :
      Gateway S
      → (write_at : ℕ) → String
      → (now_ms : ℕ) → Replica
      → Replica × Stream
      → Gateway S × Response
  unfolding record_result chunks
  send_stream g write_at session_id now_ms replica (after, stream) =
      let g' : Gateway S = record g { replicas = set g.replicas replica.id after } in
      (
        elim stream.outcome [
          | raise e ↦ g'
          | ok result ↦ elim result [
            | none ↦ g'
            | some r ↦ record_result ops g' write_at session_id r now_ms
          ]
        ],
        streaming replica.id (chunks stream),
      )

  unfoldable pub stream_response :
      Gateway S
      → (write_at : ℕ) → String
      → (prompt_tokens max_tokens now_ms : ℕ) → Replica × ℕ
      → Gateway S × Response
  unfolding stream_in_slot send_stream
  stream_response g write_at session_id prompt_tokens max_tokens now_ms (replica, gap_ms) =
      send_stream g write_at session_id now_ms replica
        (stream_in_slot worker replica session_id prompt_tokens max_tokens now_ms (now_ms + gap_ms))

  -- The answer of the kind that the body asks for, to what the scheduling gives.
  unfoldable pub respond :
      Gateway S
      → (write_at : ℕ) → String
      → (prompt_tokens : ℕ) → Body
      → (now_ms : ℕ) → Result (Replica × ℕ)
      → Gateway S × Response
  unfolding complete stream_response
  respond g write_at session_id prompt_tokens body now_ms (raise e) = (g, unhandled e)
  respond g write_at session_id prompt_tokens body now_ms (ok target) =
      if body.wants_stream
      then stream_response g write_at session_id prompt_tokens body.max_tokens now_ms target
      else complete g write_at session_id prompt_tokens body.max_tokens now_ms target

  -- `chat_completions` behind the checks of the request.
  unfoldable pub serve :
      Gateway S
      → (read_at write_at : ℕ) → String
      → Option String
      → List Message
      → Body
      → (now_ms : ℕ) → Gateway S × Response
  unfolding schedule respond
  serve g read_at write_at session_id tool_name messages body now_ms =
      let (g', scheduled) = schedule ops g read_at write_at session_id tool_name now_ms in
      respond g' write_at session_id (count_messages encoder messages) body now_ms scheduled

  -- The check of `messages`: a list that is not empty.
  unfoldable pub serve_messages :
      Gateway S
      → (read_at write_at : ℕ) → String
      → Option String
      → Body
      → (now_ms : ℕ) → Option (List Message)
      → Gateway S × Response
  unfolding serve
  serve_messages g read_at write_at session_id tool_name body now_ms none = (g, http_error 400)
  serve_messages g read_at write_at session_id tool_name body now_ms (some []) = (g, http_error 400)
  serve_messages g read_at write_at session_id tool_name body now_ms (some (m ∷ ms)) =
      serve g read_at write_at session_id tool_name (m ∷ ms) body now_ms

  -- The check of the body.
  unfoldable pub serve_body :
      Gateway S
      → (read_at write_at : ℕ) → String
      → Option String
      → (now_ms : ℕ) → Option Body
      → Gateway S × Response
  unfolding serve_messages
  serve_body g read_at write_at session_id tool_name now_ms none = (g, http_error 400)
  serve_body g read_at write_at session_id tool_name now_ms (some body) =
      serve_messages g read_at write_at session_id tool_name body now_ms body.messages

  -- The checks of the session's header: present, not empty, and at most 256 characters.
  unfoldable pub serve_session :
      Gateway S
      → (read_at write_at now_ms : ℕ) → Option String
      → Option Body
      → Option String
      → Gateway S × Response
  unfolding serve_body
  serve_session g read_at write_at now_ms tool_name body none = (g, http_error 400)
  serve_session g read_at write_at now_ms tool_name body (some session_id) =
      let served = serve_body g read_at write_at session_id tool_name now_ms body in
      if truthy (some session_id)
      then (if ltb 256 (count session_id) then (g, http_error 400) else served)
      else (g, http_error 400)

  unfoldable pub chat_completions :
      Gateway S → (read_at write_at now_ms : ℕ) → Request → Gateway S × Response
  unfolding serve_session
  chat_completions g read_at write_at now_ms request =
      serve_session g read_at write_at now_ms request.tool_name request.body request.session_id
