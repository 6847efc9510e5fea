-- ===== src/Gateway/Workers.antt =====
-- agentserve/gateway.py: a backend within a slot of a replica, and the events of a stream.
use agentserve.Backends.Streams.{Stream, Streamer}
use agentserve.Common.{ℕ, String, Option, none, some, List, [], ◌∷◌, ◌++◌, map}
use agentserve.Models
use agentserve.Models.{RequestResult, CacheTier}
use agentserve.Replica.{Replica, enter_slot, leave_slot}
use agentserve.Result.{Result, ok, raise, Exception}

-- A backend's `execute`: the replica as the call leaves it, and the result or the exception.
abbrev pub Backend : Type 0
Backend =
    Replica
    → String
    → (prompt_tokens output_tokens now_ms predicted_return_ms : ℕ) → Replica × Result RequestResult

-- `with replica.slot(): result = await execute(...)`: the slot is left on every path.
unfoldable pub in_slot :
    Backend
    → Replica
    → String
    → (prompt_tokens output_tokens now_ms predicted_return_ms : ℕ) → Replica × Result RequestResult
in_slot run replica session_id prompt_tokens output_tokens now_ms predicted_return_ms =
    let (after, result) =
      run (enter_slot replica) session_id prompt_tokens output_tokens now_ms predicted_return_ms in
    (leave_slot after, result)

-- A backend as the gateway calls it: `aexecute` or `execute`, and `astream` where it has one.
pub record Worker : Type 0 where
  pub run : Backend
  pub astream : Option Streamer

-- Without `astream` the result of `execute` is streamed as one text.
unfoldable pub as_stream : Replica × Result RequestResult → Replica × Stream
as_stream (after, raise e) = (after, record { texts = []; outcome = raise e })
as_stream (after, ok r) = (after, record { texts = r.text ∷ []; outcome = ok (some r) })

unfoldable pub stream_of :
    Worker
    → Replica
    → String
    → (prompt_tokens output_tokens now_ms predicted_return_ms : ℕ) → Replica × Stream
unfolding as_stream
stream_of worker replica session_id prompt_tokens output_tokens now_ms predicted_return_ms =
    elim worker.astream [
      | some astream ↦
          astream replica session_id prompt_tokens output_tokens now_ms predicted_return_ms
      | none ↦
          as_stream
            (worker.run replica session_id prompt_tokens output_tokens now_ms predicted_return_ms)
    ]

-- The slot is held for the whole stream, and left on every path.
unfoldable pub stream_in_slot :
    Worker
    → Replica
    → String
    → (prompt_tokens output_tokens now_ms predicted_return_ms : ℕ) → Replica × Stream
unfolding stream_of
stream_in_slot worker replica session_id prompt_tokens output_tokens now_ms predicted_return_ms =
    let (after, stream) =
      stream_of worker (enter_slot replica) session_id prompt_tokens output_tokens now_ms
        predicted_return_ms in
    (leave_slot after, stream)

-- What the last event of a stream tells of its result. The time to the first token is not rounded.
pub record StreamReport : Type 0 where
  pub replica : ℕ
  pub cache_tier : CacheTier
  pub reused_tokens : ℕ
  pub ttft_ms : ℕ

unfoldable pub report_of : RequestResult → StreamReport
unfolding Models.ttft_ms
report_of result = record {
  replica = result.replica_id;
  cache_tier = result.tier;
  reused_tokens = result.reused_tokens;
  ttft_ms = Models.ttft_ms result;
}

-- An event of the stream that a client gets. The first text carries the role.
pub data Chunk : Type 0 where
  opening : (text : String) → Chunk
  delta : (text : String) → Chunk
  final : (report : StreamReport) → Chunk
  failure : Exception → Chunk
  done : Chunk

unfoldable pub deltas : List String → List Chunk
deltas [] = []
deltas (text ∷ texts) = opening text ∷ map delta texts

-- The events of `stream_response`.
unfoldable pub chunks : Stream → List Chunk
unfolding deltas report_of
chunks stream = deltas stream.texts ++ elim stream.outcome [
  | raise e ↦ failure e ∷ done ∷ []
  | ok result ↦ elim result [ none ↦ done ∷ [] | some r ↦ final (report_of r) ∷ done ∷ [] ]
]
