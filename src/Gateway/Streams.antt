-- ===== src/Gateway/Streams.antt =====
-- agentserve/gateway.py: streamed answers over a backend without `astream`.
use agentserve.Common.{
  ◌==◌, if◌then◌else◌, ℕ, ◌+◌, ◌≡◌, refl, sym, subst, inl, inr, String, true, false, Option, none,
  some, List, [], ◌∷◌, truthy, ltb, Bool-cases, Bool,
}
use agentserve.Backends.Streams.{Stream}
use agentserve.Gateway.{
  Gateway, Backend, Worker, Request, Body, opening, final, report_of, failure, done, Response,
  http_error, completion, unhandled, streaming, as_stream, stream_of, stream_in_slot, in_slot,
  chunks, deltas, stream_response, send_result, send_stream, complete, respond, serve,
  serve_messages, serve_body, serve_session, chat_completions, schedule,
}
use agentserve.Models.{RequestResult}
use agentserve.Replica.{Replica, enter_slot, leave_slot}
use agentserve.Result.{Result, Exception, ok, raise}
use agentserve.State.{SessionStore}
use agentserve.Tokenizer.{Message, count_messages}
use Prim.Native.String.{count}

-- A worker that the gateway can only call for whole results.
abbrev pub whole : Backend → Worker
whole run = record { run = run; astream = none }

-- Leaving the slot and turning the result into a stream do not meet.
as_stream_leave :
    (out : Replica × Result RequestResult)
    → (leave_slot (as_stream out).0, (as_stream out).1) ≡ as_stream (leave_slot out.0, out.1)
unfolding as_stream
as_stream_leave (after, raise e) = refl
as_stream_leave (after, ok result) = refl

stream_in_slot-whole :
    (run : Backend) (r : Replica) (session_id : String)
    (prompt_tokens output_tokens now_ms predicted_return_ms : ℕ)
    → stream_in_slot (whole run) r session_id prompt_tokens output_tokens now_ms predicted_return_ms
      ≡ as_stream (in_slot run r session_id prompt_tokens output_tokens now_ms predicted_return_ms)
unfolding stream_in_slot stream_of in_slot
stream_in_slot-whole run r sid prompt output now_ms predicted =
    as_stream_leave (run (enter_slot r) sid prompt output now_ms predicted)

as_stream-replica : (out : Replica × Result RequestResult) → (as_stream out).0 ≡ out.0
unfolding as_stream
as_stream-replica (after, raise e) = refl
as_stream-replica (after, ok result) = refl

-- What the slot of an answer keeps of a replica, the slot of a stream keeps.
pub whole-keeps {κ} :
    (P : Replica → Type κ) (run : Backend) (r : Replica) (session_id : String)
    (prompt_tokens output_tokens now_ms predicted_return_ms : ℕ)
    → P (in_slot run r session_id prompt_tokens output_tokens now_ms predicted_return_ms).0
    → P
        (stream_in_slot
          (whole run)
          r
          session_id
          prompt_tokens
          output_tokens
          now_ms
          predicted_return_ms).0
whole-keeps P run r sid prompt output now_ms predicted h =
    let streamed = stream_in_slot-whole run r sid prompt output now_ms predicted in
    rw streamed (subst P (sym (as_stream-replica _)) h)

-- What the client of a stream gets in place of an answer without one.
abbrev pub Streams : Response → Response → Type 0
Streams (streaming id events) streamed = streamed ≡ streaming id events
Streams (http_error status) streamed =
    if status == 502
    then ((id : ℕ) × (e : Exception) × (streamed ≡ streaming id (failure e ∷ done ∷ [])))
    else streamed ≡ http_error status
Streams (completion prompt_tokens result gap_ms) streamed =
    (id : ℕ) × (streamed
      ≡ streaming id (opening result.text ∷ final (report_of result) ∷ done ∷ []))
Streams (unhandled e) streamed = streamed ≡ unhandled e

-- The same state, and the stream of the answer.
abbrev pub Agree : {S : Type 0} → Gateway S × Response → Gateway S × Response → Type 0
Agree answered streamed = (streamed.0 ≡ answered.0) × Streams answered.1 streamed.1

abbrev pub asking : Bool → Body → Body
asking wants_stream body = record body { wants_stream = wants_stream }

module _ {S : Type 0} (ops : SessionStore S) (run : Backend) (encoder : Option (String → ℕ)) where
  send-Agree :
      (g : Gateway S) (write_at : ℕ) (sid : String) (prompt now_ms gap : ℕ) (r : Replica)
      (out : Replica × Result RequestResult)
      → Agree
          (send_result ops (whole run) encoder g write_at sid prompt now_ms gap r out)
          (send_stream ops (whole run) encoder g write_at sid now_ms r (as_stream out))
  unfolding send_result send_stream as_stream chunks deltas
  send-Agree g write_at sid prompt now_ms gap r (after, raise e) = (refl, (r.id, e, refl))
  send-Agree g write_at sid prompt now_ms gap r (after, ok result) = (refl, (r.id, refl))

  pub respond-Agree :
      (g : Gateway S) (write_at : ℕ) (sid : String) (prompt max_tokens now_ms gap : ℕ) (r : Replica)
      → Agree
          (complete ops (whole run) encoder g write_at sid prompt max_tokens now_ms (r, gap))
          (stream_response ops (whole run) encoder g write_at sid prompt max_tokens now_ms (r, gap))
  unfolding complete stream_response
  respond-Agree g write_at sid prompt max_tokens now_ms gap r =
      subst
        (λ (s : Replica × Stream).
          Agree (complete ops (whole run) encoder g write_at sid prompt max_tokens now_ms (r, gap))
            (send_stream ops (whole run) encoder g write_at sid now_ms r s))
        (sym (stream_in_slot-whole run r sid prompt max_tokens now_ms (now_ms + gap)))
        (send-Agree g write_at sid prompt now_ms gap r
          (in_slot run r sid prompt max_tokens now_ms (now_ms + gap)))

  respond_kinds-Agree :
      (g : Gateway S) (write_at : ℕ) (sid : String) (prompt : ℕ) (body : Body) (now_ms : ℕ)
      (found : Result (Replica × ℕ))
      → Agree
          (respond ops (whole run) encoder g write_at sid prompt (asking false body) now_ms found)
          (respond ops (whole run) encoder g write_at sid prompt (asking true body) now_ms found)
  unfolding respond
  respond_kinds-Agree g write_at sid prompt body now_ms (raise e) = (refl, refl)
  respond_kinds-Agree g write_at sid prompt body now_ms (ok (r, gap)) =
      respond-Agree g write_at sid prompt body.max_tokens now_ms gap r

  serve-Agree :
      (g : Gateway S) (read_at write_at : ℕ) (sid : String) (tool : Option String)
      (messages : List Message) (body : Body) (now_ms : ℕ)
      → Agree
          (serve ops
            (whole run)
            encoder
            g
            read_at
            write_at
            sid
            tool
            messages
            (asking false body)
            now_ms)
          (serve ops
            (whole run)
            encoder
            g
            read_at
            write_at
            sid
            tool
            messages
            (asking true body)
            now_ms)
  unfolding serve
  serve-Agree g read_at write_at sid tool messages body now_ms =
      respond_kinds-Agree (schedule ops g read_at write_at sid tool now_ms).0 write_at sid
        (count_messages encoder messages) body now_ms
        (schedule ops g read_at write_at sid tool now_ms).1

  serve_messages-Agree :
      (g : Gateway S) (read_at write_at : ℕ) (sid : String) (tool : Option String) (body : Body)
      (now_ms : ℕ) (messages : Option (List Message))
      → Agree
          (serve_messages ops
            (whole run)
            encoder
            g
            read_at
            write_at
            sid
            tool
            (asking false body)
            now_ms
            messages)
          (serve_messages ops
            (whole run)
            encoder
            g
            read_at
            write_at
            sid
            tool
            (asking true body)
            now_ms
            messages)
  unfolding serve_messages
  serve_messages-Agree g read_at write_at sid tool body now_ms none = (refl, refl)
  serve_messages-Agree g read_at write_at sid tool body now_ms (some []) = (refl, refl)
  serve_messages-Agree g read_at write_at sid tool body now_ms (some (m ∷ ms)) =
      serve-Agree g read_at write_at sid tool (m ∷ ms) body now_ms

  serve_session-Agree :
      (g : Gateway S) (read_at write_at now_ms : ℕ) (tool : Option String) (body : Body)
      (session_id : Option String)
      → Agree
          (serve_session ops
            (whole run)
            encoder
            g
            read_at
            write_at
            now_ms
            tool
            (some (asking false body))
            session_id)
          (serve_session ops
            (whole run)
            encoder
            g
            read_at
            write_at
            now_ms
            tool
            (some (asking true body))
            session_id)
  unfolding serve_session serve_body
  serve_session-Agree g read_at write_at now_ms tool body none = (refl, refl)
  serve_session-Agree g read_at write_at now_ms tool body (some sid) =
      elim (Bool-cases (truthy (some sid))) [
        | inr empty ↦ rw empty (refl, refl)
        | inl named ↦ elim (Bool-cases (ltb 256 (count sid))) [
          | inl long ↦ rw (named, long) (refl, refl)
          | inr short ↦
              rw (named, short)
                (serve_messages-Agree g read_at write_at sid tool body now_ms body.messages)
        ]
      ]

  -- Over a backend without `astream`, asking for a stream does not change what a request does to
  -- the gateway. A completion becomes the stream of its text and of the replica, the cache tier,
  -- the reused tokens and the time to the first token of its result; an upstream failure (502)
  -- becomes a stream that reports it; and every other answer stays the same.
  pub chat_completions_streams :
      (g : Gateway S) (read_at write_at now_ms : ℕ) (request : Request) (body : Body)
      → Agree
          (chat_completions ops
            (whole run)
            encoder
            g
            read_at
            write_at
            now_ms
            (record request { body = some (asking false body) }))
          (chat_completions ops
            (whole run)
            encoder
            g
            read_at
            write_at
            now_ms
            (record request { body = some (asking true body) }))
  unfolding chat_completions
  chat_completions_streams g read_at write_at now_ms request body =
      serve_session-Agree g read_at write_at now_ms request.tool_name body request.session_id
