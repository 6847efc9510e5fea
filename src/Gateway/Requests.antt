-- ===== src/Gateway/Requests.antt =====
-- agentserve/gateway.py: properties of single replicas across a request.
use agentserve.Common.{
  ℕ, ◌+◌, ◌≡◌, refl, arith, inl, inr, String, Option, none, some, List, [], ◌∷◌, zero, suc, All,
  set, ltb, truthy, Bool-cases,
}
use agentserve.Gateway.Scheduling.{pruned, schedule-replicas, All-schedule}
use agentserve.Gateway.{
  Gateway, Worker, Request, Body, schedule, in_slot, complete, stream_in_slot, stream_response,
  respond, serve, serve_messages, serve_body, serve_session, chat_completions, record_result,
  send_result, send_stream,
}
use agentserve.Replica.{Replica, prune}
use agentserve.Result.{Result, ok, raise}
use agentserve.State.{SessionStore}
use agentserve.Tokenizer.{Message, count_messages}
use Prim.Native.String.{count}

module _ {κ} (P : Replica → Type κ) where
  pub All-pruned :
      (now_ms : ℕ) (rs : List Replica)
      → ((r : Replica) → P r → P (prune r now_ms))
      → All P rs
      → All P (pruned now_ms rs)
  All-pruned now_ms [] f h = tt
  All-pruned now_ms (r ∷ rs) f h = (f r h.0, All-pruned now_ms rs f h.1)

  pub All-set : (rs : List Replica) (i : ℕ) (r : Replica) → P r → All P rs → All P (set rs i r)
  All-set [] i r p h = tt
  All-set (s ∷ rs) zero r p h = (p, h.1)
  All-set (s ∷ rs) (suc i) r p h = (h.0, All-set rs i r p h.1)

module _ {κ} (P : Replica → Type κ)
    (prune_keeps : (now_ms : ℕ) (r : Replica) → P r → P (prune r now_ms)) {S : Type 0}
    (ops : SessionStore S) (worker : Worker) (encoder : Option (String → ℕ))
    (slot_keeps : (r : Replica) (session_id : String)
        (prompt_tokens output_tokens now_ms predicted_return_ms : ℕ)
      → P r
      → P
          (in_slot worker.run r session_id prompt_tokens output_tokens now_ms
            predicted_return_ms).0)
    (stream_keeps : (r : Replica) (session_id : String)
        (prompt_tokens output_tokens now_ms predicted_return_ms : ℕ)
      → P r
      → P
          (stream_in_slot worker r session_id prompt_tokens output_tokens now_ms
            predicted_return_ms).0) where
  pub complete-replicas :
      (g : Gateway S) (write_at : ℕ) (sid : String) (prompt max_tokens now_ms gap : ℕ) (r : Replica)
      → (complete ops worker encoder g write_at sid prompt max_tokens now_ms (r, gap)).0.replicas
        ≡ set g.replicas r.id (in_slot worker.run r sid prompt max_tokens now_ms (now_ms + gap)).0
  unfolding complete send_result record_result
  complete-replicas g write_at sid prompt max_tokens now_ms gap r = ground arith

  complete-All :
      (g : Gateway S) (write_at : ℕ) (sid : String) (prompt max_tokens now_ms gap : ℕ) (r : Replica)
      → All P g.replicas
      → P r
      → All P
          (complete ops worker encoder g write_at sid prompt max_tokens now_ms (r, gap)).0.replicas
  complete-All g write_at sid prompt max_tokens now_ms gap r h b =
      rw (complete-replicas g write_at sid prompt max_tokens now_ms gap r)
        (All-set P g.replicas r.id _ (slot_keeps r sid prompt max_tokens now_ms (now_ms + gap) b) h)

  pub stream_response-replicas :
      (g : Gateway S) (write_at : ℕ) (sid : String) (prompt max_tokens now_ms gap : ℕ) (r : Replica)
      → (stream_response ops worker encoder g write_at sid prompt max_tokens now_ms
          (r, gap)).0.replicas
        ≡ set g.replicas r.id
            (stream_in_slot worker r sid prompt max_tokens now_ms (now_ms + gap)).0
  unfolding stream_response send_stream record_result
  stream_response-replicas g write_at sid prompt max_tokens now_ms gap r = ground arith

  stream_response-All :
      (g : Gateway S) (write_at : ℕ) (sid : String) (prompt max_tokens now_ms gap : ℕ) (r : Replica)
      → All P g.replicas
      → P r
      → All P
          (stream_response ops worker encoder g write_at sid prompt max_tokens now_ms
            (r, gap)).0.replicas
  stream_response-All g write_at sid prompt max_tokens now_ms gap r h b =
      rw (stream_response-replicas g write_at sid prompt max_tokens now_ms gap r) (
        All-set P g.replicas r.id _ (stream_keeps r sid prompt max_tokens now_ms (now_ms + gap) b)
          h)

  respond-All :
      (g : Gateway S) (write_at : ℕ) (sid : String) (prompt : ℕ) (body : Body) (now_ms : ℕ)
      (found : Result (Replica × ℕ))
      → All P g.replicas
      → ((r : Replica) (gap : ℕ) → found ≡ ok (r, gap) → P r)
      → All P (respond ops worker encoder g write_at sid prompt body now_ms found).0.replicas
  unfolding respond
  respond-All g write_at sid prompt body now_ms (raise e) h chosen = h
  respond-All g write_at sid prompt body now_ms (ok (r, gap)) h chosen =
      elim (Bool-cases body.wants_stream) [
        | inl streams ↦ rw streams (
            stream_response-All g write_at sid prompt body.max_tokens now_ms gap r h
              (chosen r gap refl))
        | inr waits ↦
            rw waits (
              complete-All g write_at sid prompt body.max_tokens now_ms gap r h (chosen r gap refl))
      ]

  serve-All :
      (g : Gateway S) (read_at write_at : ℕ) (sid : String) (tool : Option String)
      (messages : List Message) (body : Body) (now_ms : ℕ)
      → All P g.replicas
      → All P (serve ops worker encoder g read_at write_at sid tool messages body now_ms).0.replicas
  unfolding serve
  serve-All g read_at write_at sid tool messages body now_ms h =
      let still = All-pruned P now_ms g.replicas (prune_keeps now_ms) h in
      respond-All (schedule ops g read_at write_at sid tool now_ms).0 write_at sid
        (count_messages encoder messages) body now_ms
        (schedule ops g read_at write_at sid tool now_ms).1
        (rw (schedule-replicas ops g read_at write_at sid tool now_ms) still)
        (λ r gap. All-schedule ops P g read_at write_at sid tool now_ms r gap still)

  serve_messages-All :
      (g : Gateway S) (read_at write_at : ℕ) (sid : String) (tool : Option String) (body : Body)
      (now_ms : ℕ) (messages : Option (List Message))
      → All P g.replicas
      → All P
          (serve_messages ops worker encoder g read_at write_at sid tool body now_ms
            messages).0.replicas
  unfolding serve_messages
  serve_messages-All g read_at write_at sid tool body now_ms none h = h
  serve_messages-All g read_at write_at sid tool body now_ms (some []) h = h
  serve_messages-All g read_at write_at sid tool body now_ms (some (m ∷ ms)) h =
      serve-All g read_at write_at sid tool (m ∷ ms) body now_ms h

  serve_body-All :
      (g : Gateway S) (read_at write_at : ℕ) (sid : String) (tool : Option String) (now_ms : ℕ)
      (body : Option Body)
      → All P g.replicas
      → All P (serve_body ops worker encoder g read_at write_at sid tool now_ms body).0.replicas
  unfolding serve_body
  serve_body-All g read_at write_at sid tool now_ms none h = h
  serve_body-All g read_at write_at sid tool now_ms (some body) h =
      serve_messages-All g read_at write_at sid tool body now_ms body.messages h

  serve_session-All :
      (g : Gateway S) (read_at write_at now_ms : ℕ) (tool : Option String) (body : Option Body)
      (session_id : Option String)
      → All P g.replicas
      → All P
          (serve_session ops worker encoder g read_at write_at now_ms tool body
            session_id).0.replicas
  unfolding serve_session
  serve_session-All g read_at write_at now_ms tool body none h = h
  serve_session-All g read_at write_at now_ms tool body (some sid) h =
      elim (Bool-cases (truthy (some sid))) [
        | inr empty ↦ rw empty h
        | inl named ↦ elim (Bool-cases (ltb 256 (count sid))) [
          | inl long ↦ rw (named, long) h
          | inr short ↦ rw (named, short) (serve_body-All g read_at write_at sid tool now_ms body h)
        ]
      ]

  pub chat_completions-keeps :
      (g : Gateway S) (read_at write_at now_ms : ℕ) (request : Request)
      → All P g.replicas
      → All P (chat_completions ops worker encoder g read_at write_at now_ms request).0.replicas
  unfolding chat_completions
  chat_completions-keeps g read_at write_at now_ms request h =
      serve_session-All g read_at write_at now_ms request.tool_name request.body request.session_id
        h
