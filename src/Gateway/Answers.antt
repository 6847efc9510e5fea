-- ===== src/Gateway/Answers.antt =====
-- agentserve/gateway.py over the simulated backend and the in-memory session store: when a request is
-- answered with a completion or with the stream of one.
use agentserve.Backends.Simulated.Costs.{execute-hw}
use agentserve.Common.{
  ℕ, ◌+◌, ◌≤◌, ◌<◌, ◌≡◌, refl, sym, ap, arith, subst, inl, inr, ◌⊎◌, String, true, false, Option,
  some, List, [], ◌∷◌, length, length-set, ltb, truthy, Bool-cases,
}
use agentserve.Config.{HardwareProfile}
use agentserve.Gateway.Capacity.{simulated, IsBounded-in_slot, IsConsistent-enter_slot}
use agentserve.Gateway.Requests.{All-pruned, All-set}
use agentserve.Gateway.Scheduling.{schedule-replicas, All-schedule}
use agentserve.Gateway.Streams.{whole, Streams, respond-Agree}
use agentserve.Gateway.{
  opening, final, report_of, done, streaming, stream_response, respond, send_result, Response,
  Gateway, Request, Body, Response, completion, schedule, in_slot, complete, serve, serve_messages,
  serve_body, serve_session, chat_completions, record_result,
}
use agentserve.Models.{RequestResult}
use agentserve.Replica.{Replica, enter_slot, leave_slot}
use agentserve.Result.{ok}
use agentserve.State.Memory.{InMemorySessionStore, memory_store}
use agentserve.Tokenizer.{Message, count_messages}
use Prim.Native.String.{count}
use agentserve.Gateway.Serving.{Works, IsServing, length-pruned, Works-prune, schedule_total}

-- A completion, or the stream of one.
abbrev pub Completes : Response → Type 0
Completes answer =
    ((prompt_tokens : ℕ) × (result : RequestResult) × (gap_ms : ℕ) × (answer
        ≡ completion prompt_tokens result gap_ms))
    ⊎ ((id : ℕ) × (result : RequestResult) × (answer
          ≡ streaming id (opening result.text ∷ final (report_of result) ∷ done ∷ [])))

-- A gateway that can still serve, and a completion.
abbrev pub StillServes : Gateway InMemorySessionStore × Response → Type 0
StillServes answered = IsServing answered.0 × Completes answered.1

Completes-Streams : (a b : Response) → Completes a → Streams a b → Completes b
Completes-Streams a b (inl (prompt, result, gap, e)) s =
    let (id, events) = subst (λ (x : Response). Streams x b) e s in inr (id, result, events)
Completes-Streams a b (inr (id, result, e)) s =
    inr (id, result, subst (λ (x : Response). Streams x b) e s)

module _ (hw : HardwareProfile) (encoder : Option (String → ℕ)) where
  Works-in_slot :
      (r : Replica) (sid : String) (prompt output now_ms predicted : ℕ)
      → Works r
      → Works (in_slot (simulated hw) r sid prompt output now_ms predicted).0
  unfolding in_slot simulated enter_slot leave_slot
  Works-in_slot r sid prompt output now_ms predicted w =
      let entered = IsConsistent-enter_slot r w.0.consistent in
      (
        IsBounded-in_slot memory_store hw encoder r sid prompt output now_ms predicted w.0,
        subst (λ (h : HardwareProfile). 0 < h.gpu_cache_tokens)
            (sym (execute-hw hw (enter_slot r) sid prompt output now_ms predicted entered)) w.1,
      )

  complete_answers :
      (g : Gateway InMemorySessionStore) (write_at : ℕ) (sid : String)
      (prompt max_tokens now_ms gap : ℕ) (r : Replica)
      → IsServing g
      → Works r
      → StillServes (
          complete memory_store
            (whole (simulated hw))
            encoder
            g
            write_at
            sid
            prompt
            max_tokens
            now_ms
            (r, gap))
  unfolding complete send_result in_slot simulated record_result
  complete_answers g write_at sid prompt max_tokens now_ms gap r h w = (
    record {
      some_replica = omega (arith, h.some_replica, length-set g.replicas r.id _);
      work =
          All-set Works g.replicas r.id _
            (Works-in_slot r sid prompt max_tokens now_ms (now_ms + gap) w) h.work;
      predicts = h.predicts;
    },
    inl (prompt, _, gap, refl),
  )

  stream_response_answers :
      (g : Gateway InMemorySessionStore) (write_at : ℕ) (sid : String)
      (prompt max_tokens now_ms gap : ℕ) (r : Replica)
      → IsServing g
      → Works r
      → StillServes (
          stream_response memory_store
            (whole (simulated hw))
            encoder
            g
            write_at
            sid
            prompt
            max_tokens
            now_ms
            (r, gap))
  stream_response_answers g write_at sid prompt max_tokens now_ms gap r h w =
      let (serving, completed) =
        complete_answers g write_at sid prompt max_tokens now_ms gap r h w in
      let (same, streamed) =
        respond-Agree memory_store (simulated hw) encoder g write_at sid prompt max_tokens now_ms
          gap r in
      (subst IsServing (sym same) serving, Completes-Streams _ _ completed streamed)

  respond_answers :
      (g : Gateway InMemorySessionStore) (write_at : ℕ) (sid : String) (prompt : ℕ) (body : Body)
      (now_ms gap : ℕ) (r : Replica)
      → IsServing g
      → Works r
      → StillServes (
          respond memory_store
            (whole (simulated hw))
            encoder
            g
            write_at
            sid
            prompt
            body
            now_ms
            (ok (r, gap)))
  unfolding respond
  respond_answers g write_at sid prompt body now_ms gap r h w =
      elim (Bool-cases body.wants_stream) [
        | inl streams ↦
            rw streams
              (stream_response_answers g write_at sid prompt body.max_tokens now_ms gap r h w)
        | inr waits ↦
            rw waits (complete_answers g write_at sid prompt body.max_tokens now_ms gap r h w)
      ]

  serve_answers :
      (g : Gateway InMemorySessionStore) (read_at write_at : ℕ) (sid : String)
      (tool : Option String) (messages : List Message) (body : Body) (now_ms : ℕ)
      → IsServing g
      → StillServes (
          serve memory_store
            (whole (simulated hw))
            encoder
            g
            read_at
            write_at
            sid
            tool
            messages
            body
            now_ms)
  unfolding serve
  serve_answers g read_at write_at sid tool messages body now_ms h =
      let g' = (schedule memory_store g read_at write_at sid tool now_ms).0 in
      let (r, gap, scheduled, predicts) = schedule_total g read_at write_at sid tool now_ms h in
      let cluster = schedule-replicas memory_store g read_at write_at sid tool now_ms in
      let works = All-pruned Works now_ms g.replicas (Works-prune now_ms) h.work in
      rw scheduled (
        respond_answers g' write_at sid (count_messages encoder messages) body now_ms gap r
          (record {
            some_replica = omega (
              arith,
              h.some_replica,
              length-pruned now_ms g.replicas,
              ap (λ (rs : List Replica). length rs) cluster,
            );
            work = rw cluster works;
            predicts = predicts;
          })
          (All-schedule memory_store Works g read_at write_at sid tool now_ms r gap works
            scheduled))

-- A request that names a session in at most 256 characters and has a message.
abbrev pub IsAcceptable : Request → Type 0
IsAcceptable request =
    (sid : String) × (body : Body) × (m : Message) × (ms : List Message) × (request.session_id
      ≡ some sid)
    × (truthy (some sid) ≡ true)
    × (count sid ≤ 256)
    × (request.body ≡ some body)
    × (body.messages ≡ some (m ∷ ms))

module _ (hw : HardwareProfile) (encoder : Option (String → ℕ)) where
  pub chat_completions_answers :
      (g : Gateway InMemorySessionStore) (read_at write_at now_ms : ℕ) (request : Request)
      → IsServing g
      → IsAcceptable request
      → StillServes (
          chat_completions memory_store
            (whole (simulated hw))
            encoder
            g
            read_at
            write_at
            now_ms
            request)
  unfolding chat_completions serve_session serve_body serve_messages
  chat_completions_answers g read_at write_at now_ms request h
        (sid, body, m, ms, named, full, short, sent, asked) =
      let fits : ltb 256 (count sid) ≡ false = ground (arith, short) in
      rw (named, serve_session, full, fits, sent, serve_body, asked, serve_messages)
        (serve_answers hw encoder g read_at write_at sid request.tool_name (m ∷ ms) body now_ms h)
