-- ===== src/Gateway/Interleaved/Alone.antt =====
-- agentserve/gateway.py: a request that no other interrupts is the request as `serve` answers it.
use agentserve.Common.Positions.{AllAt, AllAt-map, found_at_index}
use agentserve.Common.{
  ℕ, ◌≡◌, sym, ap, ◌∙◌, true, false, String, Option, some, List, [], ◌∷◌, get_elem?, truthy, ltb,
  ◌≤◌, arith,
}
use agentserve.Gateway.Interleaved.Counts.{started}
use agentserve.Gateway.Interleaved.Turns.{
  turns, job_of, answered_by, interleave-turns, outcome-respond,
}
use agentserve.Gateway.Interleaved.{Job, arrive, enlist, step, interleave}
use agentserve.Gateway.Scheduling.{pruned, All-schedule, schedule-replicas}
use agentserve.Gateway.{
  Request, chat_completions, serve_session, serve_body, serve_messages, Gateway, Worker, Body,
  respond, serve, schedule,
}
use agentserve.Replica.{Replica, prune}
use agentserve.Result.{ok}
use agentserve.State.{SessionStore}
use agentserve.Tokenizer.{Message, count_messages}
use Prim.Native.String.{count}

module _ {S : Type 0} (ops : SessionStore S) (worker : Worker) (encoder : Option (String → ℕ)) where
  interleave-serve :
      (g : Gateway S) (read_at write_at : ℕ) (sid : String) (tool : Option String)
      (messages : List Message) (body : Body) (now_ms : ℕ) (r : Replica) (gap : ℕ)
      → AllAt (λ i r. r.id ≡ i) 0 g.replicas
      → (schedule ops g read_at write_at sid tool now_ms).1 ≡ ok (r, gap)
      → interleave
          (λ k. worker)
          ops
          encoder
          (started g)
          (arrive read_at write_at now_ms sid tool messages body.max_tokens body.wants_stream
            ∷ turns write_at)
        ≡ answered_by
            (job_of sid (count_messages encoder messages) now_ms body r gap)
            (serve ops worker encoder g read_at write_at sid tool messages body now_ms)
  unfolding interleave step serve enlist
  interleave-serve g read_at write_at sid tool messages body now_ms r gap numbered scheduled =
      let prompt = count_messages encoder messages in
      let job : Job = job_of sid prompt now_ms body r gap in
      let found = schedule ops g read_at write_at sid tool now_ms in
      let placed =
        All-schedule ops (λ q. get_elem? (pruned now_ms g.replicas) q.id ≡ some q) g read_at
          write_at sid tool now_ms r gap
          (found_at_index (λ (q : Replica). q.id) (pruned now_ms g.replicas)
            (AllAt-map (λ i q. q.id ≡ i) (λ i q. q.id ≡ i) (λ q. prune q now_ms) 0 g.replicas
              (λ i q e. unfold prune in e) numbered))
          scheduled in
      let here : get_elem? found.0.replicas r.id ≡ some r =
        rw (schedule-replicas ops g read_at write_at sid tool now_ms) placed in
      ap
        (λ f.
          interleave (λ k. worker) ops encoder
            (enlist (λ k. worker) ops encoder sid prompt body.max_tokens body.wants_stream now_ms []
              (found.0, f))
            (turns write_at))
        scheduled
      ∙ interleave-turns ops worker encoder found.0 write_at job r here
      ∙ outcome-respond ops worker encoder found.0 write_at sid prompt now_ms body r gap
          body.wants_stream
      ∙ ap
          (λ f.
            answered_by job (respond ops worker encoder found.0 write_at sid prompt body now_ms f))
          (sym scheduled)

  chat_completions-serve :
      (g : Gateway S) (read_at write_at now_ms : ℕ) (request : Request) (sid : String) (body : Body)
      (m : Message) (ms : List Message)
      → request.session_id ≡ some sid
      → truthy (some sid) ≡ true
      → count sid ≤ 256
      → request.body ≡ some body
      → body.messages ≡ some (m ∷ ms)
      → chat_completions ops worker encoder g read_at write_at now_ms request
        ≡ serve ops worker encoder g read_at write_at sid request.tool_name (m ∷ ms) body now_ms
  unfolding chat_completions serve_session serve_body serve_messages
  chat_completions-serve g read_at write_at now_ms request sid body m ms named full short sent
        asked =
      let fits : ltb 256 (count sid) ≡ false = ground (arith, short) in
      rw (named, serve_session, full, fits, sent, serve_body, asked, serve_messages)

  -- If the replicas stand at their numbers, the request names a session in at most 256 characters,
  -- its name not empty, and has a message, and `schedule` gives a replica: the request, arriving
  -- and taking its three turns without an interruption, leaves the gateway as `chat_completions`
  -- does and gets its answer, whether it asks for a stream or not, and whether the backend
  -- succeeds or raises.
  pub interleave-chat_completions :
      (g : Gateway S) (read_at write_at now_ms : ℕ) (request : Request) (sid : String) (body : Body)
      (m : Message) (ms : List Message) (r : Replica) (gap : ℕ)
      → request.session_id ≡ some sid
      → truthy (some sid) ≡ true
      → count sid ≤ 256
      → request.body ≡ some body
      → body.messages ≡ some (m ∷ ms)
      → AllAt (λ i r. r.id ≡ i) 0 g.replicas
      → (schedule ops g read_at write_at sid request.tool_name now_ms).1 ≡ ok (r, gap)
      → interleave
          (λ k. worker)
          ops
          encoder
          (started g)
          (arrive read_at write_at now_ms sid request.tool_name
              (m ∷ ms)
              body.max_tokens
              body.wants_stream
            ∷ turns write_at)
        ≡ answered_by
            (job_of sid (count_messages encoder (m ∷ ms)) now_ms body r gap)
            (chat_completions ops worker encoder g read_at write_at now_ms request)
  interleave-chat_completions g read_at write_at now_ms request sid body m ms r gap named full short
        sent asked numbered scheduled =
      interleave-serve g read_at write_at sid request.tool_name (m ∷ ms) body now_ms r gap numbered
        scheduled
      ∙ ap (answered_by (job_of sid (count_messages encoder (m ∷ ms)) now_ms body r gap)) (
          sym (
            chat_completions-serve g read_at write_at now_ms request sid body m ms named full short
              sent asked))
