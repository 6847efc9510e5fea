-- ===== src/Gateway/Replies.antt =====
-- agentserve/gateway.py over the simulated backend and the in-memory session store: what any request is
-- answered with.
use agentserve.Gateway.Answers.{Completes, IsAcceptable, chat_completions_answers}
use agentserve.Common.{
  ℕ, ◌≡◌, refl, arith, inl, inr, ◌⊎◌, none, String, true, false, Option, some, List, [], ◌∷◌, ltb,
  truthy, Bool-cases,
}
use agentserve.Config.{HardwareProfile}
use agentserve.Gateway.Capacity.{simulated}
use agentserve.Gateway.Streams.{whole}
use agentserve.Gateway.{
  Response, Gateway, Request, Body, Response, http_error, serve_messages, serve_body, serve_session,
  chat_completions,
}
use agentserve.State.Memory.{InMemorySessionStore, memory_store}
use agentserve.Tokenizer.{Message}
use Prim.Native.String.{count}
use agentserve.Gateway.Serving.{IsServing}

-- What a request is answered with: a completion, or a 400 if its header, its body or its messages are
-- not as they have to be.
abbrev pub Replies : Request → Response → Type 0
Replies request answer =
    (IsAcceptable request × Completes answer)
    ⊎ ((¬ IsAcceptable request) × (answer ≡ http_error 400))

module _ (hw : HardwareProfile) (encoder : Option (String → ℕ)) where
  abbrev RepliesTo : Request → Gateway InMemorySessionStore × Response → Type 0
  RepliesTo request answered = IsServing answered.0 × Replies request answered.1

  abbrev fields : Option String → Option String → Option Body → Request
  fields sid tool body = record { session_id = sid; tool_name = tool; body = body }

  asked-Replies :
      (g : Gateway InMemorySessionStore) (read_at write_at now_ms : ℕ) (tool : Option String)
      (sid : String) (full : truthy (some sid) ≡ true) (short : ltb 256 (count sid) ≡ false)
      (h : IsServing g) (body : Body) (messages : Option (List Message))
      → body.messages ≡ messages
      → RepliesTo (fields (some sid) tool (some body)) (
          chat_completions memory_store
            (whole (simulated hw))
            encoder
            g
            read_at
            write_at
            now_ms
            (fields (some sid) tool (some body)))
  unfolding chat_completions serve_session serve_body serve_messages
  asked-Replies g read_at write_at now_ms tool sid full short h body none e =
      rw (full, short, e)
        (h, inr ((λ (s, b, m, ms, named, f, l, sent, asked). cc (sent, asked)), refl))
  asked-Replies g read_at write_at now_ms tool sid full short h body (some []) e =
      rw (full, short, e)
        (h, inr ((λ (s, b, m, ms, named, f, l, sent, asked). cc (sent, asked)), refl))
  asked-Replies g read_at write_at now_ms tool sid full short h body (some (m ∷ ms)) e =
      let acceptable : IsAcceptable (fields (some sid) tool (some body)) =
        (sid, body, m, ms, refl, full, ground (arith, short), refl, e) in
      let (serving, completed) =
        chat_completions_answers hw encoder g read_at write_at now_ms
          (fields (some sid) tool (some body)) h acceptable in
      (serving, inl (acceptable, completed))

  body-Replies :
      (g : Gateway InMemorySessionStore) (read_at write_at now_ms : ℕ) (tool : Option String)
      (sid : String) (full : truthy (some sid) ≡ true) (short : ltb 256 (count sid) ≡ false)
      (h : IsServing g) (body : Option Body)
      → RepliesTo (fields (some sid) tool body) (
          chat_completions memory_store
            (whole (simulated hw))
            encoder
            g
            read_at
            write_at
            now_ms
            (fields (some sid) tool body))
  unfolding chat_completions serve_session serve_body
  body-Replies g read_at write_at now_ms tool sid full short h none =
      rw (full, short) (h, inr ((λ (s, b, m, ms, named, f, l, sent, asked). cc sent), refl))
  body-Replies g read_at write_at now_ms tool sid full short h (some body) =
      asked-Replies g read_at write_at now_ms tool sid full short h body body.messages refl

  fields-Replies :
      (g : Gateway InMemorySessionStore) (read_at write_at now_ms : ℕ) (tool : Option String)
      (body : Option Body) (session_id : Option String)
      → IsServing g
      → RepliesTo (fields session_id tool body) (
          chat_completions memory_store
            (whole (simulated hw))
            encoder
            g
            read_at
            write_at
            now_ms
            (fields session_id tool body))
  unfolding chat_completions serve_session serve_body serve_messages
  fields-Replies g read_at write_at now_ms tool body none h =
      (h, inr ((λ (s, b, m, ms, named, f, l, sent, asked). cc named), refl))
  fields-Replies g read_at write_at now_ms tool body (some sid) h =
      elim (Bool-cases (truthy (some sid))) [
        | inr empty ↦ rw empty (
          h,
          inr ((λ (s, b, m, ms, named, f, l, sent, asked). ground (arith, named, f, empty)), refl),
        )
        | inl full ↦ elim (Bool-cases (ltb 256 (count sid))) [
          | inl long ↦
              rw (full, long)
                (
                  h,
                  inr (
                    (λ (s, b, m, ms, named, f, l, sent, asked). ground (arith, named, l, long)),
                    refl,
                  ),
                )
          | inr short ↦ body-Replies g read_at write_at now_ms tool sid full short h body
        ]
      ]

  pub chat_completions-Replies :
      (g : Gateway InMemorySessionStore) (read_at write_at now_ms : ℕ) (request : Request)
      → IsServing g
      → RepliesTo request (
          chat_completions memory_store
            (whole (simulated hw))
            encoder
            g
            read_at
            write_at
            now_ms
            request)
  chat_completions-Replies g read_at write_at now_ms request h =
      fields-Replies g read_at write_at now_ms request.tool_name request.body request.session_id h
