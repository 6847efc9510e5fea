-- ===== src/MockVllm/Wires.antt =====
-- scripts/mock_vllm.py behind agentserve/backends/vllm.py: the adapter reads what the worker accounts.
use agentserve.Backends.Streams.{Stream}
use agentserve.Backends.Vllm.Streaming.{
  Piece, Reading, nothing_read, after_prefix, is_done, collect, read_blob, read_lines, usage_or,
  read_wire, close_stream, end_stream, join, astream,
}
use agentserve.Backends.Vllm.{
  VllmBackend, Reply, endpoint_of, result_of, or_else, fallbacks, try_worker, finish, attempts,
  aexecute,
}
use agentserve.Common.Dict.{Dict}
use agentserve.Common.Text.{strip, lstrip_by, rstrip_by}
use agentserve.Common.{
  ℕ, suc, ◌+◌, ◌-◌, ◌≤◌, ◌≡◌, refl, ap, ◌∙◌, arith, String, true, false, Option, none, some, List,
  [], ◌∷◌, All, if◌then◌else◌, ◌==◌,
}
use agentserve.MockVllm.Cache.{after_prefix-append}
use agentserve.MockVllm.{
  account, cached_from, chat, chat_stream, lines_of, pieces, prompt_of, text_of, usage_of,
}
use agentserve.Models.{RequestResult}
use agentserve.Replica.{Replica, store}
use agentserve.Result.{Result, ok}
use agentserve.Tokenizer.{Message}
use Prim.Native.String.{◌++◌ as append}

-- The lines, each read at its time.
abbrev pub timed : (at_ms : ℕ → ℕ) → ℕ → List String → List (String × ℕ)
timed at_ms n [] = []
timed at_ms n (line ∷ lines) = (line, at_ms n) ∷ timed at_ms (suc n) lines

module _ (loads : String → Option Piece) (dumps : Piece → String) where
  -- JSON reads what it has written, which is no end of a stream.
  abbrev pub Reads : Piece → Type 0
  Reads piece = (loads (strip (dumps piece)) ≡ some piece) × (is_done (strip (dumps piece)) ≡ false)

  -- What the loop makes of the chunks, from the line of a number on.
  abbrev read_pieces : (at_ms : ℕ → ℕ) → ℕ → List Piece → Reading → Reading
  read_pieces at_ms n [] s = s
  read_pieces at_ms n (piece ∷ ps) s =
      read_pieces at_ms (suc (suc n)) ps
        (collect piece.content (at_ms n) (record s { usage = usage_or piece.usage s.usage }))

  read_lines-blank :
      (at_ms : ℕ) (lines : List (String × ℕ)) (s : Reading)
      → read_lines loads (("", at_ms) ∷ lines) s ≡ read_lines loads lines s
  unfolding read_lines after_prefix
  read_lines-blank at_ms lines s = refl

  read_lines-end :
      (at_ms : ℕ) (lines : List (String × ℕ)) (s : Reading)
      → read_lines loads (("data: [DONE]", at_ms) ∷ lines) s ≡ (s, true)
  unfolding read_lines after_prefix strip lstrip_by rstrip_by
  read_lines-end at_ms lines s = refl

  read_lines-piece :
      (at_ms : ℕ) (piece : Piece) (lines : List (String × ℕ)) (s : Reading)
      → Reads piece
      → read_lines loads ((append "data: " (dumps piece), at_ms) ∷ lines) s
        ≡ read_lines loads lines
            (collect piece.content at_ms (record s { usage = usage_or piece.usage s.usage }))
  unfolding read_lines read_blob
  read_lines-piece at_ms piece lines s h =
      rw (after_prefix-append "data: " (dumps piece), read_lines, h.1, read_blob, h.0)

  read_lines-lines_of :
      (at_ms : ℕ → ℕ) (n : ℕ) (ps : List Piece) (s : Reading)
      → All Reads ps
      → read_lines loads (timed at_ms n (lines_of dumps ps)) s ≡ (read_pieces at_ms n ps s, true)
  unfolding lines_of
  read_lines-lines_of at_ms n [] s h = read_lines-end (at_ms n) _ s
  read_lines-lines_of at_ms n (piece ∷ ps) s h =
      let next : Reading =
        collect piece.content (at_ms n) (record s { usage = usage_or piece.usage s.usage }) in
      read_lines-piece (at_ms n) piece _ s h.0
      ∙ read_lines-blank (at_ms (suc n)) (timed at_ms (suc (suc n)) (lines_of dumps ps)) next
      ∙ read_lines-lines_of at_ms (suc (suc n)) ps next h.1

or_else-some : (n fallback : ℕ) → 1 ≤ n → or_else (some n) fallback ≡ n
or_else-some n fallback h = ground (arith, h)

or_else-zero : (n : ℕ) → or_else (some n) 0 ≡ n
or_else-zero n = ground arith

-- A result with the tokens that the worker has accounted.
abbrev pub Accounts : (prompt cached : ℕ) → RequestResult → Type 0
Accounts prompt cached result =
    (result.reused_tokens ≡ cached)
    × (result.computed_tokens ≡ prompt - cached)
    × (result.completion_tokens ≡ 5)
    × (result.text ≡ "fixed the bug")

module _ (loads : String → Option Piece) (dumps : Piece → String) (b : VllmBackend) (r : Replica)
    (session_id : String) (prompt_tokens output_tokens now_ms predicted_return_ms : ℕ) where
  result_of-Accounts :
      (prompt cached elapsed_ms ttft_ms : ℕ)
      → 1 ≤ prompt
      → let made =
          result_of r session_id
            (usage_of prompt cached "fixed the bug")
            prompt_tokens
            output_tokens
            elapsed_ms
            ttft_ms
            now_ms
            predicted_return_ms in
        (made.0 ≡ store r session_id (prompt + 5) (now_ms + elapsed_ms) predicted_return_ms)
        × Accounts prompt cached made.1
  unfolding result_of usage_of
  result_of-Accounts prompt cached elapsed_ms ttft_ms h =
      let p = or_else-some prompt prompt_tokens h in
      let c = or_else-zero cached in
      (
        ap (λ n. store r session_id n (now_ms + elapsed_ms) predicted_return_ms) (omega (arith, p)),
        (c, omega (arith, p, c), refl, refl),
      )

  -- A stream of the worker's lines.
  abbrev pub streamed : (at_ms : ℕ → ℕ) (elapsed_ms : ℕ) → List String → Replica × Stream
  streamed at_ms elapsed_ms lines =
      astream loads
        (λ url. ok (record { lines = timed at_ms 0 lines; broken = none; elapsed_ms = elapsed_ms }))
        b r session_id prompt_tokens output_tokens now_ms predicted_return_ms

  streamed-pieces :
      (at_ms : ℕ → ℕ) (elapsed_ms prompt cached : ℕ) (url : String)
      → 1 ≤ prompt
      → endpoint_of b r.id ≡ ok url
      → All (Reads loads dumps) (pieces (usage_of prompt cached ""))
      → let got = streamed at_ms elapsed_ms (lines_of dumps (pieces (usage_of prompt cached ""))) in
        (got.1.texts ≡ "fix" ∷ "ed " ∷ "the " ∷ "bug" ∷ [])
        × (got.0 ≡ store r session_id (prompt + 5) (now_ms + elapsed_ms) predicted_return_ms)
        × ((result : RequestResult) × (got.1.outcome ≡ ok (some result))
            × Accounts prompt cached result)
  unfolding astream read_wire close_stream end_stream join collect pieces usage_of
  streamed-pieces at_ms elapsed_ms prompt cached url h named reads =
      rw
        (
          named,
          read_wire,
          read_lines-lines_of loads dumps at_ms 0 (pieces (usage_of prompt cached "")) nothing_read
              reads,
        )
        (let read =
            read_pieces loads dumps at_ms 0 (pieces (usage_of prompt cached "")) nothing_read in
          let ttft_ms = (if read.ttft_ms == 0 then elapsed_ms else read.ttft_ms) in
          let made = result_of-Accounts prompt cached elapsed_ms ttft_ms h in
          (refl, made.0, (_, refl, made.1)))

  -- A completion of the worker's answer.
  abbrev pub completed : (elapsed_ms : ℕ) → Reply → VllmBackend × Replica × Result RequestResult
  completed elapsed_ms reply =
      aexecute
        (record { Response = Reply; post = λ attempt url. ok (reply, elapsed_ms); decode = ok }) b r
        session_id prompt_tokens output_tokens now_ms predicted_return_ms

  completed-usage :
      (elapsed_ms prompt cached : ℕ) (url : String)
      → 1 ≤ prompt
      → endpoint_of b r.id ≡ ok url
      → let got = completed elapsed_ms (usage_of prompt cached "fixed the bug") in
        (got.1 ≡ store r session_id (prompt + 5) (now_ms + elapsed_ms) predicted_return_ms)
        × ((result : RequestResult) × (got.2 ≡ ok result) × Accounts prompt cached result)
  unfolding aexecute fallbacks attempts try_worker finish
  completed-usage elapsed_ms prompt cached url h named =
      rw (named, attempts)
        (let made = result_of-Accounts prompt cached elapsed_ms elapsed_ms h in
          (made.0, (_, refl, made.1)))

  -- If the contents of the messages are texts, the scheduled replica has an endpoint, and JSON
  -- reads the chunks that it has written: a completion of the mock worker and a stream of it
  -- account alike, and through the adapter both give a result with the tokens that the worker has
  -- accounted as reused and computed, five tokens and the same text, and store the prompt and the
  -- answer on the replica.
  pub chat-Accounts :
      (cache : Dict ℕ) (messages : List Message) (text url : String) (at_ms : ℕ → ℕ)
      (elapsed_ms : ℕ)
      → text_of messages ≡ ok text
      → endpoint_of b r.id ≡ ok url
      → All (Reads loads dumps) (pieces (usage_of (account cache text).1 (account cache text).2 ""))
      → let (cache', prompt, cached) = account cache text in
        let kept = store r session_id (prompt + 5) (now_ms + elapsed_ms) predicted_return_ms in
        ((reply : Reply) × (chat cache messages ≡ ok (cache', reply))
          × ((completed elapsed_ms reply).1 ≡ kept)
          × ((result : RequestResult) × ((completed elapsed_ms reply).2 ≡ ok result)
              × Accounts prompt cached result))
        × ((lines : List String) × (chat_stream dumps cache messages ≡ ok (cache', lines))
            × ((streamed at_ms elapsed_ms lines).0 ≡ kept)
            × ((result : RequestResult) × ((streamed at_ms elapsed_ms lines).1.outcome
                  ≡ ok (some result))
                × Accounts prompt cached result))
  unfolding chat chat_stream account
  chat-Accounts cache messages text url at_ms elapsed_ms joined named reads =
      let prompt = prompt_of text in
      let cached = cached_from text 0 cache in
      let h : 1 ≤ prompt = unfold prompt_of in omega arith in
      let whole = completed-usage elapsed_ms prompt cached url h named in
      let parts = streamed-pieces at_ms elapsed_ms prompt cached url h named reads in
      (
        (usage_of prompt cached "fixed the bug", rw (joined, chat), whole.0, whole.1),
        (
          lines_of dumps (pieces (usage_of prompt cached "")),
          rw (joined, chat_stream),
          parts.1,
          parts.2,
        ),
      )
