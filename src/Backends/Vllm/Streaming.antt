-- ===== src/Backends/Vllm/Streaming.antt =====
-- agentserve/backends/vllm.py: `astream` and `aprobe`. What comes over the wire, and what JSON says of a
-- line, are parameters.
use agentserve.Backends.Streams.{Stream}
use agentserve.Backends.Vllm.{VllmBackend, Reply, endpoint_of, result_of}
use agentserve.Common.Text.{strip, codes, same_codes}
use agentserve.Common.{
  ℕ, ◌==◌, String, Bool, true, false, ◌||◌, Option, none, some, List, [], ◌∷◌, ◌++◌, truthy,
  if◌then◌else◌,
}
use agentserve.Models.{RequestResult}
use agentserve.Replica.{Replica}
use agentserve.Result.{Result, ok, raise, Exception, ◌>>=◌}
use Prim.Native.Char.{code}
use Prim.Native.String.{◌++◌ as str_append}

-- `line[len(prefix):]` if `line.startswith(prefix)`.
unfoldable pub after_prefix : String → String → Option String
after_prefix String.[] line = some line
after_prefix (String.◌∷◌ p prefix) String.[] = none
after_prefix (String.◌∷◌ p prefix) (String.◌∷◌ c line) =
    if code p == code c then after_prefix prefix line else none

-- What the code reads of a chunk: its usage, where that is not empty, and the content of its first
-- choice.
pub record Piece : Type 0 where
  pub usage : Option Reply
  pub content : Option String

-- The lines with the times since the start at which they are read, the exception that the connection
-- raises after them, if any, and the time at which it is closed. A line whose JSON is no object, at
-- which the loop over the lines raises, is where a broken wire ends.
pub record Wire : Type 0 where
  pub lines : List (String × ℕ)
  pub broken : Option Exception
  pub elapsed_ms : ℕ

pub record Reading : Type 0 where
  pub usage : Reply
  pub ttft_ms : ℕ
  pub collected : List String

abbrev pub nothing_read : Reading
nothing_read = record {
  usage = record {
    prompt_tokens = none;
    completion_tokens = none;
    cached_tokens = none;
    content = "";
  };
  ttft_ms = 0;
  collected = [];
}

-- `"".join(texts)`
unfoldable pub join : List String → String
join [] = ""
join (text ∷ texts) = str_append text (join texts)

abbrev pub is_done : String → Bool
is_done blob = same_codes (codes blob) (codes "[DONE]")

abbrev pub usage_or : Option Reply → Reply → Reply
usage_or none usage = usage
usage_or (some usage) old = usage

-- The first text sets the time to the first token.
unfoldable pub collect : Option String → (at_ms : ℕ) → Reading → Reading
collect none at_ms s = s
collect (some text) at_ms s =
    if truthy (some text)
    then record s {
      ttft_ms = if s.ttft_ms == 0 then at_ms else s.ttft_ms;
      collected = s.collected ++ text ∷ [];
    }
    else s

-- An exception escapes before the result is made; the texts are with the client by then.
unfoldable pub end_stream :
    Replica → Replica × RequestResult → List String → Option Exception → Replica × Stream
end_stream replica stored texts (some e) = (replica, record { texts = texts; outcome = raise e })
end_stream replica (replica', result) texts none =
    (replica', record { texts = texts; outcome = ok (some result) })

-- What follows the loop. After the line that ends the stream nothing more is read of the connection.
unfoldable pub close_stream :
    Replica
    → String
    → (prompt_tokens output_tokens now_ms predicted_return_ms : ℕ) → Wire
    → Reading × Bool
    → Replica × Stream
unfolding result_of join end_stream
close_stream replica session_id prompt_tokens output_tokens now_ms predicted_return_ms wire
      (reading, is_over) =
    let ttft_ms = (if reading.ttft_ms == 0 then wire.elapsed_ms else reading.ttft_ms) in
    end_stream replica
      (result_of replica session_id (record reading.usage { content = join reading.collected })
        prompt_tokens output_tokens wire.elapsed_ms ttft_ms now_ms predicted_return_ms)
      reading.collected (if is_over then none else wire.broken)

module _ (loads : String → Option Piece) where
  -- A line that does not end the stream: one that is no JSON changes nothing.
  unfoldable pub read_blob : String → (at_ms : ℕ) → Reading → Reading
  unfolding collect
  read_blob blob at_ms s = elim (loads blob) [
    | none ↦ s
    | some piece ↦ collect piece.content at_ms (record s { usage = usage_or piece.usage s.usage })
  ]

  -- The loop over the lines, and whether it met the line that ends the stream.
  unfoldable pub read_lines : List (String × ℕ) → Reading → Reading × Bool
  unfolding after_prefix strip read_blob
  read_lines [] s = (s, false)
  read_lines ((line, at_ms) ∷ lines) s = elim (after_prefix "data: " line) [
    | none ↦ read_lines lines s
    | some blob ↦ elim (is_done (strip blob)) [
      | true ↦ (s, true)
      | false ↦ read_lines lines (read_blob (strip blob) at_ms s)
    ]
  ]

  unfoldable pub read_wire :
      Replica
      → String
      → (prompt_tokens output_tokens now_ms predicted_return_ms : ℕ) → Result Wire
      → Replica × Stream
  unfolding read_lines close_stream
  read_wire replica session_id prompt_tokens output_tokens now_ms predicted_return_ms (raise e) =
      (replica, record { texts = []; outcome = raise e })
  read_wire replica session_id prompt_tokens output_tokens now_ms predicted_return_ms (ok wire) =
      close_stream replica session_id prompt_tokens output_tokens now_ms predicted_return_ms wire
        (read_lines wire.lines nothing_read)

  -- The connection is to the scheduled worker alone.
  unfoldable pub astream :
      (String → Result Wire)
      → VllmBackend
      → Replica
      → String
      → (prompt_tokens output_tokens now_ms predicted_return_ms : ℕ) → Replica × Stream
  unfolding read_wire endpoint_of
  astream connect b replica session_id prompt_tokens output_tokens now_ms predicted_return_ms =
      read_wire replica session_id prompt_tokens output_tokens now_ms predicted_return_ms
        (endpoint_of b replica.id >>= connect)

-- `aprobe`: at least one worker answers.
unfoldable pub any_answers : (String → Bool) → List String → Bool
any_answers is_alive [] = false
any_answers is_alive (endpoint ∷ endpoints) =
    let rest = any_answers is_alive endpoints in is_alive endpoint || rest

unfoldable pub aprobe : (String → Bool) → VllmBackend → Bool
unfolding any_answers
aprobe is_alive b = any_answers is_alive b.endpoints
