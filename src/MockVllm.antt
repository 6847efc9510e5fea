-- ===== src/MockVllm.antt =====
-- scripts/mock_vllm.py: a worker without a GPU, whose prefix cache is real. How JSON writes a chunk is
-- a parameter. The pauses of its stream only delay it.
pub mod Cache
pub mod Sessions
pub mod Wires
use agentserve.Backends.Vllm.Streaming.{Piece, after_prefix}
use agentserve.Backends.Vllm.{Reply}
use agentserve.Common.Dict.{Dict, lookup, insert}
use agentserve.Common.{
  ℕ, ◌/◌, max, String, Bool, true, false, Option, none, some, List, [], ◌∷◌, if◌then◌else◌,
}
use agentserve.Result.{Result, ok, raise, ◌>>=◌, type_error}
use agentserve.Tokenizer.{Message, Value, str, parts, other}
use Prim.Native.String.{count, ◌++◌ as append}

-- `text.startswith(start)`
unfoldable pub starts_with : String → String → Bool
unfolding after_prefix
starts_with text start = elim (after_prefix start text) [ none ↦ false | some rest ↦ true ]

-- `max(1, len(text) // 4)`
unfoldable pub prompt_of : String → ℕ
prompt_of text = max 1 (count text / 4)

-- The loop over the cache.
unfoldable pub cached_from : String → ℕ → Dict ℕ → ℕ
unfolding starts_with
cached_from text cached [] = cached
cached_from text cached ((start, tokens) ∷ cache) =
    cached_from text (if starts_with text start then max cached tokens else cached) cache

-- The cache, the tokens of the prompt, and those that the cache has of it.
unfoldable pub account : Dict ℕ → String → Dict ℕ × ℕ × ℕ
unfolding prompt_of cached_from
account cache text = (insert text (prompt_of text) cache, prompt_of text, cached_from text 0 cache)

-- The texts of several calls, one after the other.
unfoldable pub account_all : Dict ℕ → List String → Dict ℕ
unfolding account
account_all cache [] = cache
account_all cache (text ∷ texts) = account_all (account cache text).0 texts

-- `m.get("content", "")`, as a part of a text.
unfoldable pub content_of : Option Value → Result String
content_of none = ok ""
content_of (some (str text)) = ok text
content_of (some (parts ps)) = raise type_error
content_of (some other) = raise type_error

unfoldable pub text_of : List Message → Result String
unfolding content_of
text_of [] = ok ""
text_of (m ∷ ms) =
    content_of (lookup "content" m) >>= λ text. text_of ms >>= λ rest. ok (append text rest)

-- `usage`, with the text of the answer.
unfoldable pub usage_of : (prompt cached : ℕ) → String → Reply
usage_of prompt cached content = record {
  prompt_tokens = some prompt;
  completion_tokens = some 5;
  cached_tokens = some cached;
  content = content;
}

-- A completion: the cache and the answer.
unfoldable pub chat : Dict ℕ → List Message → Result (Dict ℕ × Reply)
unfolding text_of account usage_of
chat cache messages = text_of messages >>= λ text.
    let (cache', prompt, cached) = account cache text in
    ok (cache', usage_of prompt cached "fixed the bug")

abbrev word : String → Piece
word text = record { usage = none; content = some text }

-- The chunks of a stream: four words, and then the usage.
unfoldable pub pieces : Reply → List Piece
pieces usage =
    word "fix"
    ∷ word "ed "
    ∷ word "the "
    ∷ word "bug"
    ∷ record { usage = some usage; content = none }
    ∷ []

-- The lines of a stream: an empty one behind each chunk, and one that ends it.
unfoldable pub lines_of : (dumps : Piece → String) → List Piece → List String
lines_of dumps [] = "data: [DONE]" ∷ "" ∷ []
lines_of dumps (piece ∷ ps) = append "data: " (dumps piece) ∷ "" ∷ lines_of dumps ps

-- A stream: the cache and the lines.
unfoldable pub chat_stream :
    (Piece → String) → Dict ℕ → List Message → Result (Dict ℕ × List String)
unfolding text_of account usage_of pieces lines_of
chat_stream dumps cache messages = text_of messages >>= λ text.
    let (cache', prompt, cached) = account cache text in
    ok (cache', lines_of dumps (pieces (usage_of prompt cached "")))
