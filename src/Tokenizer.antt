-- ===== src/Tokenizer.antt =====
-- agentserve/tokenizer.py: the length of a prompt. The encoder of the library tiktoken is a
-- parameter: the number of tokens of a text, or `none` where the library or the encoding is missing.
pub mod Counts
use agentserve.Common.{ℕ, ◌+◌, ◌/◌, max, String, Option, none, some, List, [], ◌∷◌}
use Prim.Native.String.{count}

-- A part of a message: one with a text, or anything else.
pub data Part : Type 0 where
  text : String → Part
  other_part : Part

-- A value of a message: a text, a list of parts, or anything else.
pub data Value : Type 0 where
  str : String → Value
  parts : List Part → Value
  other : Value

abbrev pub Message : Type 0
Message = List (String × Value)

module _ (encoder : Option (String → ℕ)) where
  -- `len(text) // 4`, by characters, is the fallback.
  unfoldable pub count_text : String → ℕ
  count_text s = elim encoder [ some encode ↦ encode s | none ↦ max 1 (count s / 4) ]

  unfoldable pub count_parts : List Part → ℕ
  count_parts [] = 0
  count_parts (text s ∷ ps) = count_text s + count_parts ps
  count_parts (other_part ∷ ps) = count_parts ps

  unfoldable pub count_value : Value → ℕ
  unfolding count_parts
  count_value (str s) = count_text s
  count_value (parts ps) = count_parts ps
  count_value other = 0

  unfoldable pub count_values : Message → ℕ
  count_values [] = 0
  count_values ((k, v) ∷ fields) = count_value v + count_values fields

  unfoldable pub total_of : List Message → ℕ
  total_of [] = 0
  total_of (m ∷ ms) = 4 + count_values m + total_of ms

  unfoldable pub count_messages : List Message → ℕ
  count_messages messages = max 1 (total_of messages)
