-- ===== src/Common/Text.antt =====
-- Python's methods on texts, as far as the code uses them.
use Prim.Native.Char.{code}
use Prim.Native.Nat.{ℕ, ◌+◌}
use Prim.Native.String.{String}
use mathlib.Core.Bool.{Bool, true, false, ◌&&◌, ◌||◌}
use mathlib.Core.List.{List, [], ◌∷◌, map}
use agentserve.Common.Tests.{ltb, leb, ◌==◌, if◌then◌else◌}

-- `str.isspace` of one character, by its code point.
abbrev pub is_space : ℕ → Bool
is_space c =
    (leb 9 c && leb c 13)
    || (leb 28 c && leb c 32)
    || (c == 0x85)
    || (c == 0xa0)
    || (c == 0x1680)
    || (leb 0x2000 c && leb c 0x200a)
    || (c == 0x2028)
    || (c == 0x2029)
    || (c == 0x202f)
    || (c == 0x205f)
    || (c == 0x3000)

abbrev pub is_empty : String → Bool
is_empty String.[] = true
is_empty (String.◌∷◌ c s) = false

unfoldable pub lstrip_by : (ℕ → Bool) → String → String
lstrip_by cut String.[] = String.[]
lstrip_by cut (String.◌∷◌ c s) =
    let rest = lstrip_by cut s in if cut (code c) then rest else String.◌∷◌ c s

unfoldable pub rstrip_by : (ℕ → Bool) → String → String
rstrip_by cut String.[] = String.[]
rstrip_by cut (String.◌∷◌ c s) =
    let rest = rstrip_by cut s in
    if is_empty rest && cut (code c) then String.[] else String.◌∷◌ c rest

-- `s.strip()`
unfoldable pub strip : String → String
unfolding lstrip_by rstrip_by
strip s = rstrip_by is_space (lstrip_by is_space s)

-- `s.split(c)` at one character.
unfoldable pub split_at : ℕ → String → List String
split_at c String.[] = String.[] ∷ []
split_at c (String.◌∷◌ d s) = elim (split_at c s) [
  | [] ↦ []
  | part ∷ parts ↦ if code d == c then String.[] ∷ part ∷ parts else String.◌∷◌ d part ∷ parts
]

abbrev pub codes : String → List ℕ
codes String.[] = []
codes (String.◌∷◌ c s) = code c ∷ codes s

-- `s.lower()` of one character. Beyond ASCII a character of which the code asks no question is kept.
abbrev pub to_lower : ℕ → ℕ
to_lower c = if leb b'A' c && leb c b'Z' then c + 32 else c

abbrev pub same_codes : List ℕ → List ℕ → Bool
same_codes [] [] = true
same_codes (c ∷ cs) (d ∷ ds) = (c == d) && same_codes cs ds
same_codes _ _ = false

-- `s.strip().lower() == word`, for a word of ASCII without capitals or `k`. The only
-- characters beyond ASCII that `lower` takes to ASCII letters are the Kelvin sign, to `k`, and the
-- dotted capital I, to `i` and a combining dot, which is in no such word.
unfoldable pub reads_as : String → String → Bool
unfolding strip
reads_as word s = same_codes (map to_lower (codes (strip s))) (codes word)

-- `a < b` of texts, by code points.
abbrev pub less_codes : List ℕ → List ℕ → Bool
less_codes _ [] = false
less_codes [] (d ∷ ds) = true
less_codes (c ∷ cs) (d ∷ ds) = ltb c d || ((c == d) && less_codes cs ds)
