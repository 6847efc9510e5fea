-- ===== src/MockVllm/Cache.antt =====
-- scripts/mock_vllm.py: what the cache has of a prompt.
use agentserve.Backends.Vllm.Streaming.{after_prefix}
use agentserve.Common.Dict.Keys.{All-insert}
use agentserve.Common.Dict.{Dict, lookup}
use agentserve.Common.{
  ℕ, ◌≤◌, ◌≡◌, refl, arith, inl, inr, max, str_eq, eq_iff, String, true, some, [], ◌∷◌, All,
  Bool-cases, Option-cases, if◌then◌else◌, ◌==◌,
}
use agentserve.LiveReplay.Prompts.{Begins}
use agentserve.MockVllm.{starts_with, prompt_of, cached_from, account}
use text.Mathlib.TextLemmas.{nil-append, cons-append, length-nil, length-cons}
use Prim.Native.String.{count, ◌++◌ as append}
use Prim.Native.Char.{code}

pub after_prefix-append : (start rest : String) → after_prefix start (append start rest) ≡ some rest
unfolding after_prefix
after_prefix-append String.[] rest = rw (nil-append rest)
after_prefix-append (String.◌∷◌ c start) rest =
    rw (cons-append c start rest) (ground (arith, after_prefix-append start rest))

count-after_prefix :
    (start text rest : String) → after_prefix start text ≡ some rest → count start ≤ count text
unfolding after_prefix
count-after_prefix String.[] text rest h = omega (arith, length-nil)
count-after_prefix (String.◌∷◌ c start) String.[] rest h = ground arith
count-after_prefix (String.◌∷◌ c start) (String.◌∷◌ d text) rest h =
    elim (Bool-cases (code c == code d)) [
      | inl same ↦ omega (
        arith,
        length-cons c start,
        length-cons d text,
        count-after_prefix start text rest (rw same at h),
      )
      | inr other ↦ absurd (ground (arith, other, h))
    ]

pub starts_with-Begins : (text start : String) → Begins text start → starts_with text start ≡ true
unfolding starts_with
starts_with-Begins text start (rest, e) = rw (e, starts_with, after_prefix-append start rest)

count-starts_with : (text start : String) → starts_with text start ≡ true → count start ≤ count text
unfolding starts_with
count-starts_with text start h = elim (Option-cases (after_prefix start text)) [
  | inl missing ↦ absurd (ground (arith, missing, h))
  | inr (rest, found) ↦ count-after_prefix start text rest found
]

-- Each entry is the number of tokens of its text.
abbrev pub IsPriced : Dict ℕ → Type 0
IsPriced cache = All (λ e. e.1 ≡ prompt_of e.0) cache

pub cached_from-ge :
    (text : String) (cached : ℕ) (cache : Dict ℕ) → cached ≤ cached_from text cached cache
unfolding cached_from
cached_from-ge text cached [] = omega arith
cached_from-ge text cached ((start, tokens) ∷ cache) = ground (
  arith,
  cached_from-ge text (if starts_with text start then max cached tokens else cached) cache,
)

-- No entry of which the text is a continuation is missed.
pub cached_from-finds :
    (text start : String) (tokens : ℕ) (cache : Dict ℕ) (cached : ℕ)
    → lookup start cache ≡ some tokens
    → starts_with text start ≡ true
    → tokens ≤ cached_from text cached cache
unfolding cached_from lookup
cached_from-finds text start tokens [] cached found begins = ground arith
cached_from-finds text start tokens ((s, n) ∷ cache) cached found begins =
    elim (Bool-cases (str_eq s start)) [
      | inl same ↦
          let e : s ≡ start = ground (arith, same, eq_iff s start) in
          let here : starts_with text s ≡ true = rw e begins in
          ground (
            arith,
            same,
            found,
            here,
            cached_from-ge text (if starts_with text s then max cached n else cached) cache,
          )
      | inr other ↦
          cached_from-finds text start tokens cache _ (ground (arith, other, found)) begins
    ]

pub cached_from-le :
    (text : String) (cache : Dict ℕ) (cached : ℕ)
    → IsPriced cache
    → cached ≤ prompt_of text
    → cached_from text cached cache ≤ prompt_of text
unfolding cached_from
cached_from-le text [] cached priced h = h
cached_from-le text ((start, tokens) ∷ cache) cached priced h =
    cached_from-le text cache _ priced.1 (elim (Bool-cases (starts_with text start)) [
      | inl begins ↦
          rw begins
            (unfold prompt_of in omega (arith, h, priced.0, count-starts_with text start begins))
      | inr other ↦ rw other h
    ])

pub account-IsPriced :
    (cache : Dict ℕ) (text : String) → IsPriced cache → IsPriced (account cache text).0
unfolding account
account-IsPriced cache text h =
    All-insert (λ e. e.1 ≡ prompt_of e.0) text (prompt_of text) cache refl h
