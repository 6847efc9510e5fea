-- ===== src/LiveReplay/Prompts.antt =====
-- bench/live_replay.py: how the prompts of a session grow.
use agentserve.Common.{
  ℕ, zero, suc, ◌-◌, ◌≤◌, ◌≡◌, ◌∙◌, sym, ap, arith, inl, inr, leb, leb→le, max, subst, String,
  Bool-cases,
}
use agentserve.LiveReplay.{tok, words_to, header, build_prompt}
use text.Mathlib.TextLemmas.{append-nil, append_assoc}
use Prim.Native.String.{◌++◌ as append}

-- One text begins with another.
abbrev pub Begins : (text start : String) → Type 0
Begins text start = (rest : String) × (text ≡ append start rest)

Begins-self : (text : String) → Begins text text
Begins-self text = ("", sym (append-nil text))

words_to-Begins : (m n : ℕ) → m ≤ n → Begins (words_to n) (words_to m)
unfolding words_to
words_to-Begins zero zero h = Begins-self _
words_to-Begins (suc m) zero h = absurd (omega (arith, h))
words_to-Begins m (suc n) h =
    let shorter = words_to-Begins m n in
    elim (Bool-cases (leb m n)) [
      | inl less ↦
          let (rest, e) = shorter (leb→le m n less) in
          (
            append rest (append " " (tok (suc n))),
            ap (λ w. append w (append " " (tok (suc n)))) e
                ∙ append_assoc (words_to m) rest (append " " (tok (suc n))),
          )
      | inr more ↦
          let same : suc n ≡ m = ground (arith, h, more) in
          subst (λ k. Begins (words_to (suc n)) (words_to k)) same (Begins-self _)
    ]

-- The prompt of a session for some number of tokens begins every prompt of that session for as
-- many tokens or more, whatever the numbers of the turns.
pub build_prompt-Begins :
    (session_id : String) (tokens more turn later : ℕ)
    → tokens ≤ more
    → Begins (build_prompt more session_id later) (build_prompt tokens session_id turn)
unfolding build_prompt
build_prompt-Begins sid tokens more turn later h =
    let m = max 1 (tokens - 40) - 1 in
    let n = max 1 (more - 40) - 1 in
    let (rest, e) = words_to-Begins m n (omega (arith, h)) in
    (rest, ap (append (header sid)) e ∙ sym (append_assoc (header sid) (words_to m) rest))
