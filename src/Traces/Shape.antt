-- ===== src/Traces/Shape.antt =====
-- bench/traces.py: what every generated trace looks like.
use agentserve.Common.Sort.{sorted, All-sorted, IsSorted, sorted-IsSorted, IsOrder, sorted-perm}
use agentserve.Common.{
  ℕ, zero, suc, ◌+◌, ◌≤◌, ◌≡◌, refl, arith, none, List, [], ◌∷◌, All, length, sum_by-eq_of_perm,
}
use agentserve.Models.{SessionTrace, Turn}
use agentserve.Replay.Percentiles.{sum_by-ones}
use agentserve.Common.Int.{ℤ, pos, negsuc}
use agentserve.Traces.{
  offset_by, Draws, turns_from, at_least_four, session_of, sessions_from, earlier_arrival,
  generate_trace,
}

-- Each prompt carries the one before with its output, and the last turn calls no tool.
abbrev pub IsTranscript : List Turn → Type 0
IsTranscript [] = Unit
IsTranscript (turn ∷ []) = turn.tool_name ≡ none
IsTranscript (turn ∷ next ∷ turns) =
    (turn.prompt_tokens + turn.output_tokens ≤ next.prompt_tokens) × IsTranscript (next ∷ turns)

turns_from-IsTranscript :
    (d : Draws) (i left t prompt : ℕ) → IsTranscript (turns_from d i left t prompt)
unfolding turns_from
turns_from-IsTranscript d i zero t prompt = tt
turns_from-IsTranscript d i (suc zero) t prompt = refl
turns_from-IsTranscript d i (suc (suc left)) t prompt =
    (omega arith, turns_from-IsTranscript d i (suc left) (t + 1) _)

pub length-turns_from :
    (d : Draws) (i left t prompt : ℕ) → length (turns_from d i left t prompt) ≡ left
unfolding turns_from
length-turns_from d i zero t prompt = refl
length-turns_from d i (suc left) t prompt = omega (arith, length-turns_from d i left (t + 1) _)

-- A session as the benchmark needs it.
abbrev pub IsSession : SessionTrace → Type 0
IsSession trace = (4 ≤ length trace.turns) × IsTranscript trace.turns

pub four_turns : (count : ℤ) → 4 ≤ at_least_four count
unfolding at_least_four
four_turns (pos n) = omega arith
four_turns (negsuc n) = omega arith

session_of-IsSession : (d : Draws) (base i : ℕ) → IsSession (session_of d base i)
unfolding session_of
session_of-IsSession d base i =
    let left = at_least_four (d.turns i) in
    let prompt = offset_by base (d.offset i) in
    (
      omega (arith, four_turns (d.turns i), length-turns_from d i left 0 prompt),
      turns_from-IsTranscript d i left 0 prompt,
    )

sessions_from-IsSession :
    (d : Draws) (base first n : ℕ) → All IsSession (sessions_from d base first n)
unfolding sessions_from
sessions_from-IsSession d base first zero = tt
sessions_from-IsSession d base first (suc n) =
    (session_of-IsSession d base first, sessions_from-IsSession d base (first + 1) n)

length-sessions_from : (d : Draws) (base first n : ℕ) → length (sessions_from d base first n) ≡ n
unfolding sessions_from
length-sessions_from d base first zero = refl
length-sessions_from d base first (suc n) = omega (arith, length-sessions_from d base (first + 1) n)

earlier_arrival-IsOrder : IsOrder earlier_arrival
unfolding earlier_arrival
earlier_arrival-IsOrder = record {
  asymm = λ x y h. ground (arith, h);
  trans_not = λ x y z h k. ground (arith, h, k);
}

-- Whatever is drawn, `generate_trace` gives as many sessions as it is asked for, in the order of
-- their arrivals. Each has at least four turns, each prompt has room for the one before and its
-- output, and the last turn calls no tool.
pub generate_trace_lem :
    (d : Draws) (sessions base : ℕ)
    → (length (generate_trace d sessions base) ≡ sessions)
      × All IsSession (generate_trace d sessions base)
      × IsSorted earlier_arrival (generate_trace d sessions base)
unfolding generate_trace
generate_trace_lem d sessions base =
    let drawn = sessions_from d base 0 sessions in
    (
      omega (
        arith,
        sum_by-ones (sorted earlier_arrival drawn),
        sum_by-ones drawn,
        sum_by-eq_of_perm (λ t. 1) (sorted-perm earlier_arrival drawn),
        length-sessions_from d base 0 sessions,
      ),
      All-sorted earlier_arrival IsSession drawn (sessions_from-IsSession d base 0 sessions),
      sorted-IsSorted earlier_arrival earlier_arrival-IsOrder drawn,
    )
