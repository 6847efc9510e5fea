-- ===== src/Traces.antt =====
-- bench/traces.py: the synthetic sessions. What the seeded generator draws is a parameter: a value for
-- each session and turn.
pub mod Shape
pub mod Summaries
pub mod Summarised
use agentserve.Common.Int.{ℤ, pos, negsuc}
use agentserve.Common.Sort.{sorted}
use agentserve.Common.{
  ℕ, zero, suc, ◌+◌, ◌-◌, max, ltb, ◌==◌, String, Bool, true, false, Option, none, some, List, [],
  ◌∷◌, truthy, if◌then◌else◌,
}
use agentserve.LiveReplay.{decimal_on}
use agentserve.Models.{SessionTrace, Turn}
use Prim.Native.String.{◌++◌ as append}

-- `turns` is the sample of `gauss` as an integer, `offset` that of the first prompt, `tool` the choice of
-- a name, and `duration` the sample of `lognormvariate` for it, in ticks.
pub record Draws : Type 0 where
  pub turns : (session : ℕ) → ℤ
  pub offset : (session : ℕ) → ℤ
  pub output : (session turn : ℕ) → ℕ
  pub tool : (session turn : ℕ) → String
  pub duration : (session turn : ℕ) → (name : String) → ℕ
  pub result : (session turn : ℕ) → ℕ
  pub arrival : (session : ℕ) → ℕ

unfoldable pub sample_tool : Draws → ℕ → ℕ → String × ℕ
sample_tool d i t = (d.tool i t, max 50_000 (d.duration i t (d.tool i t)))

-- `base + offset`, which is not negative where the base is at least 900.
unfoldable pub offset_by : ℕ → ℤ → ℕ
offset_by base (pos n) = base + n
offset_by base (negsuc n) = base - (n + 1)

-- `max(4, count)`
unfoldable pub at_least_four : ℤ → ℕ
at_least_four (pos n) = max 4 n
at_least_four (negsuc n) = 4

-- The turns that are left from one on. The last one calls no tool, and each prompt carries the one
-- before, its output, and the result of its tool.
unfoldable pub turns_from : Draws → (session left turn prompt : ℕ) → List Turn
unfolding sample_tool
turns_from d i zero t prompt = []
turns_from d i (suc left) t prompt =
    let output = d.output i t in
    let called : Option String × ℕ =
      (if left == 0 then (none, 0) else (some (sample_tool d i t).0, (sample_tool d i t).1)) in
    let grown = prompt + output + (if truthy called.0 then d.result i t else 0) in
    record {
      prompt_tokens = prompt;
      output_tokens = output;
      tool_name = called.0;
      tool_duration_ms = called.1;
    }
    ∷ turns_from d i left (t + 1) grown

-- `f"sess-{i:04d}"`
unfoldable pub session_name : ℕ → String
session_name i = append "sess-" (
    append (if ltb i 10 then "000" else if ltb i 100 then "00" else if ltb i 1_000 then "0" else "")
      (decimal_on (i + 1) i))

unfoldable pub session_of : Draws → (base_prompt_tokens session : ℕ) → SessionTrace
unfolding turns_from offset_by at_least_four session_name
session_of d base i = record {
  session_id = session_name i;
  arrival_ms = d.arrival i;
  turns = turns_from d i (at_least_four (d.turns i)) 0 (offset_by base (d.offset i));
}

unfoldable pub sessions_from : Draws → (base_prompt_tokens first n : ℕ) → List SessionTrace
unfolding session_of
sessions_from d base first zero = []
sessions_from d base first (suc n) = session_of d base first ∷ sessions_from d base (first + 1) n

unfoldable pub earlier_arrival : SessionTrace → SessionTrace → Bool
earlier_arrival a b = ltb a.arrival_ms b.arrival_ms

unfoldable pub generate_trace : Draws → (sessions base_prompt_tokens : ℕ) → List SessionTrace
unfolding sessions_from earlier_arrival
generate_trace d sessions base = sorted earlier_arrival (sessions_from d base 0 sessions)
