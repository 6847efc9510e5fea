-- ===== src/Traces/Summarised.antt =====
-- bench/traces.py: `trace_summary` of what `generate_trace` gives.
use agentserve.Common.Positions.{get_elem?-of_lt}
use agentserve.Common.Sort.{All-sorted, sorted, sorted-IsSorted}
use agentserve.Common.{
  ℕ, zero, suc, ◌+◌, ◌*◌, ◌/◌, ◌≤◌, ◌<◌, ◌≡◌, refl, ap, arith, ◌==◌, max, true, false, some, List,
  [], ◌∷◌, map, All, All_imp, length, length-append, sum_by, truthy,
}
use agentserve.Models.{SessionTrace, Turn}
use agentserve.Replay.Percentiles.{value_at, value_at-le, length-sorted, less-IsOrder}
use agentserve.Replay.{less}
use agentserve.Result.{ok}
use agentserve.Traces.Shape.{IsSession, four_turns, length-turns_from, generate_trace_lem}
use agentserve.Traces.Summaries.{
  TraceSummary, divided, largest, item, prompts_of, gaps_in, gaps_of, trace_summary,
}
use agentserve.Traces.{
  Draws, turns_from, session_of, sessions_from, generate_trace, earlier_arrival, sample_tool,
  at_least_four, offset_by,
}

divided_total :
    (part whole : ℕ) → 1 ≤ whole → divided part whole ≡ ok (record { part = part; whole = whole })
unfolding divided
divided_total part whole h = let e : (whole == 0) ≡ false = ground (arith, h) in rw e

largest_total :
    (ns : List ℕ) → 1 ≤ length ns → (top : ℕ) × (largest ns ≡ ok top) × All (λ n. n ≤ top) ns
unfolding largest
largest_total [] h = absurd (omega (arith, h))
largest_total (n ∷ []) h = (n, refl, (omega arith, tt))
largest_total (n ∷ m ∷ ns) h =
    let (top, e, all) = largest_total (m ∷ ns) (omega arith) in
    (
      max n top,
      rw (e, largest),
      (omega arith, All_imp (λ k (le : k ≤ top). omega (arith, le)) (m ∷ ns) all),
    )

item_total : (ns : List ℕ) (i : ℕ) → i < length ns → item ns i ≡ ok (value_at ns i)
unfolding item
item_total ns i h = let (n, e) = get_elem?-of_lt ns i h in rw (e, item, value_at)

-- A session that calls a tool.
abbrev HasGap : SessionTrace → Type 0
HasGap trace = (1 ≤ length trace.turns) × (1 ≤ length (gaps_in trace.turns))

length-prompts :
    (turns : List Turn) → length (map (λ (t : Turn). t.prompt_tokens) turns) ≡ length turns
length-prompts [] = refl
length-prompts (t ∷ ts) = ap suc (length-prompts ts)

length-prompts_of :
    (traces : List SessionTrace) → length (prompts_of traces) ≡ sum_by (λ t. length t.turns) traces
unfolding prompts_of
length-prompts_of [] = refl
length-prompts_of (t ∷ ts) = omega (
  arith,
  length-append (map (λ (t : Turn). t.prompt_tokens) t.turns) (prompts_of ts),
  length-prompts t.turns,
  length-prompts_of ts,
)

length-gaps_of :
    (traces : List SessionTrace) → All HasGap traces → length traces ≤ length (gaps_of traces)
unfolding gaps_of
length-gaps_of [] h = omega arith
length-gaps_of (t ∷ ts) h =
    omega (arith, length-append (gaps_in t.turns) (gaps_of ts), h.0.1, length-gaps_of ts h.1)

calls_ge :
    (traces : List SessionTrace)
    → All IsSession traces
    → 4 * length traces ≤ sum_by (λ t. length t.turns) traces
calls_ge [] h = omega arith
calls_ge (t ∷ ts) h = omega (arith, h.0.0, calls_ge ts h.1)

module _ (d : Draws) (named : (session turn : ℕ) → truthy (some (d.tool session turn)) ≡ true) where
  gaps_in-turns_from :
      (i left t prompt : ℕ) → 2 ≤ left → 1 ≤ length (gaps_in (turns_from d i left t prompt))
  unfolding gaps_in turns_from sample_tool
  gaps_in-turns_from i zero t prompt h = absurd (omega (arith, h))
  gaps_in-turns_from i (suc zero) t prompt h = absurd (omega (arith, h))
  gaps_in-turns_from i (suc (suc left)) t prompt h = ground (arith, named i t)

  session_of-HasGap : (base i : ℕ) → HasGap (session_of d base i)
  unfolding session_of
  session_of-HasGap base i =
      let long = four_turns (d.turns i) in
      (
        omega (
          arith,
          long,
          length-turns_from d i (at_least_four (d.turns i)) 0 (offset_by base (d.offset i)),
        ),
        gaps_in-turns_from i (at_least_four (d.turns i)) 0 (offset_by base (d.offset i))
            (omega (arith, long)),
      )

  sessions_from-HasGap : (base first n : ℕ) → All HasGap (sessions_from d base first n)
  unfolding sessions_from
  sessions_from-HasGap base first zero = tt
  sessions_from-HasGap base first (suc n) =
      (session_of-HasGap base first, sessions_from-HasGap base (first + 1) n)

  -- If there is a session and each name of a tool that is drawn is not empty, `trace_summary` of a
  -- generated trace does not raise: it counts the sessions and at least four calls for each, no
  -- prompt is above its maximum, and the median of the gaps is at most their 90th percentile.
  pub trace_summary_total :
      (sessions base : ℕ)
      → 1 ≤ sessions
      → let traces = generate_trace d sessions base in
        (s : TraceSummary) × (trace_summary traces ≡ ok s)
        × (s.sessions ≡ sessions)
        × (4 * sessions ≤ s.total_calls)
        × All (λ n. n ≤ s.max_prompt_tokens) (prompts_of traces)
        × (s.median_tool_gap_ms ≤ s.p90_tool_gap_ms)
  unfolding trace_summary
  trace_summary_total sessions base h =
      let traces = generate_trace d sessions base in
      let (count, are, in_order) = generate_trace_lem d sessions base in
      let found = gaps_of traces in
      let gaps = sorted less found in
      let some_gap = length-gaps_of traces (
        unfold generate_trace in
        All-sorted earlier_arrival HasGap (sessions_from d base 0 sessions)
          (sessions_from-HasGap base 0 sessions)) in
      let sorted_gaps = length-sorted found in
      let calls = calls_ge traces are in
      let prompts = length-prompts_of traces in
      let (top, found_top, below) =
        largest_total (prompts_of traces) (omega (arith, calls, prompts, count, h)) in
      let low : length gaps / 2 < length gaps = omega (arith, sorted_gaps, some_gap, count, h) in
      let high : length gaps * 9 / 10 < length gaps =
        omega (arith, sorted_gaps, some_gap, count, h) in
      (
        record {
          sessions = length traces;
          total_calls = sum_by (λ t. length t.turns) traces;
          mean_turns = record { part = sum_by (λ t. length t.turns) traces; whole = length traces };
          max_prompt_tokens = top;
          mean_prompt_tokens = record {
            part = sum_by (λ n. n) (prompts_of traces);
            whole = length (prompts_of traces);
          };
          median_tool_gap_ms = value_at gaps (length gaps / 2);
          p90_tool_gap_ms = value_at gaps (length gaps * 9 / 10);
        },
        rw (
          divided_total (sum_by (λ t. length t.turns) traces) (length traces)
              (omega (arith, count, h)),
          found_top,
          divided_total (sum_by (λ n. n) (prompts_of traces)) (length (prompts_of traces))
              (omega (arith, calls, prompts, count, h)),
          item_total gaps (length gaps / 2) low,
          item_total gaps (length gaps * 9 / 10) high,
        ),
        count,
        omega (arith, calls, count),
        below,
        value_at-le gaps _ _ (sorted-IsSorted less less-IsOrder found) (omega arith) high,
      )
