-- ===== src/Traces/Summaries.antt =====
-- bench/traces.py: `trace_summary`.
use agentserve.Common.Sort.{sorted}
use agentserve.Common.{
  ℕ, ◌*◌, ◌/◌, max, ◌==◌, none, some, List, [], ◌∷◌, ◌++◌, map, length, sum_by, truthy, get_elem?,
  if◌then◌else◌,
}
use agentserve.Models.{Ratio, SessionTrace, Turn}
use agentserve.Replay.{less}
use agentserve.Result.{Result, ok, raise, ◌>>=◌, value_error, index_error, zero_division_error}

pub record TraceSummary : Type 0 where
  pub sessions : ℕ
  pub total_calls : ℕ
  pub mean_turns : Ratio
  pub max_prompt_tokens : ℕ
  pub mean_prompt_tokens : Ratio
  pub median_tool_gap_ms : ℕ
  pub p90_tool_gap_ms : ℕ

-- `part / whole`
unfoldable pub divided : (part whole : ℕ) → Result Ratio
divided part whole =
    if whole == 0 then raise zero_division_error else ok (record { part = part; whole = whole })

-- `max(values)`
unfoldable pub largest : List ℕ → Result ℕ
largest [] = raise value_error
largest (n ∷ []) = ok n
largest (n ∷ m ∷ ns) = largest (m ∷ ns) >>= λ rest. ok (max n rest)

-- `values[i]`
unfoldable pub item : List ℕ → ℕ → Result ℕ
item values i = elim (get_elem? values i) [ none ↦ raise index_error | some value ↦ ok value ]

unfoldable pub prompts_of : List SessionTrace → List ℕ
prompts_of [] = []
prompts_of (trace ∷ traces) = map (λ turn. turn.prompt_tokens) trace.turns ++ prompts_of traces

-- The durations of the turns that call a tool.
unfoldable pub gaps_in : List Turn → List ℕ
gaps_in [] = []
gaps_in (turn ∷ turns) =
    let rest = gaps_in turns in if truthy turn.tool_name then turn.tool_duration_ms ∷ rest else rest

unfoldable pub gaps_of : List SessionTrace → List ℕ
unfolding gaps_in
gaps_of [] = []
gaps_of (trace ∷ traces) = gaps_in trace.turns ++ gaps_of traces

-- `int(len(gaps) * 0.9)` is the whole part of nine tenths.
unfoldable pub trace_summary : List SessionTrace → Result TraceSummary
unfolding divided largest item prompts_of gaps_of less
trace_summary traces = do
  let calls = sum_by (λ t. length t.turns) traces
  let prompts = prompts_of traces
  let gaps = sorted less (gaps_of traces)
  mean_turns ← divided calls (length traces)
  top ← largest prompts
  mean_prompt ← divided (sum_by (λ n. n) prompts) (length prompts)
  median ← item gaps (length gaps / 2)
  high ← item gaps (length gaps * 9 / 10)
  ok (record {
    sessions = length traces;
    total_calls = calls;
    mean_turns = mean_turns;
    max_prompt_tokens = top;
    mean_prompt_tokens = mean_prompt;
    median_tool_gap_ms = median;
    p90_tool_gap_ms = high;
  })
