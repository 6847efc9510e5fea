-- ===== src/LiveReplay.antt =====
-- bench/live_replay.py: what is sent to a live gateway, what is recorded of each call, and the report.
-- The client is a parameter: what a call gives, and how long it takes. The pauses of the tool calls and
-- the semaphore only delay calls.
pub mod Prompts
pub mod Reports
use agentserve.Common.{
  ℕ, zero, suc, ◌+◌, ◌-◌, ◌/◌, ◌%◌, min, max, ltb, ◌==◌, String, Bool, true, false, not, ◌||◌,
  Option, none, some, List, [], ◌∷◌, ◌++◌, map, length, sum_by, truthy, if◌then◌else◌,
}
use agentserve.Common.Dict.{Dict, values}
use agentserve.Common.Int.{ℤ, sub_ℕ}
use agentserve.Models.{Ratio, SessionTrace, Turn}
use agentserve.Replay.{percentile}
use agentserve.Result.{Result, ok, raise}
use Prim.Native.String.{◌++◌ as append}

pub record CallRecord : Type 0 where
  pub session_id : String
  pub turn : ℕ
  pub prompt_tokens : ℕ
  pub cached_tokens : ℕ
  pub latency_ms : ℕ
  pub replica : Option ℕ
  pub is_ok : Bool

pub record ArmRun : Type 0 where
  pub label : String
  pub calls : List CallRecord
  pub session_ms : Dict ℕ
  pub wall_ms : ℕ

-- `[c for c in calls if c.ok]`
unfoldable pub ok_calls : List CallRecord → List CallRecord
ok_calls [] = []
ok_calls (c ∷ calls) = let rest = ok_calls calls in if c.is_ok then c ∷ rest else rest

unfoldable pub is_among : ℕ → List ℕ → Bool
is_among n [] = false
is_among n (m ∷ ms) = let rest = is_among n ms in (n == m) || rest

-- The replicas that calls went to, each once.
unfoldable pub touched : List CallRecord → List ℕ
unfolding is_among
touched [] = []
touched (c ∷ calls) =
    let rest = touched calls in
    elim c.replica [ none ↦ rest | some id ↦ if is_among id rest then rest else id ∷ rest ]

unfoldable pub hits : List CallRecord → ℕ
hits = sum_by (λ c. if ltb 0 c.cached_tokens then 1 else 0)

-- The wall clock is kept in ticks.
pub record LiveReport : Type 0 where
  pub calls : ℕ
  pub failed : ℕ
  pub cache_hit_rate : Ratio
  pub token_reuse_rate : Ratio
  pub tokens_recomputed : ℤ
  pub replicas_touched : ℕ
  pub p50_latency_ms : ℕ
  pub p95_latency_ms : ℕ
  pub mean_latency_ms : Ratio
  pub p95_jct_ms : ℕ
  pub wall_clock_ms : ℕ

unfoldable pub live_report : ArmRun → LiveReport
unfolding ok_calls touched hits percentile values
live_report run =
    let calls = ok_calls run.calls in
    let reused = sum_by (λ c. c.cached_tokens) calls in
    let prompt = sum_by (λ c. c.prompt_tokens) calls in
    let latencies = map (λ c. c.latency_ms) calls in
    record {
      calls = length calls;
      failed = length run.calls - length calls;
      cache_hit_rate = record { part = hits calls; whole = max 1 (length calls) };
      token_reuse_rate = record { part = reused; whole = max 1 prompt };
      tokens_recomputed = sub_ℕ prompt reused;
      replicas_touched = length (touched calls);
      p50_latency_ms = percentile latencies 500;
      p95_latency_ms = percentile latencies 950;
      mean_latency_ms = record {
        part = sum_by (λ c. c.latency_ms) calls;
        whole = max 1 (length calls);
      };
      p95_jct_ms = percentile (values run.session_ms) 950;
      wall_clock_ms = run.wall_ms;
    }

abbrev pub digit : ℕ → String
digit zero = "0"
digit (suc zero) = "1"
digit (suc (suc zero)) = "2"
digit (suc (suc (suc zero))) = "3"
digit (suc (suc (suc (suc zero)))) = "4"
digit (suc (suc (suc (suc (suc zero))))) = "5"
digit (suc (suc (suc (suc (suc (suc zero)))))) = "6"
digit (suc (suc (suc (suc (suc (suc (suc zero))))))) = "7"
digit (suc (suc (suc (suc (suc (suc (suc (suc zero)))))))) = "8"
digit _ = "9"

-- `str(n)`, for a number with at most as many digits as there is fuel.
unfoldable pub decimal_on : ℕ → ℕ → String
decimal_on zero n = ""
decimal_on (suc fuel) n =
    let rest = decimal_on fuel (n / 10) in
    if ltb n 10 then digit n else append rest (digit (n % 10))

-- `f"tok{i}"`. A number has fewer digits than one more than itself.
unfoldable pub tok : ℕ → String
unfolding decimal_on
tok i = append "tok" (decimal_on (i + 1) i)

-- `" ".join(f"tok{i}" for i in range(last + 1))`
unfoldable pub words_to : ℕ → String
unfolding tok
words_to zero = tok zero
words_to (suc last) = append (words_to last) (append " " (tok (suc last)))

abbrev pub header : String → String
header session_id =
    append (append "SESSION " session_id)
      (append "\n" "You are a coding agent working on a repository.\n")

-- The number of the turn is not in the text.
unfoldable pub build_prompt : (tokens : ℕ) → String → (turn : ℕ) → String
unfolding words_to
build_prompt tokens session_id turn =
    append (header session_id) (words_to (max 1 (tokens - 40) - 1))

-- What the code reads of an answer.
pub record LiveAnswer : Type 0 where
  pub prompt_tokens : ℕ
  pub cached_tokens : ℕ
  pub replica : Option ℕ

-- A call of a turn: the answer or an exception, and the time that it takes.
abbrev pub LiveClient : Type 0
LiveClient =
    (session_id : String)
    → (turn : ℕ) → (prompt : String) → (max_tokens : ℕ) → (tool_name : Option String)
    → Result LiveAnswer × ℕ

-- One record for a call, whether it succeeds or not.
unfoldable pub record_call : String → ℕ → Result LiveAnswer × ℕ → CallRecord
record_call session_id turn (raise e, latency_ms) = record {
  session_id = session_id;
  turn = turn;
  prompt_tokens = 0;
  cached_tokens = 0;
  latency_ms = latency_ms;
  replica = none;
  is_ok = false;
}
record_call session_id turn (ok answer, latency_ms) = record {
  session_id = session_id;
  turn = turn;
  prompt_tokens = answer.prompt_tokens;
  cached_tokens = answer.cached_tokens;
  latency_ms = latency_ms;
  replica = answer.replica;
  is_ok = true;
}

module _ (client : LiveClient) where
  -- The loop over the turns, from the turn of a number on.
  unfoldable pub run_turns : String → ℕ → List Turn → List CallRecord
  unfolding build_prompt record_call
  run_turns session_id i [] = []
  run_turns session_id i (turn ∷ turns) =
      record_call session_id i (
        client session_id i (build_prompt turn.prompt_tokens session_id i)
          (min turn.output_tokens 64) (if truthy turn.tool_name then turn.tool_name else none))
      ∷ run_turns session_id (i + 1) turns

  unfoldable pub run_session : SessionTrace → List CallRecord
  unfolding run_turns
  run_session trace = run_turns trace.session_id 0 trace.turns

  -- The calls of all sessions, one session after the other.
  unfoldable pub run_sessions : List SessionTrace → List CallRecord
  unfolding run_session
  run_sessions [] = []
  run_sessions (trace ∷ traces) = run_session trace ++ run_sessions traces
