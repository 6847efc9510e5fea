-- ===== src/Tests/LiveReplay.antt =====
-- bench/live_replay.py against a gateway that fails each first call.
use agentserve.Common.{◌+◌, ◌≤◌, ◌≡◌, ◌==◌, refl, arith, some, [], ◌∷◌, if◌then◌else◌}
use agentserve.LiveReplay.Prompts.{Begins, build_prompt-Begins}
use agentserve.LiveReplay.Reports.{live_report_counts}
use agentserve.LiveReplay.{
  ArmRun, LiveClient, build_prompt, words_to, decimal_on, live_report, run_sessions,
}
use agentserve.Replay.{total_turns}
use agentserve.Result.{ok, raise, client_error}
use agentserve.Tests.Replay.{traces}
use mathlib.Core.List.Perm

three_words : words_to 2 ≡ "tok0 tok1 tok2"
unfolding words_to
three_words = refl

long_number : decimal_on 305 304 ≡ "304"
unfolding decimal_on
long_number = refl

abbrev refuses_first : LiveClient
refuses_first session_id turn prompt max_tokens tool_name = (
  if turn == 0
      then raise client_error
      else ok (record { prompt_tokens = 90; cached_tokens = 50; replica = some 1 }),
  turn + 7,
)

abbrev run : ArmRun
run = record {
  label = "AgentServe";
  calls = run_sessions refuses_first traces;
  session_ms = ("a", 30) ∷ ("b", 20) ∷ [];
  wall_ms = 31;
}

live_report_counts_example :
    ((live_report run).calls + (live_report run).failed ≡ total_turns traces)
    × ((live_report run).replicas_touched ≤ (live_report run).calls)
    × ((live_report run).p50_latency_ms ≤ (live_report run).p95_latency_ms)
live_report_counts_example = live_report_counts refuses_first traces run Perm.rfl

build_prompt-Begins_example : Begins (build_prompt 90 "a" 1) (build_prompt 50 "a" 0)
build_prompt-Begins_example = build_prompt-Begins "a" 50 90 0 1 (omega arith)
