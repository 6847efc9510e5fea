-- ===== src/LiveReplay/Reports.antt =====
-- bench/live_replay.py: what the report of a run counts.
use agentserve.Common.{
  ℕ, suc, ◌+◌, ◌≤◌, ◌≡◌, refl, ap, arith, String, List, [], ◌∷◌, length, length-append,
  sum_by-eq_of_perm, Perm,
}
use agentserve.LiveReplay.{
  CallRecord, ArmRun, touched, ok_calls, live_report, LiveClient, run_turns, run_session,
  run_sessions,
}
use agentserve.Models.{SessionTrace, Turn}
use agentserve.Replay.Percentiles.{sum_by-ones, percentile_le}
use agentserve.Replay.{total_turns}

length-run_turns :
    (client : LiveClient) (sid : String) (i : ℕ) (turns : List Turn)
    → length (run_turns client sid i turns) ≡ length turns
unfolding run_turns
length-run_turns client sid i [] = refl
length-run_turns client sid i (turn ∷ turns) = ap suc (length-run_turns client sid (i + 1) turns)

length-run_sessions :
    (client : LiveClient) (traces : List SessionTrace)
    → length (run_sessions client traces) ≡ total_turns traces
unfolding run_sessions run_session
length-run_sessions client [] = refl
length-run_sessions client (trace ∷ traces) = omega (
  arith,
  length-append (run_session client trace) (run_sessions client traces),
  length-run_turns client trace.session_id 0 trace.turns,
  length-run_sessions client traces,
)

length-touched : (calls : List CallRecord) → length (touched calls) ≤ length calls
unfolding touched
length-touched [] = omega arith
length-touched (c ∷ calls) = ground (arith, length-touched calls)

length-ok_calls : (calls : List CallRecord) → length (ok_calls calls) ≤ length calls
unfolding ok_calls
length-ok_calls [] = omega arith
length-ok_calls (c ∷ calls) = ground (arith, length-ok_calls calls)

-- Whatever calls of a live run fail, and in whatever order the sessions record them: in the
-- report, the calls that succeeded and those that failed are together as many as the traces have
-- turns, no more replicas are touched than calls succeeded, and the 50th percentile of the
-- latencies is at most the 95th.
pub live_report_counts :
    (client : LiveClient) (traces : List SessionTrace) (run : ArmRun)
    → Perm run.calls (run_sessions client traces)
    → ((live_report run).calls + (live_report run).failed ≡ total_turns traces)
      × ((live_report run).replicas_touched ≤ (live_report run).calls)
      × ((live_report run).p50_latency_ms ≤ (live_report run).p95_latency_ms)
unfolding live_report
live_report_counts client traces run same =
    let calls = length-ok_calls run.calls in
    let all = sum_by-eq_of_perm (λ c. 1) same in
    (
      omega (
        arith,
        calls,
        all,
        sum_by-ones run.calls,
        sum_by-ones (run_sessions client traces),
        length-run_sessions client traces,
      ),
      length-touched (ok_calls run.calls),
      percentile_le _,
    )
