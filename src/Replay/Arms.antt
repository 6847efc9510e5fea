-- ===== src/Replay/Arms.antt =====
-- bench/replay.py: `run_arm` and `compare`.
use agentserve.Common.{
  ℕ, ◌+◌, ◌≤◌, ◌≡◌, refl, arith, true, false, String, Bool, List, All, length, sum_by,
}
use agentserve.Config.{ClusterConfig}
use agentserve.Models.{SessionTrace, total_prompt_tokens}
use agentserve.Replay.Runs.{IsRunnable, run_events_total, start-IsRunning, completion_times-Spans}
use agentserve.Replay.{ArmResult, start, run_arm, compare, total_turns}
use agentserve.Result.Produces.{Produces, produces, >>=-Produces, Produces-value}
use agentserve.Result.{ok}

-- The counters of an arm account for every turn and every prompt token of the traces.
pub record Accounts (traces : List SessionTrace) (arm : ArmResult) : Type 0 where
  pub requests : arm.stats.requests ≡ total_turns traces
  pub tokens :
      arm.stats.tokens_reused + arm.stats.tokens_computed ≡ sum_by total_prompt_tokens traces
  pub tiers : arm.stats.gpu_hits + arm.stats.dram_hits + arm.stats.misses ≡ total_turns traces
  pub times : length arm.stats.ttfts ≡ total_turns traces

module _ (traces : List SessionTrace) (config : ClusterConfig) where
  run_arm-Accounts :
      (adaptive : Bool) (label : String) (read_at write_at : ℕ → ℕ)
      → IsRunnable config
      → All (λ t. 1 ≤ length t.turns) traces
      → Produces (Accounts traces) (run_arm traces config adaptive label read_at write_at)
  unfolding run_arm
  run_arm-Accounts adaptive label read_at write_at runnable turns =
      >>=-Produces
        (run_events_total traces config read_at write_at (total_turns traces)
          (sum_by total_prompt_tokens traces) (total_turns traces) (start traces config adaptive)
          (start-IsRunning traces config adaptive runnable turns)
          (omega (arith, (start-IsRunning traces config adaptive runnable turns).requests_left)))
        (λ sim done.
          >>=-Produces (completion_times-Spans sim.session_start sim.session_end done.lasted)
            (λ times counted. produces (record {
              requests = done.requests_done;
              tokens = done.tokens_done;
              tiers = omega (arith, done.agrees.tiers, done.requests_done);
              times = omega (arith, done.agrees.times, done.requests_done);
            })))

  compare-eq :
      (read_at write_at read_at' write_at' : ℕ → ℕ) (baseline treatment : ArmResult)
      → run_arm traces config false "stock vLLM (round-robin + LRU)" read_at write_at ≡ ok baseline
      → run_arm traces config true "AgentServe (affinity + adaptive TTL)" read_at' write_at'
        ≡ ok treatment
      → compare traces config read_at write_at read_at' write_at' ≡ ok (baseline, treatment)
  unfolding compare
  compare-eq read_at write_at read_at' write_at' baseline treatment ran ran' =
      rw (ran, ran', compare) refl

  -- If there is a replica, the replicas have a GPU tier, `min_observations` is positive, and each
  -- session has a turn, both arms run to their end without an exception, and both account for the
  -- same work: as many requests, tiers and times to the first token as the traces have turns, and
  -- as many tokens reused or computed as the traces have prompt tokens.
  pub compare-Accounts :
      (read_at write_at read_at' write_at' : ℕ → ℕ)
      → IsRunnable config
      → All (λ t. 1 ≤ length t.turns) traces
      → (baseline treatment : ArmResult) × (compare traces config read_at write_at read_at'
            write_at'
          ≡ ok (baseline, treatment))
        × Accounts traces baseline
        × Accounts traces treatment
  compare-Accounts read_at write_at read_at' write_at' runnable turns =
      let (baseline, ran, first) =
        Produces-value (
          run_arm-Accounts false "stock vLLM (round-robin + LRU)" read_at write_at runnable
            turns) in
      let (treatment, ran', second) = Produces-value (
        run_arm-Accounts true "AgentServe (affinity + adaptive TTL)" read_at' write_at' runnable
          turns) in
      (
        baseline,
        treatment,
        compare-eq read_at write_at read_at' write_at' baseline treatment ran ran',
        first,
        second,
      )
