-- ===== src/Tests/Replay.antt =====
-- bench/replay.py on two sessions.
use agentserve.Common.{ℕ, ◌≡◌, refl, arith, String, true, Option, none, some, List, [], ◌∷◌}
use agentserve.Config.{default_cluster}
use agentserve.Models.{SessionTrace, Turn, total_prompt_tokens}
use agentserve.Replay.Arms.{Accounts, compare-Accounts}
use agentserve.Replay.Rounds.{IsRunning, Stepped}
use agentserve.Replay.Runs.{IsRunnable, start-IsRunning, round_total}
use agentserve.Result.Produces.{Produces}
use agentserve.Replay.{
  ArmResult, Simulation, Event, start, arrivals_from, pop_least, handle, compare,
}
use agentserve.Result.{ok}

abbrev turn : ℕ → Option String → Turn
turn prompt tool = record {
  prompt_tokens = prompt;
  output_tokens = 20;
  tool_name = tool;
  tool_duration_ms = 700_000;
}

abbrev pub traces : List SessionTrace
traces =
    record {
      session_id = "a";
      arrival_ms = 0;
      turns = turn 50 (some "grep") ∷ turn 90 (some "pytest") ∷ turn 120 none ∷ [];
    }
    ∷ record { session_id = "b"; arrival_ms = 5; turns = turn 60 (some "grep") ∷ turn 80 none ∷ [] }
    ∷ []

default_cluster-IsRunnable : IsRunnable default_cluster
default_cluster-IsRunnable = record {
  some_replica = omega arith;
  some_cache = omega arith;
  observations = omega arith;
}

compare-Accounts_example :
    (baseline treatment : ArmResult) × (compare traces default_cluster
        (λ i. i)
        (λ i. i)
        (λ i. i)
        (λ i. i)
      ≡ ok (baseline, treatment))
    × Accounts traces baseline
    × Accounts traces treatment
compare-Accounts_example =
    compare-Accounts traces default_cluster (λ i. i) (λ i. i) (λ i. i) (λ i. i)
      default_cluster-IsRunnable (omega arith, (omega arith, tt))

abbrev first_events : Simulation
first_events = start traces default_cluster true

started-IsRunning : IsRunning traces 5 400 first_events
unfolding total_prompt_tokens
started-IsRunning =
    start-IsRunning traces default_cluster true default_cluster-IsRunnable
      (omega arith, (omega arith, tt))

abbrev event : ℕ → ℕ → Event
event at_ms i = record { at_ms = at_ms; seq = i; session = i; turn = 0 }

round_total_example : Produces (Stepped traces 5 400 0 (pop_least (event 0 0) (event 5 1 ∷ [])).0) (
    handle traces default_cluster
      (λ i. i)
      (λ i. i)
      (record first_events { queue = (pop_least (event 0 0) (event 5 1 ∷ [])).1 })
      (pop_least (event 0 0) (event 5 1 ∷ [])).0)
unfolding start arrivals_from
round_total_example =
    round_total traces default_cluster (λ i. i) (λ i. i) 5 400 first_events (event 0 0)
      (event 5 1 ∷ []) refl started-IsRunning
