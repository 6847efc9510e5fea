-- ===== src/Replay.antt =====
-- bench/replay.py: the discrete-event simulation of a trace. The heap is a list of which the least
-- event is taken. The in-memory session store reads the wall clock, which is an argument: the readings
-- of its two calls in the round of each number.
mod Results
mod Queue
pub mod Percentiles
pub mod Events
pub mod Turns
pub mod Counters
pub mod Rounds
pub mod Runs
pub mod Arms
unfoldable pub use Results.*
unfoldable pub use Queue.*
use agentserve.App.{fresh_replicas}
use agentserve.Backends.Simulated.{execute}
use agentserve.Common.Dict.{Dict, lookup, insert}
use agentserve.Common.Int.{pos}
use agentserve.Common.Sort.{sorted}
use agentserve.Common.{
  ℕ, zero, suc, ◌+◌, ◌-◌, ◌*◌, ◌/◌, ◌%◌, min, max, ltb, ◌==◌, String, Bool, true, false, not, ◌&&◌,
  ◌||◌, Option, none, some, List, [], ◌∷◌, ◌++◌, map, length, set, get_elem?, sum_by, truthy,
  if◌then◌else◌,
}
use agentserve.Config.{ClusterConfig}
use agentserve.Models
use agentserve.Models.{
  CacheTier, Turn, SessionTrace, RequestResult, RunStats, no_stats, Ratio, latency_ms, ttft_ms,
  reuse_rate,
}
use agentserve.Policy.{CachePolicy, lru_policy, adaptive_ttl_policy}
use agentserve.Predictor
use agentserve.Predictor.{ToolDurationPredictor, observe, predict_ms}
use agentserve.Replica.{Replica, prune}
use agentserve.Result.{Result, ok, raise, ◌>>=◌, index_error, key_error}
use agentserve.Router.Choice
use agentserve.Router.Choice.{AnyRouter, affinity, round_robin, route}
use agentserve.State.Memory
use agentserve.State.Memory.{InMemorySessionStore, memory_store}

-- What `_build` gives, with the router's store, which is that of its default.
pub record Arm : Type 0 where
  pub predictor : ToolDurationPredictor
  pub replicas : List Replica
  pub router : AnyRouter
  pub store : InMemorySessionStore

unfoldable pub build : ClusterConfig → Bool → Arm
unfolding fresh_replicas
build config adaptive =
    let policy = (if adaptive then adaptive_ttl_policy config.policy else lru_policy) in
    record {
      predictor = Predictor.init config.predictor;
      replicas = fresh_replicas config.hardware policy 0 config.replicas;
      router = if adaptive then affinity config.policy 0 0 else round_robin 0;
      store = Memory.init 100_000 3_600_000_000;
    }

pub record Simulation : Type 0 where
  pub arm : Arm
  pub stats : RunStats
  pub queue : List Event
  pub seq : ℕ
  pub session_start : Dict ℕ
  pub session_end : Dict ℕ

abbrev pub nth {ℓ} : {A : Type ℓ} → List A → ℕ → Result A
nth xs i = elim (get_elem? xs i) [ none ↦ raise index_error | some x ↦ ok x ]

-- `session_start.setdefault(session_id, now_ms)`
unfoldable pub set_default : String → ℕ → Dict ℕ → Dict ℕ
set_default k v d = elim (lookup k d) [ none ↦ insert k v d | some _ ↦ d ]

-- The predictor learns the duration of the tool call before a turn that is not the first.
unfoldable pub learn_previous :
    ToolDurationPredictor → SessionTrace → ℕ → Result ToolDurationPredictor
learn_previous p trace zero = ok p
learn_previous p trace (suc t) = nth trace.turns t >>= λ prev.
    (if truthy prev.tool_name
      then observe p trace.session_id prev.tool_name (pos prev.tool_duration_ms)
      else ok p)

-- The predicted gap, with the predictor as the read leaves it.
unfoldable pub gap_of :
    ClusterConfig → ToolDurationPredictor → String → Turn → ToolDurationPredictor × Result ℕ
gap_of config p session_id turn =
    if truthy turn.tool_name
    then predict_ms p session_id turn.tool_name
    else (p, ok (config.policy.dead_session_ms * 2))

-- The counters after a result.
unfoldable pub count_tier : CacheTier → RunStats → RunStats
count_tier CacheTier.gpu s = record s { gpu_hits = s.gpu_hits + 1 }
count_tier CacheTier.dram s = record s { dram_hits = s.dram_hits + 1 }
count_tier CacheTier.miss s = record s { misses = s.misses + 1 }

unfoldable pub count_result : RequestResult → RunStats → RunStats
unfolding count_tier
count_result result s = count_tier result.tier (record s {
  requests = s.requests + 1;
  tokens_reused = s.tokens_reused + result.reused_tokens;
  tokens_computed = s.tokens_computed + result.computed_tokens;
  ttfts = s.ttfts ++ ttft_ms result ∷ [];
  gpu_busy_ms = s.gpu_busy_ms + (result.restore_ms + result.prefill_ms + result.decode_ms);
})

-- `replica.pending.append(completed_ms)`. The replica's place is its number.
unfoldable pub settle : Arm → Replica → (completed_ms : ℕ) → Arm
settle arm after completed_ms = record arm {
  replicas =
      set arm.replicas after.id (record after { pending = after.pending ++ completed_ms ∷ [] });
}

-- The next turn of the session is due when its tool call is over.
unfoldable pub push_next :
    Simulation → Event → SessionTrace → Turn → (completed_ms : ℕ) → Simulation
push_next sim e trace turn completed_ms =
    if ltb (e.turn + 1) (length trace.turns)
    then record sim {
      queue =
          sim.queue
          ++ record {
            at_ms = completed_ms + turn.tool_duration_ms;
            seq = sim.seq;
            session = e.session;
            turn = e.turn + 1;
          }
            ∷ [];
      seq = sim.seq + 1;
    }
    else sim

module _ (traces : List SessionTrace) (config : ClusterConfig) (read_at write_at : ℕ → ℕ) where
  -- The lines of the loop up to the call of the backend, and that call: the arm without the
  -- completion in the queue of its replica, the replica, and the result.
  unfoldable pub run_turn :
      Arm
      → (round : ℕ) → SessionTrace
      → ℕ
      → Turn
      → (now_ms : ℕ) → Result (Arm × Replica × RequestResult)
  unfolding learn_previous gap_of
  run_turn arm round trace t turn now_ms = do
    learned ← learn_previous arm.predictor trace t
    let replicas = map (λ r. prune r now_ms) arm.replicas
    let routed =
        route memory_store replicas arm.router arm.store (read_at round) (write_at round)
          trace.session_id now_ms
    replica ← routed.2
    let gap = gap_of config learned trace.session_id turn
    gap_ms ← gap.1
    let served =
        execute config.hardware replica trace.session_id turn.prompt_tokens turn.output_tokens
          now_ms (max replica.free_at_ms now_ms + gap_ms)
    ok (
      record { predictor = gap.0; replicas = replicas; router = routed.0; store = routed.1 },
      served.0,
      served.1,
    )

  -- The body of the loop, on the event that was popped.
  unfoldable pub handle : Simulation → Event → Result Simulation
  unfolding run_turn settle push_next count_result set_default
  handle sim e = do
    trace ← nth traces e.session
    turn ← nth trace.turns e.turn
    (arm, after, result) ← run_turn sim.arm sim.stats.requests trace e.turn turn e.at_ms
    let completed_ms = e.at_ms + latency_ms result
    ok (
        push_next
          (record sim {
            arm = settle arm after completed_ms;
            stats = count_result result sim.stats;
            session_start = set_default trace.session_id e.at_ms sim.session_start;
            session_end = insert trace.session_id completed_ms sim.session_end;
          })
          e trace turn completed_ms)

  -- The `while` loop. Each round is one turn, so their number is enough fuel.
  unfoldable pub run_events : ℕ → Simulation → Result Simulation
  unfolding handle pop_least
  run_events zero sim = ok sim
  run_events (suc fuel) sim = elim sim.queue [
    | [] ↦ ok sim
    | e ∷ events ↦
        let (least, rest) = pop_least e events in
        handle (record sim { queue = rest }) least >>= run_events fuel
  ]

-- The first events, one for each session.
unfoldable pub arrivals_from : ℕ → List SessionTrace → List Event
arrivals_from i [] = []
arrivals_from i (trace ∷ traces) =
    record { at_ms = trace.arrival_ms; seq = i; session = i; turn = 0 }
    ∷ arrivals_from (i + 1) traces

-- The last loop. Where a session ends after it started, which Runs shows of a run, the subtraction is
-- exact.
unfoldable pub completion_times : Dict ℕ → Dict ℕ → Result (List ℕ)
completion_times starts [] = ok []
completion_times starts ((sid, end_ms) ∷ ends) = elim (lookup sid starts) [
  | none ↦ raise key_error
  | some start ↦ completion_times starts ends >>= λ rest. ok ((end_ms - start) ∷ rest)
]

abbrev pub total_turns : List SessionTrace → ℕ
total_turns = sum_by (λ t. length t.turns)

unfoldable pub start : List SessionTrace → ClusterConfig → Bool → Simulation
unfolding build arrivals_from
start traces config adaptive = record {
  arm = build config adaptive;
  stats = no_stats;
  queue = arrivals_from 0 traces;
  seq = length traces;
  session_start = [];
  session_end = [];
}

unfoldable pub run_arm :
    List SessionTrace
    → ClusterConfig
    → Bool
    → String
    → (read_at write_at : ℕ → ℕ) → Result ArmResult
unfolding start run_events completion_times
run_arm traces config adaptive label read_at write_at = do
  sim ←
      run_events traces config read_at write_at (total_turns traces) (start traces config adaptive)
  times ← completion_times sim.session_start sim.session_end
  ok (record {
    label = label;
    stats = record sim.stats { job_completion_ms = times };
    evictions = sum_by (λ r. r.evictions) sim.arm.replicas;
    offloads = sum_by (λ r. r.offloads) sim.arm.replicas;
    affinity_hits = Choice.affinity_hits sim.arm.router;
    affinity_breaks = Choice.affinity_breaks sim.arm.router;
  })

unfoldable pub compare :
    List SessionTrace
    → ClusterConfig
    → (read_at write_at read_at' write_at' : ℕ → ℕ) → Result (ArmResult × ArmResult)
unfolding run_arm
compare traces config read_at write_at read_at' write_at' = do
  baseline ← run_arm traces config false "stock vLLM (round-robin + LRU)" read_at write_at
  treatment ← run_arm traces config true "AgentServe (affinity + adaptive TTL)" read_at' write_at'
  ok (baseline, treatment)
