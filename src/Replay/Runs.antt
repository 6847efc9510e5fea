-- ===== src/Replay/Runs.antt =====
-- bench/replay.py: whole runs, from the first events to the end of the loop.
use agentserve.Replay.Counters.{Lasted, Agrees}
use agentserve.Replay.Rounds.{one, prompt_tokens, IsRunning, Stepped, handle_total}
use agentserve.App.Serving.{fresh_replicas-Works, length-fresh_replicas}
use agentserve.Predictor
use agentserve.Policy.{lru_policy, adaptive_ttl_policy}
use agentserve.Common.Dict.{Dict}
use agentserve.Common.Dict.{lookup}
use agentserve.Common.{
  ◌-◌, some, ℕ, zero, suc, ◌+◌, ◌≤◌, ◌≡◌, refl, ap, arith, List, [], ◌∷◌, All, All, length,
  get_elem?, sum_by, Bool, if◌then◌else◌,
}
use agentserve.Config.{ClusterConfig}
use agentserve.Models.{total_prompt_tokens, SessionTrace, Turn}
use agentserve.Replay.Events.{
  load-arrivals_from, IsDue-arrivals_from, IsDue, load, sum_by-drop, sum_by-pop_least,
  All-pop_least, pop_least-le, AllFrom-All, All-AllFrom, AllFrom-zero,
}
use agentserve.Replay.Turns.{IsReady}
use agentserve.Replay.{
  start, completion_times, total_turns, build, Event, Simulation, pop_least, handle, run_events,
}
use agentserve.Result.Produces.{Produces, produces, >>=-Produces}
use agentserve.Result.{ok}

-- A loop that has run to its end: no event is left, and all turns are served.
pub record IsDone (requests tokens : ℕ) (sim : Simulation) : Type 0 where
  pub over : sim.queue ≡ []
  pub requests_done : sim.stats.requests ≡ requests
  pub tokens_done : sim.stats.tokens_reused + sim.stats.tokens_computed ≡ tokens
  pub agrees : Agrees sim.stats
  pub lasted : All (Lasted sim.session_start) sim.session_end

module _ (traces : List SessionTrace) (requests tokens : ℕ) where
  stop :
      (sim : Simulation)
      → sim.queue ≡ []
      → IsRunning traces requests tokens sim
      → IsDone requests tokens sim
  stop sim over h = record {
    over = over;
    requests_done = omega (arith, rw over at h.requests_left);
    tokens_done = omega (arith, rw over at h.tokens_left);
    agrees = h.agrees;
    lasted = h.timely.lasted;
  }

  -- What is due comes down to the event that is popped and the others.
  pop_least-IsRunning :
      (sim : Simulation) (e : Event) (events : List Event)
      → sim.queue ≡ e ∷ events
      → IsRunning traces requests tokens sim
      → IsRunning traces requests tokens
          (record sim { queue = (pop_least e events).0 ∷ (pop_least e events).1 })
  pop_least-IsRunning sim e events queued h =
      let due = rw queued at h.due in
      let all = All-pop_least (IsDue traces) e events due.0 due.1 in
      let coming = AllFrom-All h.timely.clock (e ∷ events) (rw queued at h.timely.coming) in
      let early = All-pop_least (λ d. h.timely.clock ≤ d.at_ms) e events coming.0 coming.1 in
      record {
        ready = h.ready;
        due = all;
        requests_left =
            omega
              (arith, rw queued at h.requests_left, sum_by-pop_least (load one traces) e events);
        tokens_left = omega (
          arith,
          rw queued at h.tokens_left,
          sum_by-pop_least (load prompt_tokens traces) e events,
        );
        agrees = h.agrees;
        timely = record {
          clock = h.timely.clock;
          coming = All-AllFrom _ _ early;
          started = h.timely.started;
          lasted = h.timely.lasted;
        };
      }

  -- An event that is due leads to a turn at least.
  load-IsDue : (e : Event) → IsDue traces e → 1 ≤ load one traces e
  load-IsDue e (trace, turn, here, now) =
      rw here (omega (arith, sum_by-drop one trace.turns e.turn turn now))

module _ (traces : List SessionTrace) (config : ClusterConfig) (read_at write_at : ℕ → ℕ)
    (requests tokens : ℕ) where
  -- A round of the replay, on a simulation in order whose queue is not empty, does not raise. It
  -- leaves a simulation in order, with one more request served and no event in the queue that is
  -- due before the event of the round. In order means: the arm is ready, every event names a turn,
  -- every turn and every prompt token is counted as served or due, the counters agree, and no
  -- session started after an event that is due or after it ended.
  pub round_total :
      (sim : Simulation) (e : Event) (events : List Event)
      → sim.queue ≡ e ∷ events
      → IsRunning traces requests tokens sim
      → Produces (Stepped traces requests tokens sim.stats.requests (pop_least e events).0) (
          handle traces config read_at write_at
            (record sim { queue = (pop_least e events).1 })
            (pop_least e events).0)
  round_total sim e events queued h =
      handle_total traces config read_at write_at requests tokens
        (record sim { queue = (pop_least e events).1 }) (pop_least e events).0
        (pop_least-IsRunning traces requests tokens sim e events queued h) (pop_least-le e events).1

  pub run_events_total :
      (fuel : ℕ) (sim : Simulation)
      → IsRunning traces requests tokens sim
      → sum_by (load one traces) sim.queue ≤ fuel
      → Produces (IsDone requests tokens) (run_events traces config read_at write_at fuel sim)
  unfolding run_events
  run_events_total zero sim h enough = go sim.queue refl
    where
      go : (queue : List Event) → sim.queue ≡ queue → Produces (IsDone requests tokens) (ok sim)
      go [] over = produces (stop traces requests tokens sim over h)
      go (e ∷ events) queued =
          let due = rw queued at h.due in
          absurd (omega (arith, load-IsDue traces requests tokens e due.0, rw queued at enough))
  run_events_total (suc fuel) sim h enough = go (run_events_total fuel) sim.queue refl
    where
      go :
          ((next : Simulation)
            → IsRunning traces requests tokens next
            → sum_by (load one traces) next.queue ≤ fuel
            → Produces
                (IsDone requests tokens)
                (run_events traces config read_at write_at fuel next))
          → (queue : List Event) → sim.queue ≡ queue
          → Produces
              (IsDone requests tokens)
              (run_events traces config read_at write_at (suc fuel) sim)
      go rest [] over = rw (over, run_events) (produces (stop traces requests tokens sim over h))
      go rest (e ∷ events) queued =
          rw (queued, run_events)
            (>>=-Produces (round_total sim e events queued h) (λ next stepped.
              rest next stepped.running (
                omega (
                  arith, stepped.running.requests_left, stepped.counted, h.requests_left, enough,
                ))))

sum_by-one : (turns : List Turn) → sum_by one turns ≡ length turns
sum_by-one [] = refl
sum_by-one (turn ∷ turns) = omega (arith, sum_by-one turns)

pub sum_by-one_traces :
    (traces : List SessionTrace) → sum_by (λ t. sum_by one t.turns) traces ≡ total_turns traces
sum_by-one_traces [] = refl
sum_by-one_traces (trace ∷ traces) = omega (arith, sum_by-one trace.turns, sum_by-one_traces traces)

pub sum_by-prompts :
    (traces : List SessionTrace)
    → sum_by (λ t. sum_by prompt_tokens t.turns) traces ≡ sum_by total_prompt_tokens traces
unfolding total_prompt_tokens
sum_by-prompts [] = refl
sum_by-prompts (trace ∷ traces) = omega (arith, sum_by-prompts traces)

-- A configuration under which both arms can run.
pub record IsRunnable (config : ClusterConfig) : Type 0 where
  pub some_replica : 1 ≤ config.replicas
  pub some_cache : 1 ≤ config.hardware.gpu_cache_tokens
  pub observations : 1 ≤ config.predictor.min_observations

build-IsReady :
    (config : ClusterConfig) (adaptive : Bool) → IsRunnable config → IsReady (build config adaptive)
unfolding build Predictor.init
build-IsReady config adaptive h =
    let policy = (if adaptive then adaptive_ttl_policy config.policy else lru_policy) in
    record {
      some_replica = omega (
        arith,
        h.some_replica,
        length-fresh_replicas config.hardware policy h.some_cache 0 config.replicas,
      );
      work = fresh_replicas-Works config.hardware policy h.some_cache 0 config.replicas;
      predicts = record { positive = h.observations; counted = tt };
    }

module _ (traces : List SessionTrace) (config : ClusterConfig) (adaptive : Bool)
    (runnable : IsRunnable config) (each_has_a_turn : All (λ t. 1 ≤ length t.turns) traces) where
  pub start-IsRunning :
      IsRunning traces
        (total_turns traces)
        (sum_by total_prompt_tokens traces)
        (start traces config adaptive)
  unfolding start
  start-IsRunning =
      let whole = λ (j : ℕ). let e : 0 + j ≡ j = omega arith in ap (get_elem? traces) e in
      record {
        ready = build-IsReady config adaptive runnable;
        due = IsDue-arrivals_from traces 0 traces whole each_has_a_turn;
        requests_left =
            omega (arith, load-arrivals_from traces one 0 traces whole, sum_by-one_traces traces);
        tokens_left =
            omega (
              arith,
              load-arrivals_from traces prompt_tokens 0 traces whole,
              sum_by-prompts traces,
            );
        agrees = record { tiers = refl; times = refl };
        timely = record { clock = 0; coming = AllFrom-zero _; started = tt; lasted = tt };
      }

-- The times that the sessions took, each from its first event to the end of its last turn.
abbrev pub Spans : Dict ℕ → Dict ℕ → List ℕ → Type 0
Spans starts [] times = times ≡ []
Spans starts ((sid, end_ms) ∷ ends) times =
    (start span : ℕ) × (rest : List ℕ) × (times ≡ span ∷ rest)
    × (lookup sid starts ≡ some start)
    × (start + span ≡ end_ms)
    × Spans starts ends rest

pub completion_times-Spans :
    (starts ends : Dict ℕ)
    → All (Lasted starts) ends
    → Produces (Spans starts ends) (completion_times starts ends)
unfolding completion_times
completion_times-Spans starts [] h = produces refl
completion_times-Spans starts ((sid, end_ms) ∷ ends) h =
    let (start, found, le) = h.0 in
    rw (found, completion_times)
      (>>=-Produces (completion_times-Spans starts ends h.1) (λ rest spans.
        produces (start, end_ms - start, rest, refl, found, omega (arith, le), spans)))
