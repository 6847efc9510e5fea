-- ===== src/BenchRun/Totals.antt =====
-- bench/run.py: a benchmark comes to its end, and compares the same work.
use agentserve.BenchRun.{
  Seed, Table, config_of, runs_of, rows_of, row_of, mean, mean_rate, seeds_from, table_of,
  benchmark, metrics,
}
use agentserve.Common.{
  ℕ, suc, ◌*◌, ◌≤◌, ◌≡◌, refl, ap, arith, true, some, List, [], ◌∷◌, ◌==◌, false, length, ◌∙◌, map,
  truthy, All_imp,
}
use agentserve.Models.{Ratio}
use native.Mathlib.Nat.{one-le-mul}
use agentserve.Replay.{Report, report}
use agentserve.Traces.Summaries.{TraceSummary, divided}
use agentserve.Traces.Summarised.{trace_summary_total}
use agentserve.Replay.Arms.{Accounts, compare-Accounts}
use agentserve.Replay.Runs.{IsRunnable}
use agentserve.Replay.{ArmResult}
use agentserve.Config.{ClusterConfig}
use agentserve.Result.Produces.{Produces, produces, >>=-Produces, Produces-of_eq, Produces-value}
use agentserve.Result.{ok}
use agentserve.Traces.Shape.{IsSession, generate_trace_lem}
use agentserve.Traces.{generate_trace}

-- Both arms account for the traces of a seed, one pair for each seed.
abbrev pub AllAccount :
    (sessions base_prompt_tokens : ℕ) → List Seed → List (ArmResult × ArmResult) → Type 0
AllAccount sessions base [] [] = Unit
AllAccount sessions base [] (arms ∷ rest) = ⊥
AllAccount sessions base (seed ∷ seeds) [] = ⊥
AllAccount sessions base (seed ∷ seeds) (arms ∷ rest) =
    (Accounts (generate_trace seed.draws sessions base) arms.0
      × Accounts (generate_trace seed.draws sessions base) arms.1)
    × AllAccount sessions base seeds rest

config_of-IsRunnable :
    (replicas gpu_cache_tokens : ℕ)
    → 1 ≤ replicas
    → 1 ≤ gpu_cache_tokens
    → IsRunnable (config_of replicas gpu_cache_tokens)
unfolding config_of
config_of-IsRunnable replicas gpu_cache_tokens h k = record {
  some_replica = h;
  some_cache = k;
  observations = omega arith;
}

runs_of-Produces :
    (config : ClusterConfig) (sessions base : ℕ) (seeds : List Seed)
    → IsRunnable config
    → Produces (AllAccount sessions base seeds) (runs_of config sessions base seeds)
unfolding runs_of
runs_of-Produces config sessions base [] h = produces tt
runs_of-Produces config sessions base (seed ∷ seeds) h =
    let traces = generate_trace seed.draws sessions base in
    let turns =
      All_imp (λ t (s : IsSession t). omega (arith, s.0)) traces
        (generate_trace_lem seed.draws sessions base).1 in
    let (baseline, treatment, ran, first, second) =
      compare-Accounts traces config seed.read_at seed.write_at seed.treatment_read_at
        seed.treatment_write_at h turns in
    >>=-Produces
      (Produces-of_eq {Post = λ arms. Accounts traces arms.0 × Accounts traces arms.1}
        (baseline, treatment) ran (first, second))
      (λ arms counted.
        >>=-Produces (runs_of-Produces config sessions base seeds h)
          (λ rest all. produces (counted, all)))

rows_of-Produces :
    (arms : ArmResult × ArmResult) (rest : List (ArmResult × ArmResult))
    (wanted : List (Report → Ratio))
    → Produces (λ rows. length rows ≡ length wanted) (rows_of (arms ∷ rest) wanted)
unfolding rows_of row_of mean_rate
rows_of-Produces arms rest [] = produces refl
rows_of-Produces arms rest (metric ∷ wanted) =
    >>=-Produces (rows_of-Produces arms rest wanted) (λ rows same. produces (ap suc same))

positive_product :
    (n replicas window_ms : ℕ)
    → 1 ≤ replicas
    → 1 ≤ window_ms
    → (suc n * (replicas * window_ms) == 0) ≡ false
positive_product n replicas window_ms h k =
    let more : 1 ≤ suc n * (replicas * window_ms) =
      one-le-mul (let some : 1 ≤ suc n = omega arith in some) (one-le-mul h k) in
    ground (arith, more)

table_of-Produces :
    (replicas window_ms : ℕ) (wanted : List (Report → Ratio)) (arms : ArmResult × ArmResult)
    (rest : List (ArmResult × ArmResult)) (summary : TraceSummary)
    → 1 ≤ replicas
    → 1 ≤ window_ms
    → Produces
        (λ t. (t.runs ≡ arms ∷ rest) × (t.summary ≡ summary) × (length t.rows ≡ length wanted))
        (table_of replicas window_ms wanted (arms ∷ rest) summary)
unfolding table_of mean divided
table_of-Produces replicas window_ms wanted arms rest summary h k =
    let some_time =
      positive_product (length (map (λ (a : ArmResult × ArmResult). (report a.0).gpu_busy_ms) rest))
        replicas window_ms h k in
    let (rows, made, seven) = Produces-value (rows_of-Produces arms rest wanted) in
    rw (some_time, made) (produces (refl, refl, seven))

-- What the table shows of the traces of each seed, the workload and the metrics.
abbrev pub IsComplete : (sessions base_prompt_tokens : ℕ) → List Seed → Table → Type 0
IsComplete sessions base seeds t =
    AllAccount sessions base seeds t.runs
    × (t.summary.sessions ≡ sessions)
    × (4 * sessions ≤ t.summary.total_calls)
    × (length t.rows ≡ 7)

module _ (replicas gpu_cache_tokens sessions base window_ms : ℕ) (seed_of : ℕ → Seed) where
  finished :
      (others : ℕ) (runs : List (ArmResult × ArmResult)) (summary : TraceSummary)
      → AllAccount sessions base (seeds_from seed_of 1 (suc others)) runs
      → 1 ≤ replicas
      → 1 ≤ window_ms
      → summary.sessions ≡ sessions
      → 4 * sessions ≤ summary.total_calls
      → Produces
          (IsComplete sessions base (seeds_from seed_of 1 (suc others)))
          (table_of replicas window_ms metrics runs summary)
  unfolding seeds_from
  finished others [] summary all h k counted calls = absurd all
  finished others (arms ∷ rest) summary all h k counted calls =
      let (t, made, (kept, told, seven)) =
        Produces-value (table_of-Produces replicas window_ms metrics arms rest summary h k) in
      Produces-of_eq {Post = IsComplete sessions base (seeds_from seed_of 1 (suc others))} t made
        (rw (kept, told) (all, counted, calls, seven))

  -- With a seed, a session, a replica, a GPU tier and a window that is not empty, and if each name
  -- of a tool that the first seed draws is not empty, the benchmark comes to its end without an
  -- exception, whatever the seeds draw and the clocks read: both arms account for the traces of
  -- each seed, the summary counts the sessions and at least four calls for each, and there is a
  -- line for each of the seven metrics.
  pub benchmark_total :
      (others : ℕ)
      → ((i k : ℕ) → truthy (some ((seed_of 1).draws.tool i k)) ≡ true)
      → 1 ≤ replicas
      → 1 ≤ gpu_cache_tokens
      → 1 ≤ sessions
      → 1 ≤ window_ms
      → (t : Table) × (benchmark replicas gpu_cache_tokens sessions base window_ms seed_of
            (suc others)
          ≡ ok t)
        × IsComplete sessions base (seeds_from seed_of 1 (suc others)) t
  unfolding benchmark seeds_from mean divided
  benchmark_total others named h k some_session some_time =
      let first = seed_of 1 in
      let (summary, summed, counted, calls, below, ordered) =
        trace_summary_total first.draws named sessions base some_session in
      Produces-value (
        >>=-Produces
          (runs_of-Produces (config_of replicas gpu_cache_tokens) sessions base
            (seeds_from seed_of 1 (suc others))
            (config_of-IsRunnable replicas gpu_cache_tokens h k))
          (λ runs all.
            >>=-Produces (Produces-of_eq {Post = λ s. s ≡ summary} summary summed refl) (λ s same.
              finished others runs s all h some_time
                (ap (λ (x : TraceSummary). x.sessions) same ∙ counted) (rw same calls))))
