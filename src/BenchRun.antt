-- ===== src/BenchRun.antt =====
-- bench/run.py: both arms over the traces of each seed. What a seed draws and what the clocks of the
-- session store read in each arm are parameters. The spread and the printing are not modelled.
pub mod Totals
use agentserve.Common.{ℕ, zero, suc, ◌+◌, ◌*◌, List, [], ◌∷◌, map, length, sum_by}
use agentserve.Config.{ClusterConfig, default_hardware, default_policy, default_predictor}
use agentserve.Models.{Ratio}
use agentserve.Replay.{ArmResult, Report, report, compare}
use agentserve.Result.{Result, ok, raise, value_error, ◌>>=◌}
use agentserve.Traces.Summaries.{TraceSummary, trace_summary, divided}
use agentserve.Traces.{Draws, generate_trace}

-- The configuration that the command line gives.
unfoldable pub config_of : (replicas gpu_cache_tokens : ℕ) → ClusterConfig
config_of replicas gpu_cache_tokens = record {
  replicas = replicas;
  hardware = record default_hardware { gpu_cache_tokens = gpu_cache_tokens };
  policy = default_policy;
  predictor = default_predictor;
}

pub record Seed : Type 0 where
  pub draws : Draws
  pub read_at : ℕ → ℕ
  pub write_at : ℕ → ℕ
  pub treatment_read_at : ℕ → ℕ
  pub treatment_write_at : ℕ → ℕ

-- The loop over the seeds.
unfoldable pub runs_of :
    ClusterConfig
    → (sessions base_prompt_tokens : ℕ) → List Seed
    → Result (List (ArmResult × ArmResult))
runs_of config sessions base [] = ok []
runs_of config sessions base (seed ∷ seeds) =
    compare (generate_trace seed.draws sessions base) config seed.read_at seed.write_at
      seed.treatment_read_at seed.treatment_write_at
    >>= λ arms. runs_of config sessions base seeds >>= λ rest. ok (arms ∷ rest)

-- `range(first, first + n)`
unfoldable pub seeds_from : (ℕ → Seed) → (first n : ℕ) → List Seed
seeds_from seed_of first zero = []
seeds_from seed_of first (suc n) = seed_of first ∷ seeds_from seed_of (first + 1) n

-- `mean` of whole numbers. `StatisticsError`, without a value, is a `ValueError`.
unfoldable pub mean : List ℕ → Result Ratio
mean [] = raise value_error
mean (n ∷ ns) = ok (record { part = sum_by (λ k. k) (n ∷ ns); whole = length (n ∷ ns) })

unfoldable pub total_rate : List Ratio → Ratio
total_rate [] = record { part = 0; whole = 1 }
total_rate (x ∷ xs) =
    let rest = total_rate xs in
    record { part = x.part * rest.whole + rest.part * x.whole; whole = x.whole * rest.whole }

-- `mean` of fractions.
unfoldable pub mean_rate : List Ratio → Result Ratio
unfolding total_rate
mean_rate [] = raise value_error
mean_rate (x ∷ xs) =
    let total = total_rate (x ∷ xs) in
    ok (record { part = total.part; whole = total.whole * length (x ∷ xs) })

abbrev whole_number : ℕ → Ratio
whole_number n = record { part = n; whole = 1 }

-- `METRICS`, what each reads of a report.
abbrev pub metrics : List (Report → Ratio)
metrics =
    (λ r. r.gpu_hit_rate)
    ∷ (λ r. r.any_hit_rate)
    ∷ (λ r. r.token_reuse_rate)
    ∷ (λ r. whole_number r.tokens_recomputed)
    ∷ (λ r. whole_number r.gpu_busy_ms)
    ∷ (λ r. whole_number r.p95_ttft_ms)
    ∷ (λ r. whole_number r.p95_jct_ms)
    ∷ []

-- A line of the table, without the difference.
pub record Row : Type 0 where
  pub baseline : Ratio
  pub treatment : Ratio

unfoldable pub row_of : List (ArmResult × ArmResult) → (Report → Ratio) → Result Row
unfolding mean_rate
row_of runs metric = do
  baseline ← mean_rate (map (λ arms. metric (report arms.0)) runs)
  treatment ← mean_rate (map (λ arms. metric (report arms.1)) runs)
  ok (record { baseline = baseline; treatment = treatment })

unfoldable pub rows_of : List (ArmResult × ArmResult) → List (Report → Ratio) → Result (List Row)
unfolding row_of
rows_of runs [] = ok []
rows_of runs (metric ∷ metrics) =
    row_of runs metric >>= λ row. rows_of runs metrics >>= λ rest. ok (row ∷ rest)

-- What `main` prints, without `--json`.
pub record Table : Type 0 where
  pub runs : List (ArmResult × ArmResult)
  pub summary : TraceSummary
  pub utilization : Ratio
  pub rows : List Row
  pub breaks : Ratio
  pub hits : Ratio

unfoldable pub table_of :
    (replicas window_ms : ℕ)
    → List (Report → Ratio)
    → List (ArmResult × ArmResult)
    → TraceSummary
    → Result Table
unfolding mean rows_of divided
table_of replicas window_ms wanted runs summary = do
  busy ← mean (map (λ arms. (report arms.0).gpu_busy_ms) runs)
  utilization ← divided busy.part (busy.whole * (replicas * window_ms))
  rows ← rows_of runs wanted
  breaks ← mean (map (λ arms. arms.1.affinity_breaks) runs)
  hits ← mean (map (λ arms. arms.1.affinity_hits) runs)
  ok (record {
    runs = runs;
    summary = summary;
    utilization = utilization;
    rows = rows;
    breaks = breaks;
    hits = hits;
  })

-- `main`: the workload that is summarised is the one of the seed 1.
unfoldable pub benchmark :
    (replicas gpu_cache_tokens sessions base_prompt_tokens window_ms : ℕ)
    → (ℕ → Seed)
    → (seeds : ℕ) → Result Table
unfolding config_of runs_of seeds_from table_of
benchmark replicas gpu_cache_tokens sessions base window_ms seed_of seeds = do
  runs ← runs_of (config_of replicas gpu_cache_tokens) sessions base (seeds_from seed_of 1 seeds)
  summary ← trace_summary (generate_trace (seed_of 1).draws sessions base)
  table_of replicas window_ms metrics runs summary
