-- ===== src/Tests/Scripts.antt =====
-- scripts/mock_vllm.py, scripts/gpu_validate.py, bench/traces.py and bench/run.py on small inputs.
use agentserve.Backends.Vllm.Streaming.{Piece}
use agentserve.Backends.Vllm.{Reply, endpoint_of}
use agentserve.BenchRun.Totals.{IsComplete, benchmark_total}
use agentserve.BenchRun.{Seed, Table, seeds_from, benchmark}
use agentserve.Common.Dict.{lookup}
use agentserve.Common.Float.{Float, thousandths}
use agentserve.Common.Int.{ℤ, pos}
use agentserve.Common.Text.{strip, lstrip_by, rstrip_by}
use agentserve.Common.{
  ℕ, ◌*◌, ◌+◌, ◌≤◌, ◌≡◌, ◌⊎◌, ◌==◌, refl, arith, true, false, Option, none, some, String, List, [],
  ◌∷◌, All, length, map, str_eq, truthy, inl, inr, Bool-cases, if◌then◌else◌,
}
use agentserve.GpuValidate.Environs.{ReadsAs, arm_settings, load_settings-gateway_environ}
use agentserve.GpuValidate.Placements.{Spread, Packed, placement-shares}
use agentserve.GpuValidate.{
  Arguments, shares, memory_share, placement, decimal, endpoint, gateway_environ,
}
use agentserve.LiveReplay.{build_prompt, decimal_on}
use agentserve.MockVllm.Sessions.{session_reuses}
use agentserve.MockVllm.Wires.{Accounts, Reads, completed, streamed, chat-Accounts}
use agentserve.MockVllm.{
  account, account_all, chat, chat_stream, text_of, usage_of, pieces, prompt_of, cached_from,
}
use agentserve.Models.{RequestResult}
use agentserve.Replay.{round_ratio}
use agentserve.Replica.{store}
use agentserve.Result.{ok}
use agentserve.Settings.{
  Cast, load_settings, loaded, affinity_router, round_robin_router, adaptive_eviction, lru_eviction,
}
use agentserve.Tests.Data.{busy}
use agentserve.Tests.Serving.{question}
use agentserve.Tests.Streaming.{worker}
use agentserve.Tests.Traces.{draws}
use agentserve.Traces.Summaries.{TraceSummary, prompts_of, trace_summary}
use agentserve.Traces.Summarised.{trace_summary_total}
use agentserve.Traces.{generate_trace}
use Prim.Native.String.{◌++◌ as append}

session_reuses_example :
    let first = account (account_all [] ("other" ∷ [])) (build_prompt 50 "a" 0) in
    let next = account (account_all first.0 ("more" ∷ [])) (build_prompt 90 "a" 1) in
    (first.1 ≤ next.2) × (next.2 ≤ next.1)
session_reuses_example = session_reuses ("other" ∷ []) ("more" ∷ []) "a" 50 90 0 1 (omega arith)

-- How a chunk is written.
abbrev dumps : Piece → String
dumps piece = elim piece.content [ none ↦ "{usage}" | some text ↦ append "{" (append text "}") ]

abbrev spoken : String → Option Piece
spoken text = some (record { usage = none; content = some text })

abbrev loads : String → Option Piece
loads blob =
    if str_eq blob "{fix}"
    then spoken "fix"
    else if str_eq blob "{ed }"
    then spoken "ed "
    else if str_eq blob "{the }"
    then spoken "the "
    else if str_eq blob "{bug}"
    then spoken "bug"
    else some (record { usage = some (usage_of 4 0 ""); content = none })

chunks_read :
    All
      (Reads loads dumps)
      (pieces (usage_of (account [] "which tests fail").1 (account [] "which tests fail").2 ""))
unfolding pieces usage_of account prompt_of cached_from strip lstrip_by rstrip_by
chunks_read = ((refl, refl), ((refl, refl), ((refl, refl), ((refl, refl), ((refl, refl), tt)))))

question_text : text_of (question ∷ []) ≡ ok "which tests fail"
unfolding text_of lookup
question_text = refl

worker_named : endpoint_of worker 0 ≡ ok "u"
unfolding endpoint_of
worker_named = refl

chat-Accounts_example :
    let (cache, prompt, cached) = account [] "which tests fail" in
    let kept = store busy "a" (prompt + 5) (30 + 12) 900 in
    ((reply : Reply) × (chat [] (question ∷ []) ≡ ok (cache, reply))
      × ((completed loads dumps worker busy "a" 60 20 30 900 12 reply).1 ≡ kept)
      × ((result : RequestResult) × ((completed loads dumps worker busy "a" 60 20 30 900 12 reply).2
            ≡ ok result)
          × Accounts prompt cached result))
    × ((lines : List String) × (chat_stream dumps [] (question ∷ []) ≡ ok (cache, lines))
        × ((streamed loads dumps worker busy "a" 60 20 30 900 (λ n. n) 12 lines).0 ≡ kept)
        × ((result : RequestResult) × ((streamed loads dumps worker busy "a" 60 20 30 900
                (λ n. n)
                12
                lines).1.outcome
              ≡ ok (some result))
            × Accounts prompt cached result))
chat-Accounts_example =
    chat-Accounts loads dumps worker busy "a" 60 20 30 900 [] (question ∷ []) "which tests fail" "u"
      (λ n. n) 12 question_text worker_named chunks_read

-- Two workers on two GPUs, and three packed onto the first of two.
apart_share : memory_share (shares false 2 2) 2 2 ≡ ok 800
unfolding shares memory_share
apart_share = refl

packed_share : memory_share (shares false 3 2) 3 2 ≡ ok 533
unfolding shares memory_share round_ratio
packed_share = refl

placement-shares_example :
    ((shares false 3 2 ≡ false) × Spread 0 533 (placement false 3 2))
    ⊎ ((shares false 3 2 ≡ true) × Packed 2 3 533 (placement false 3 2))
placement-shares_example = placement-shares false 3 2 0 533 packed_share

abbrev arguments : Arguments
arguments = record {
  model = "m";
  kv_budget_tokens = 8;
  pin_threshold_ms = "2.0";
  offload_threshold_ms = "300.0";
}

abbrev int_of : Cast ℤ
int_of raw = if str_eq raw "8" then some (pos 8) else none

abbrev float_of : Cast Float
float_of raw =
    if str_eq raw "2.0"
    then some (thousandths 2_000)
    else if str_eq raw "300.0"
    then some (thousandths 300_000)
    else none

budget_read : int_of (decimal 8) ≡ some (pos 8)
unfolding decimal decimal_on
budget_read = refl

pin_read : ReadsAs float_of "2.0" 2_000
unfolding strip lstrip_by rstrip_by
pin_read = (refl, refl)

offload_read : ReadsAs float_of "300.0" 300_000
unfolding strip lstrip_by rstrip_by
offload_read = (refl, refl)

load_settings-gateway_environ_example :
    let endpoints = map endpoint (placement false 2 2) in
    (length endpoints ≡ 2)
    × (load_settings int_of float_of
          (gateway_environ (λ name. none) "/repo" arguments endpoints "round-robin" "lru")
        ≡ ok (
            loaded
              (arm_settings arguments endpoints 2_000 300_000 round_robin_router lru_eviction)))
    × (load_settings int_of float_of
          (gateway_environ (λ name. none) "/repo" arguments endpoints "affinity" "adaptive")
        ≡ ok (
            loaded
              (arm_settings arguments endpoints 2_000 300_000 affinity_router adaptive_eviction)))
load_settings-gateway_environ_example =
    load_settings-gateway_environ int_of float_of (λ name. none) "/repo" arguments
      (
        refl,
        (refl, (refl, (refl, (refl, (refl, (refl, (refl, (refl, (refl, (refl, (refl, tt))))))))))),
      )
      2_000 300_000 (omega arith) budget_read pin_read offload_read (omega arith) (omega arith)
      false 2 2 (omega arith)

tools_named : (i t : ℕ) → truthy (some (draws.tool i t)) ≡ true
tools_named i t = elim (Bool-cases (t == 1)) [ inl tests ↦ rw tests | inr search ↦ rw search ]

trace_summary_total_example :
    let traces = generate_trace draws 3 4_200 in
    (s : TraceSummary) × (trace_summary traces ≡ ok s)
    × (s.sessions ≡ 3)
    × (4 * 3 ≤ s.total_calls)
    × All (λ n. n ≤ s.max_prompt_tokens) (prompts_of traces)
    × (s.median_tool_gap_ms ≤ s.p90_tool_gap_ms)
trace_summary_total_example = trace_summary_total draws tools_named 3 4_200 (omega arith)

-- Every seed draws the same.
abbrev seed_of : ℕ → Seed
seed_of k = record {
  draws = draws;
  read_at = λ n. n;
  write_at = λ n. n;
  treatment_read_at = λ n. n + k;
  treatment_write_at = λ n. n + k;
}

benchmark_total_example :
    (t : Table) × (benchmark 4 150_000 3 4_200 2_000_000_000 seed_of 2 ≡ ok t)
    × IsComplete 3 4_200 (seeds_from seed_of 1 2) t
benchmark_total_example =
    benchmark_total 4 150_000 3 4_200 2_000_000_000 seed_of 1 tools_named (omega arith)
      (omega arith) (omega arith) (omega arith)
