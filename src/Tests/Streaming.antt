-- ===== src/Tests/Streaming.antt =====
-- agentserve/backends/vllm.py: a stream of four lines.
use agentserve.Backends.Vllm.Streaming.{Piece, Wire, after_prefix, astream, join}
use agentserve.Backends.Vllm.Wires.{Ends, streamed, astream_stops_at_done, astream_latency}
use agentserve.Backends.Vllm.{VllmBackend}
use agentserve.Common.Text.{strip, lstrip_by, rstrip_by}
use agentserve.Common.{
  ℕ, ◌≡◌, refl, arith, String, none, some, Option, List, [], ◌∷◌, ◌++◌, str_eq, if◌then◌else◌,
}
use agentserve.Models.{RequestResult, CacheTier, latency_ms}
use agentserve.Result.{ok, client_error}
use agentserve.Tests.Data.{busy}

abbrev pub worker : VllmBackend
worker = record { endpoints = "u" ∷ []; model = "m"; max_retries = 1; failovers = 0 }

-- Each text stands for a chunk with that content.
abbrev pub loads : String → Option Piece
loads blob = if str_eq blob "{" then none else some (record { usage = none; content = some blob })

abbrev lines : List (String × ℕ)
lines = (": ping", 3) ∷ ("data: two ", 8) ∷ ("data: {", 9) ∷ ("data: files", 12) ∷ []

abbrev pub wire : Wire
wire = record { lines = lines; broken = none; elapsed_ms = 15 }

done-Ends : Ends "data: [DONE] "
unfolding after_prefix strip lstrip_by rstrip_by
done-Ends = (_, refl, refl)

astream_stops_at_done_example :
    streamed loads worker busy "a" 60 20 30 900
      (record { lines = lines ++ ("data: [DONE] ", 14) ∷ []; broken = none; elapsed_ms = 15 })
    ≡ streamed loads worker busy "a" 60 20 30 900 (record {
      lines = lines ++ ("data: [DONE] ", 14) ∷ ("data: more", 20) ∷ [];
      broken = some client_error;
      elapsed_ms = 15;
    })
astream_stops_at_done_example =
    astream_stops_at_done loads worker busy "a" 60 20 30 900 lines [] (("data: more", 20) ∷ [])
      "data: [DONE] " 14 15 none (some client_error) done-Ends

abbrev answer : RequestResult
answer = record {
  session_id = "a";
  replica_id = 0;
  tier = CacheTier.miss;
  reused_tokens = 0;
  computed_tokens = 60;
  prefill_ms = 8;
  decode_ms = 7;
  queue_ms = 0;
  restore_ms = 0;
  text = "twofiles";
  completion_tokens = 20;
}

streamed-wire : (streamed loads worker busy "a" 60 20 30 900 wire).1.outcome ≡ ok (some answer)
unfolding astream
streamed-wire = refl

astream_latency_example :
    (latency_ms answer ≡ 15)
    × (answer.text ≡ join (streamed loads worker busy "a" 60 20 30 900 wire).1.texts)
astream_latency_example =
    astream_latency loads worker busy "a" 60 20 30 900 wire answer (omega arith) streamed-wire
