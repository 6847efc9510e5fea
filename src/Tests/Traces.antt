-- ===== src/Tests/Traces.antt =====
-- bench/traces.py on three sessions.
use agentserve.Common.Int.{pos, negsuc}
use agentserve.Common.Sort.{IsSorted}
use agentserve.Common.{◌+◌, ◌*◌, ◌-◌, ◌==◌, ◌≡◌, refl, All, length, if◌then◌else◌}
use agentserve.LiveReplay.{decimal_on}
use agentserve.Traces.Shape.{IsSession, generate_trace_lem}
use agentserve.Traces.{Draws, session_name, earlier_arrival, generate_trace}

abbrev pub draws : Draws
draws = record {
  turns = λ i. if i == 0 then negsuc 2 else pos (i + 4);
  offset = λ i. if i == 1 then negsuc 99 else pos 40;
  output = λ i t. 90 + t;
  tool = λ i t. if t == 1 then "run_tests" else "grep";
  duration = λ i t name. 420_000;
  result = λ i t. 120 + i;
  arrival = λ i. 100 - 20 * i;
}

padded : session_name 37 ≡ "sess-0037"
unfolding session_name decimal_on
padded = refl

generate_trace_example :
    (length (generate_trace draws 3 4_200) ≡ 3)
    × All IsSession (generate_trace draws 3 4_200)
    × IsSorted earlier_arrival (generate_trace draws 3 4_200)
generate_trace_example = generate_trace_lem draws 3 4_200
