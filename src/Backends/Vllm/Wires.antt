-- ===== src/Backends/Vllm/Wires.antt =====
-- agentserve/backends/vllm.py: what `astream` makes of the lines that it reads.
use agentserve.Backends.Streams.{Stream}
use agentserve.Backends.Vllm.Streaming.{
  after_prefix, Piece, Wire, Reading, nothing_read, join, is_done, collect, read_blob, read_lines,
  end_stream, close_stream, read_wire, astream,
}
use agentserve.Backends.Vllm.{VllmBackend, Reply, endpoint_of, result_of}
use agentserve.Common.Text.{strip}
use agentserve.Common.{
  ℕ, ◌≤◌, ◌≡◌, refl, sym, ap, ◌∙◌, arith, subst, inl, inr, ◌==◌, String, Bool, true, Option, none,
  some, List, [], ◌∷◌, ◌++◌, All, Bool-cases, Option-cases, if◌then◌else◌,
}
use agentserve.Models.{RequestResult, latency_ms}
use agentserve.Replica.{Replica}
use agentserve.Result.{Result, ok, raise, Exception, ◌>>=◌}

-- A line that ends the stream.
abbrev pub Ends : String → Type 0
Ends line =
    (blob : String) × (after_prefix "data: " line ≡ some blob) × (is_done (strip blob) ≡ true)

module _ (loads : String → Option Piece) where
  read_lines_stop :
      (before after after' : List (String × ℕ)) (line : String) (at_ms : ℕ) (s : Reading)
      → Ends line
      → (read_lines loads (before ++ (line, at_ms) ∷ after) s
          ≡ read_lines loads (before ++ (line, at_ms) ∷ after') s)
        × ((read_lines loads (before ++ (line, at_ms) ∷ after') s).1 ≡ true)
  unfolding read_lines
  read_lines_stop [] after after' line at_ms s (blob, prefixed, ends) =
      rw (prefixed, read_lines, ends) (refl, refl)
  read_lines_stop ((l, t) ∷ before) after after' line at_ms s h =
      elim (Option-cases (after_prefix "data: " l)) [
        | inl other ↦ rw (other, read_lines) (read_lines_stop before after after' line at_ms s h)
        | inr (blob, prefixed) ↦ elim (Bool-cases (is_done (strip blob))) [
          | inl over ↦ rw (prefixed, read_lines, over) (refl, refl)
          | inr more ↦
              rw (prefixed, read_lines, more)
                (read_lines_stop before after after' line at_ms (read_blob loads (strip blob) t s)
                  h)
        ]
      ]

  -- The time to the first token is one of the times of the lines.
  collect_early :
      (content : Option String) (at_ms limit : ℕ) (s : Reading)
      → at_ms ≤ limit
      → s.ttft_ms ≤ limit
      → (collect content at_ms s).ttft_ms ≤ limit
  unfolding collect
  collect_early none at_ms limit s h k = k
  collect_early (some text) at_ms limit s h k = ground (arith, h, k)

  read_blob_early :
      (blob : String) (at_ms limit : ℕ) (s : Reading)
      → at_ms ≤ limit
      → s.ttft_ms ≤ limit
      → (read_blob loads blob at_ms s).ttft_ms ≤ limit
  unfolding read_blob
  read_blob_early blob at_ms limit s h k = elim (Option-cases (loads blob)) [
    | inl broken ↦ rw (broken, read_blob) k
    | inr (piece, parsed) ↦ rw (parsed, read_blob) (collect_early piece.content at_ms limit _ h k)
  ]

  read_lines_early :
      (lines : List (String × ℕ)) (limit : ℕ) (s : Reading)
      → All (λ l. l.1 ≤ limit) lines
      → s.ttft_ms ≤ limit
      → (read_lines loads lines s).0.ttft_ms ≤ limit
  unfolding read_lines
  read_lines_early [] limit s h k = k
  read_lines_early ((l, t) ∷ lines) limit s h k = elim (Option-cases (after_prefix "data: " l)) [
    | inl other ↦ rw (other, read_lines) (read_lines_early lines limit s h.1 k)
    | inr (blob, prefixed) ↦ elim (Bool-cases (is_done (strip blob))) [
      | inl over ↦ rw (prefixed, read_lines, over) k
      | inr more ↦
          rw (prefixed, read_lines, more)
            (read_lines_early lines limit _ h.1 (read_blob_early (strip blob) t limit s h.0 k))
    ]
  ]

end_stream-ok :
    (r : Replica) (stored : Replica × RequestResult) (texts : List String)
    (broken : Option Exception) (result : RequestResult)
    → (end_stream r stored texts broken).1.outcome ≡ ok (some result)
    → stored.1 ≡ result
unfolding end_stream
end_stream-ok r stored texts (some exc) result e = absurd (ground (arith, e))
end_stream-ok r stored texts none result e = let same : stored.1 ≡ result = cc in same

result_of_lem :
    (r : Replica) (session_id : String) (usage : Reply)
    (prompt_tokens output_tokens elapsed_ms ttft_ms now_ms predicted_return_ms : ℕ)
    → ttft_ms ≤ elapsed_ms
    → (latency_ms
          (result_of r session_id usage prompt_tokens output_tokens elapsed_ms ttft_ms now_ms
            predicted_return_ms).1
        ≡ elapsed_ms)
      × ((result_of r session_id usage prompt_tokens output_tokens elapsed_ms ttft_ms now_ms
            predicted_return_ms).1.text
          ≡ usage.content)
unfolding result_of latency_ms
result_of_lem r sid usage prompt output elapsed ttft now_ms predicted h = (omega (arith, h), refl)

end_stream-texts :
    (r : Replica) (stored : Replica × RequestResult) (texts : List String)
    (broken : Option Exception)
    → (end_stream r stored texts broken).1.texts ≡ texts
unfolding end_stream
end_stream-texts r stored texts (some exc) = refl
end_stream-texts r stored texts none = refl

module _ (loads : String → Option Piece) (r : Replica) (session_id : String)
    (prompt_tokens output_tokens now_ms predicted_return_ms : ℕ) where
  abbrev received : Result Wire → Replica × Stream
  received = read_wire loads r session_id prompt_tokens output_tokens now_ms predicted_return_ms

  close_stream_stop :
      (broken broken' : Option Exception) (lines lines' : List (String × ℕ)) (elapsed_ms : ℕ)
      (read read' : Reading × Bool)
      → read ≡ read'
      → read'.1 ≡ true
      → close_stream r session_id prompt_tokens output_tokens now_ms predicted_return_ms
          (record { lines = lines; broken = broken; elapsed_ms = elapsed_ms })
          read
        ≡ close_stream r session_id prompt_tokens output_tokens now_ms predicted_return_ms
            (record { lines = lines'; broken = broken'; elapsed_ms = elapsed_ms })
            read'
  unfolding close_stream
  close_stream_stop broken broken' lines lines' elapsed_ms read read' same over =
      rw (same, over) refl

  received-place :
      (place : Result String) (wire wire' : Wire)
      → received (ok wire) ≡ received (ok wire')
      → received (place >>= λ url. ok wire) ≡ received (place >>= λ url. ok wire')
  unfolding read_wire
  received-place (raise e) wire wire' same = refl
  received-place (ok url) wire wire' same = same

  close_stream_latency :
      (wire : Wire) (reading : Reading) (is_over : Bool) (result : RequestResult)
      → reading.ttft_ms ≤ wire.elapsed_ms
      → (close_stream r session_id prompt_tokens output_tokens now_ms predicted_return_ms wire
          (reading, is_over)).1.outcome
        ≡ ok (some result)
      → (latency_ms result ≡ wire.elapsed_ms)
        × (result.text
            ≡ join
                (close_stream r session_id prompt_tokens output_tokens now_ms predicted_return_ms
                  wire
                  (reading, is_over)).1.texts)
  unfolding close_stream
  close_stream_latency wire reading is_over result early e =
      let ttft_ms = (if reading.ttft_ms == 0 then wire.elapsed_ms else reading.ttft_ms) in
      let usage = record reading.usage { content = join reading.collected } in
      let broken = (if is_over then none else wire.broken) in
      let stored =
        result_of r session_id usage prompt_tokens output_tokens wire.elapsed_ms ttft_ms now_ms
          predicted_return_ms in
      let made = end_stream-ok r stored reading.collected broken result e in
      let (latency, text) =
        result_of_lem r session_id usage prompt_tokens output_tokens wire.elapsed_ms ttft_ms now_ms
          predicted_return_ms (ground (arith, early)) in
      (
        subst (λ (x : RequestResult). latency_ms x ≡ wire.elapsed_ms) made latency,
        subst (λ (x : RequestResult). x.text ≡ join reading.collected) made text
            ∙ sym (ap join (end_stream-texts r stored reading.collected broken)),
      )

module _ (loads : String → Option Piece) (b : VllmBackend) (r : Replica) (session_id : String)
    (prompt_tokens output_tokens now_ms predicted_return_ms : ℕ) where
  -- A stream over a wire, at whatever endpoint.
  abbrev pub streamed : Wire → Replica × Stream
  streamed wire =
      astream loads (λ url. ok wire) b r session_id prompt_tokens output_tokens now_ms
        predicted_return_ms

  -- What comes over the connection after the line that ends a stream, further lines or an
  -- exception, changes nothing of a stream.
  pub astream_stops_at_done :
      (before after after' : List (String × ℕ)) (line : String) (at_ms elapsed_ms : ℕ)
      (broken broken' : Option Exception)
      → Ends line
      → streamed (record {
        lines = before ++ (line, at_ms) ∷ after;
        broken = broken;
        elapsed_ms = elapsed_ms;
      })
        ≡ streamed (record {
          lines = before ++ (line, at_ms) ∷ after';
          broken = broken';
          elapsed_ms = elapsed_ms;
        })
  unfolding astream read_wire
  astream_stops_at_done before after after' line at_ms elapsed_ms broken broken' ends =
      let (same, over) = read_lines_stop loads before after after' line at_ms nothing_read ends in
      received-place loads r session_id prompt_tokens output_tokens now_ms predicted_return_ms
        (endpoint_of b r.id) _ _
        (close_stream_stop loads r session_id prompt_tokens output_tokens now_ms predicted_return_ms
          broken broken' (before ++ (line, at_ms) ∷ after) (before ++ (line, at_ms) ∷ after')
          elapsed_ms _ _ same over)

  received_latency :
      (place : Result String) (wire : Wire) (result : RequestResult)
      → All (λ l. l.1 ≤ wire.elapsed_ms) wire.lines
      → (read_wire loads r session_id prompt_tokens output_tokens now_ms predicted_return_ms
          (place >>= λ url. ok wire)).1.outcome
        ≡ ok (some result)
      → (latency_ms result ≡ wire.elapsed_ms)
        × (result.text
            ≡ join
                (read_wire loads r session_id prompt_tokens output_tokens now_ms predicted_return_ms
                  (place >>= λ url. ok wire)).1.texts)
  unfolding read_wire
  received_latency (raise exc) wire result timely e = absurd (ground (arith, e))
  received_latency (ok url) wire result timely e =
      let read = read_lines loads wire.lines nothing_read in
      close_stream_latency loads r session_id prompt_tokens output_tokens now_ms predicted_return_ms
        wire read.0 read.1 result
        (read_lines_early loads wire.lines wire.elapsed_ms nothing_read timely (omega arith)) e

  -- If no line is read after the connection is closed, the latency of the result of a stream is
  -- the time at which the connection is closed, and its text is the texts that were streamed,
  -- joined.
  pub astream_latency :
      (wire : Wire) (result : RequestResult)
      → All (λ l. l.1 ≤ wire.elapsed_ms) wire.lines
      → (streamed wire).1.outcome ≡ ok (some result)
      → (latency_ms result ≡ wire.elapsed_ms) × (result.text ≡ join (streamed wire).1.texts)
  unfolding astream
  astream_latency wire result timely e = received_latency (endpoint_of b r.id) wire result timely e
