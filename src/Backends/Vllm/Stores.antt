-- ===== src/Backends/Vllm/Stores.antt =====
-- agentserve/backends/vllm.py: what a call changes of the replica that it is scheduled on.
use agentserve.Backends.Vllm.Streaming.{
  Piece, Wire, Reading, nothing_read, end_stream, close_stream, read_lines, read_wire, astream,
  join,
}
use agentserve.Backends.Vllm.{
  VllmBackend, Client, Reply, result_of, endpoint_of, try_worker, finish, attempts, fallbacks,
  aexecute,
}
use agentserve.Common.{
  ℕ, ◌+◌, ◌≡◌, refl, inl, inr, String, Option, none, some, List, [], ◌∷◌, Bool, ◌==◌, if◌then◌else◌,
}
use agentserve.Models.{RequestResult}
use agentserve.Replica.Steps.{SameRest, SameRest-refl}
use agentserve.Replica.Storing.{IsBounded, store-SameRest, store-IsBounded}
use agentserve.Replica.{Replica, store}
use agentserve.Result.{Result, ok, raise, Exception, ◌>>=◌, Result-cases}

-- One entry is stored, or nothing is changed.
pub data StoresOnce (r q : Replica) : Type 0 where
  untouched : q ≡ r → StoresOnce r q
  stored :
      (session_id : String) (tokens now_ms predicted_return_ms : ℕ)
      → q ≡ store r session_id tokens now_ms predicted_return_ms
      → StoresOnce r q

pub StoresOnce-SameRest : (r q : Replica) → IsBounded r → StoresOnce r q → SameRest r q
StoresOnce-SameRest r q b (untouched e) = rw e (SameRest-refl r)
StoresOnce-SameRest r q b (stored sid tokens now_ms back_ms e) =
    rw e (store-SameRest r b.consistent sid tokens now_ms back_ms)

pub StoresOnce-IsBounded : (r q : Replica) → IsBounded r → StoresOnce r q → IsBounded q
StoresOnce-IsBounded r q b (untouched e) = rw e b
StoresOnce-IsBounded r q b (stored sid tokens now_ms back_ms e) =
    rw e (store-IsBounded r b.consistent sid tokens now_ms back_ms)

result_of-StoresOnce :
    (r : Replica) (sid : String) (usage : Reply)
    (prompt completion elapsed_ms ttft_ms now_ms back_ms : ℕ)
    → StoresOnce r (result_of r sid usage prompt completion elapsed_ms ttft_ms now_ms back_ms).0
unfolding result_of
result_of-StoresOnce r sid usage prompt completion elapsed_ms ttft_ms now_ms back_ms =
    stored sid _ _ back_ms refl

module _ (client : Client) (r : Replica) (sid : String) (prompt output now_ms back_ms : ℕ) where
  finish-StoresOnce :
      (b : VllmBackend) (attempt : ℕ) (answer : client.Response × ℕ)
      → StoresOnce r (finish client b r sid prompt output now_ms back_ms attempt answer).1
  unfolding finish
  finish-StoresOnce b attempt answer = elim (Result-cases (client.decode answer.0)) [
    | inl (e, raised) ↦ untouched (rw (raised, finish))
    | inr (usage, decoded) ↦
        rw (decoded, finish)
          (result_of-StoresOnce r sid usage prompt output answer.1 answer.1 now_ms back_ms)
  ]

  attempts-StoresOnce :
      (b : VllmBackend) (attempt : ℕ) (targets : List ℕ)
      → StoresOnce r (attempts client b r sid prompt output now_ms back_ms attempt targets).1
  unfolding attempts
  attempts-StoresOnce b attempt [] = untouched refl
  attempts-StoresOnce b attempt (target ∷ targets) =
      elim (Result-cases (try_worker client b attempt target)) [
        | inl (e, raised) ↦ rw (raised, attempts) (attempts-StoresOnce b (attempt + 1) targets)
        | inr (answer, answered) ↦ rw (answered, attempts) (finish-StoresOnce b attempt answer)
      ]

  pub aexecute-StoresOnce :
      (b : VllmBackend) → StoresOnce r (aexecute client b r sid prompt output now_ms back_ms).1
  unfolding aexecute
  aexecute-StoresOnce b = attempts-StoresOnce b 0 (fallbacks b r.id)

module _ (loads : String → Option Piece) (r : Replica) (sid : String)
    (prompt output now_ms back_ms : ℕ) where
  end_stream-StoresOnce :
      (made : Replica × RequestResult) (texts : List String) (broken : Option Exception)
      → StoresOnce r made.0
      → StoresOnce r (end_stream r made texts broken).0
  unfolding end_stream
  end_stream-StoresOnce made texts none h = h
  end_stream-StoresOnce made texts (some e) h = untouched refl

  close_stream-StoresOnce :
      (wire : Wire) (read : Reading × Bool)
      → StoresOnce r (close_stream r sid prompt output now_ms back_ms wire read).0
  unfolding close_stream
  close_stream-StoresOnce wire read =
      let ttft_ms = (if read.0.ttft_ms == 0 then wire.elapsed_ms else read.0.ttft_ms) in
      let usage : Reply = record read.0.usage { content = join read.0.collected } in
      end_stream-StoresOnce
        (result_of r sid usage prompt output wire.elapsed_ms ttft_ms now_ms back_ms)
        read.0.collected (if read.1 then none else wire.broken)
        (result_of-StoresOnce r sid usage prompt output wire.elapsed_ms ttft_ms now_ms back_ms)

  read_wire-StoresOnce :
      (wire : Result Wire)
      → StoresOnce r (read_wire loads r sid prompt output now_ms back_ms wire).0
  unfolding read_wire
  read_wire-StoresOnce (raise e) = untouched refl
  read_wire-StoresOnce (ok wire) =
      close_stream-StoresOnce wire (read_lines loads wire.lines nothing_read)

  pub astream-StoresOnce :
      (connect : String → Result Wire) (b : VllmBackend)
      → StoresOnce r (astream loads connect b r sid prompt output now_ms back_ms).0
  unfolding astream
  astream-StoresOnce connect b = read_wire-StoresOnce (endpoint_of b r.id >>= connect)
