-- ===== src/Gateway/Interleaved/Counts.antt =====
-- agentserve/gateway.py: the slots of the replicas while requests interleave.
use agentserve.Common.Positions.{AllAt, AllAt-imp}
use agentserve.Common.{ℕ, suc, ◌+◌, ◌≡◌, arith, inl, inr, String, Option, List, [], Bool-cases}
use agentserve.Gateway.Interleaved.Invariants.{Holds, interleave-Everywhere}
use agentserve.Gateway.Interleaved.{
  Job, LoopEvent, EventLoop, call_backend, interleave, open_requests,
}
use agentserve.Gateway.{Gateway, Worker, stream_of}
use agentserve.Replica.Slots.{CountsSlots}
use agentserve.Replica.{Replica, prune, enter_slot, leave_slot}
use agentserve.State.{SessionStore}

-- A replica of the same number, with as many requests inside of a slot.
abbrev pub SameSlots : Replica → Replica → Type 0
SameSlots r q = (q.id ≡ r.id) × (q.active ≡ r.active) × (q.peak_active ≡ r.peak_active)

-- No request has come, and each replica stands at its number.
abbrev pub IsFresh : ℕ → Replica → Type 0
IsFresh i r = (r.id ≡ i) × (r.active ≡ 0)

-- No request has come yet.
abbrev pub started : {S : Type 0} → Gateway S → EventLoop S
started g = record { gateway = g; jobs = [] }

module _ {κ} (P : Replica → Replica → Type κ) (worker : Worker)
    (run_keeps : (r : Replica) (session_id : String)
        (prompt_tokens output_tokens now_ms predicted_return_ms : ℕ)
      → P r (worker.run r session_id prompt_tokens output_tokens now_ms predicted_return_ms).0)
    (stream_keeps : (r : Replica) (session_id : String)
        (prompt_tokens output_tokens now_ms predicted_return_ms : ℕ)
      → P r
          (stream_of worker r session_id prompt_tokens output_tokens now_ms
            predicted_return_ms).0) where
  -- What holds of both kinds of calls.
  pub call_backend-relates : (job : Job) (r : Replica) → P r (call_backend worker job r).0
  unfolding call_backend
  call_backend-relates job r = elim (Bool-cases job.wants_stream) [
    | inl streams ↦ rw streams (
        stream_keeps r job.session_id job.prompt_tokens job.max_tokens job.now_ms
          (job.now_ms + job.gap_ms))
    | inr waits ↦ rw waits (
        run_keeps r job.session_id job.prompt_tokens job.max_tokens job.now_ms
          (job.now_ms + job.gap_ms))
  ]

pub prune-CountsSlots :
    (now_ms n : ℕ) (r : Replica) → CountsSlots r n → CountsSlots (prune r now_ms) n
unfolding prune
prune-CountsSlots now_ms n r h = h

pub enter_slot-CountsSlots :
    (n : ℕ) (r : Replica) → CountsSlots r n → CountsSlots (enter_slot r) (suc n)
unfolding enter_slot
enter_slot-CountsSlots n r h = omega (arith, h)

pub leave_slot-CountsSlots :
    (n : ℕ) (r : Replica) → CountsSlots r (suc n) → CountsSlots (leave_slot r) n
unfolding leave_slot
leave_slot-CountsSlots n r h = omega (arith, h)

module _ {S : Type 0} (ops : SessionStore S) (encoder : Option (String → ℕ)) (workers : ℕ → Worker)
    (run_kept : (k : ℕ) (r : Replica) (session_id : String)
        (prompt_tokens output_tokens now_ms predicted_return_ms : ℕ)
      → SameSlots r
          ((workers k).run r session_id prompt_tokens output_tokens now_ms predicted_return_ms).0)
    (stream_kept : (k : ℕ) (r : Replica) (session_id : String)
        (prompt_tokens output_tokens now_ms predicted_return_ms : ℕ)
      → SameSlots r
          (stream_of
            (workers k)
            r
            session_id
            prompt_tokens
            output_tokens
            now_ms
            predicted_return_ms).0) where
  pub call_kept : (k : ℕ) (job : Job) (r : Replica) → SameSlots r (call_backend (workers k) job r).0
  call_kept k = call_backend-relates SameSlots (workers k) (run_kept k) (stream_kept k)

  -- Over any backend that leaves the number and the slots of a replica alone, and for any
  -- interleaving of requests, of their turns and of clients that leave, from a gateway whose
  -- replicas stand at their numbers with no open slot: each replica still stands at its number,
  -- its `active` is the number of requests inside of a slot of it, and `peak_active` is no
  -- smaller.
  pub interleave-CountsSlots :
      (g : Gateway S) (events : List LoopEvent)
      → AllAt IsFresh 0 g.replicas
      → let loop = interleave workers ops encoder (started g) events in
        AllAt
          (λ i r. (r.id ≡ i) × CountsSlots r (open_requests i loop.jobs))
          0
          loop.gateway.replicas
  unfolding open_requests
  interleave-CountsSlots g events h =
      interleave-Everywhere (λ n r. CountsSlots r n) prune-CountsSlots enter_slot-CountsSlots
        leave_slot-CountsSlots workers
        (λ k job n r p.
          ((call_kept k job r).0, omega (arith, p, (call_kept k job r).1, (call_kept k job r).2)))
        ops encoder (started g) events
        (AllAt-imp IsFresh (Holds (λ n r. CountsSlots r n) []) 0 g.replicas
          (λ i r fresh. (fresh.0, omega (arith, fresh.1))) h)
