-- ===== src/Gateway/Interleaved/Caches.antt =====
-- agentserve/gateway.py over both backends: the caches of the replicas while requests interleave. Each
-- call of the vLLM adapter has its own HTTP client and connection.
use agentserve.Backends.Vllm.Streaming.{Piece, Wire, astream}
use agentserve.Backends.Vllm.Stores.{
  StoresOnce, StoresOnce-SameRest, StoresOnce-IsBounded, aexecute-StoresOnce, astream-StoresOnce,
}
use agentserve.Backends.Vllm.{VllmBackend, Client, aexecute}
use agentserve.Common.Positions.{AllAt, AllAt-with_All}
use agentserve.Common.{
  Bool-cases, inl, inr, ℕ, ◌+◌, suc, ◌≡◌, arith, String, Option, some, List, [], All,
}
use agentserve.Backends.Simulated.Costs.{execute-IsBounded, execute-slots}
use agentserve.Backends.Simulated.{execute}
use agentserve.Config.{HardwareProfile}
use agentserve.Gateway.Streams.{whole}
use agentserve.Gateway.Capacity.{
  simulated, IsBounded-prune, IsBounded-enter_slot, IsBounded-leave_slot,
}
use agentserve.Gateway.Interleaved.Counts.{
  IsFresh, started, call_backend-relates, enter_slot-CountsSlots, leave_slot-CountsSlots,
}
use agentserve.Gateway.Interleaved.Invariants.{Holds, interleave-Everywhere}
use agentserve.Gateway.Interleaved.{Job, LoopEvent, call_backend, interleave, open_requests}
use agentserve.Gateway.{Gateway, Worker, stream_of, as_stream}
use agentserve.Replica.Slots.{CountsSlots}
use agentserve.Replica.Storing.{IsBounded}
use agentserve.Replica.{Replica, prune}
use agentserve.Result.{Result}
use agentserve.State.{SessionStore}

-- What a call of the backend meets outside: the client of a completion, and the connection of a
-- stream.
pub record Wiring : Type 1 where
  pub client : Client
  pub connect : String → Result Wire

-- The adapter as the gateway calls it. Its count of failovers is left out, since no call reads it.
unfoldable pub vllm_worker : (String → Option Piece) → VllmBackend → Wiring → Worker
vllm_worker loads b wiring = record {
  run = λ r sid prompt output now_ms back_ms.
      let (b', after, result) = aexecute wiring.client b r sid prompt output now_ms back_ms in
      (after, result);
  astream = some (astream loads wiring.connect b);
}

-- In order, with as many requests inside of its slots.
abbrev pub Healthy : ℕ → Replica → Type 0
Healthy n r = CountsSlots r n × IsBounded r

module _ (loads : String → Option Piece) (b : VllmBackend) (wiring : Wiring) where
  call_backend-StoresOnce :
      (job : Job) (r : Replica) → StoresOnce r (call_backend (vllm_worker loads b wiring) job r).0
  unfolding vllm_worker stream_of
  call_backend-StoresOnce =
      call_backend-relates StoresOnce (vllm_worker loads b wiring)
        (λ r sid prompt output now_ms back_ms.
          aexecute-StoresOnce wiring.client r sid prompt output now_ms back_ms b)
        (λ r sid prompt output now_ms back_ms.
          astream-StoresOnce loads r sid prompt output now_ms back_ms wiring.connect b)

-- A call of the backend keeps the replica's number, its slots and its caches.
abbrev pub CallKeeps : Worker → Job → ℕ → Replica → Type 0
CallKeeps worker job n r =
    ((call_backend worker job r).0.id ≡ r.id) × Healthy n (call_backend worker job r).0

pub vllm_worker-CallKeeps :
    (loads : String → Option Piece) (b : VllmBackend) (wiring : Wiring) (job : Job) (n : ℕ)
    (r : Replica)
    → Healthy n r
    → CallKeeps (vllm_worker loads b wiring) job n r
vllm_worker-CallKeeps loads b wiring job n r h =
    let once = call_backend-StoresOnce loads b wiring job r in
    let rest = StoresOnce-SameRest r _ h.1 once in
    (
      rest.id,
      (omega (arith, h.0, rest.active, rest.peak_active), StoresOnce-IsBounded r _ h.1 once),
    )

simulated-replica :
    (hw : HardwareProfile) (job : Job) (r : Replica)
    → (call_backend (whole (simulated hw)) job r).0
      ≡ (execute hw r job.session_id job.prompt_tokens job.max_tokens job.now_ms
          (job.now_ms + job.gap_ms)).0
unfolding call_backend stream_of as_stream simulated
simulated-replica hw job r = elim (Bool-cases job.wants_stream) [
  | inl streams ↦ rw streams
  | inr waits ↦ rw waits
]

pub simulated-CallKeeps :
    (hw : HardwareProfile) (job : Job) (n : ℕ) (r : Replica)
    → Healthy n r
    → CallKeeps (whole (simulated hw)) job n r
simulated-CallKeeps hw job n r h =
    let back_ms = job.now_ms + job.gap_ms in
    let slots =
      execute-slots hw r job.session_id job.prompt_tokens job.max_tokens job.now_ms back_ms
        h.1.consistent in
    let bounded =
      execute-IsBounded hw r job.session_id job.prompt_tokens job.max_tokens job.now_ms back_ms
        h.1.consistent in
    rw (simulated-replica hw job r) (slots.0, (omega (arith, h.0, slots.1, slots.2), bounded))

module _ {S : Type 0} (ops : SessionStore S) (encoder : Option (String → ℕ)) (workers : ℕ → Worker)
    (call_keeps : (k : ℕ) (job : Job) (n : ℕ) (r : Replica)
      → Healthy n r
      → CallKeeps (workers k) job n r) where
  pub interleave-Healthy :
      (g : Gateway S) (events : List LoopEvent)
      → AllAt IsFresh 0 g.replicas
      → All IsBounded g.replicas
      → let loop = interleave workers ops encoder (started g) events in
        AllAt (λ i r. (r.id ≡ i) × Healthy (open_requests i loop.jobs) r) 0 loop.gateway.replicas
  unfolding open_requests
  interleave-Healthy g events fresh bounded =
      interleave-Everywhere Healthy
        (λ now_ms n r h. (unfold prune in h.0, IsBounded-prune now_ms r h.1))
        (λ n r h. (enter_slot-CountsSlots n r h.0, IsBounded-enter_slot r h.1))
        (λ n r h. (leave_slot-CountsSlots n r h.0, IsBounded-leave_slot r h.1)) workers
        (λ k job n r h. call_keeps k job (suc n) r h) ops encoder (started g) events
        (AllAt-with_All IsFresh IsBounded (Holds Healthy []) 0 g.replicas
          (λ i r h p. (h.0, (omega (arith, h.1), p))) fresh bounded)
