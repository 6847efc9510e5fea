-- ===== src/Gateway/Slots.antt =====
-- agentserve/gateway.py: the slots of the replicas across a request.
use agentserve.Common.{ℕ, ◌≡◌, arith, String, Option, All}
use agentserve.Gateway.Requests.{chat_completions-keeps}
use agentserve.Gateway.{
  Gateway, Worker, Request, in_slot, stream_of, stream_in_slot, chat_completions,
}
use agentserve.Replica.{Replica, prune, enter_slot, leave_slot}
use agentserve.State.{SessionStore}

-- No request is inside of a slot of the replica.
abbrev pub HasNoOpenSlot : Replica → Type 0
HasNoOpenSlot r = r.active ≡ 0

HasNoOpenSlot-prune : (now_ms : ℕ) (r : Replica) → HasNoOpenSlot r → HasNoOpenSlot (prune r now_ms)
unfolding prune
HasNoOpenSlot-prune now_ms r h = h

module _ {S : Type 0} (ops : SessionStore S) (worker : Worker) (encoder : Option (String → ℕ))
    (run_kept : (r : Replica) (session_id : String)
        (prompt_tokens output_tokens now_ms predicted_return_ms : ℕ)
      → (worker.run r session_id prompt_tokens output_tokens now_ms predicted_return_ms).0.active
        ≡ r.active)
    (stream_kept : (r : Replica) (session_id : String)
        (prompt_tokens output_tokens now_ms predicted_return_ms : ℕ)
      → (stream_of worker r session_id prompt_tokens output_tokens now_ms
          predicted_return_ms).0.active
        ≡ r.active) where
  HasNoOpenSlot-in_slot :
      (r : Replica) (session_id : String)
      (prompt_tokens output_tokens now_ms predicted_return_ms : ℕ)
      → HasNoOpenSlot r
      → HasNoOpenSlot
          (in_slot worker.run r session_id prompt_tokens output_tokens now_ms predicted_return_ms).0
  unfolding in_slot enter_slot leave_slot
  HasNoOpenSlot-in_slot r sid prompt output now_ms predicted h =
      omega (arith, run_kept (enter_slot r) sid prompt output now_ms predicted)

  HasNoOpenSlot-stream_in_slot :
      (r : Replica) (session_id : String)
      (prompt_tokens output_tokens now_ms predicted_return_ms : ℕ)
      → HasNoOpenSlot r
      → HasNoOpenSlot
          (stream_in_slot worker r session_id prompt_tokens output_tokens now_ms
            predicted_return_ms).0
  unfolding stream_in_slot enter_slot leave_slot
  HasNoOpenSlot-stream_in_slot r sid prompt output now_ms predicted h =
      omega (arith, stream_kept (enter_slot r) sid prompt output now_ms predicted)

  -- Over any backend whose calls and streams leave `active` alone, whether they succeed or raise:
  -- if no slot of any replica is open before a request, none is open after it, whatever the
  -- request and the state of the gateway.
  pub chat_completions-HasNoOpenSlot :
      (g : Gateway S) (read_at write_at now_ms : ℕ) (request : Request)
      → All HasNoOpenSlot g.replicas
      → All HasNoOpenSlot
          (chat_completions ops worker encoder g read_at write_at now_ms request).0.replicas
  chat_completions-HasNoOpenSlot g read_at write_at now_ms request h =
      chat_completions-keeps HasNoOpenSlot HasNoOpenSlot-prune ops worker encoder
        HasNoOpenSlot-in_slot HasNoOpenSlot-stream_in_slot g read_at write_at now_ms request h
