-- ===== src/Gateway/Capacity.antt =====
-- agentserve/gateway.py over the simulated backend: the caches of the replicas across a request.
use agentserve.Backends.Simulated.{execute}
use agentserve.Backends.Simulated.Costs.{execute-IsBounded}
use agentserve.Common.{ℕ, String, Option, All}
use agentserve.Config.{HardwareProfile}
use agentserve.Gateway.Requests.{chat_completions-keeps}
use agentserve.Gateway.Streams.{whole, whole-keeps}
use agentserve.Gateway.{Gateway, Backend, Request, in_slot, chat_completions}
use agentserve.Replica.Steps.{IsConsistent}
use agentserve.Replica.Storing.{IsBounded}
use agentserve.Replica.{Replica, gpu_tokens, dram_tokens, prune, enter_slot, leave_slot}
use agentserve.Result.{ok}
use agentserve.State.{SessionStore}

-- The simulated backend as the gateway calls it: it never raises.
unfoldable pub simulated : HardwareProfile → Backend
simulated hw replica session_id prompt_tokens output_tokens now_ms predicted_return_ms =
    let (after, result) =
      execute hw replica session_id prompt_tokens output_tokens now_ms predicted_return_ms in
    (after, ok result)

-- Changes of the queue alone.
pub IsBounded-prune : (now_ms : ℕ) (r : Replica) → IsBounded r → IsBounded (prune r now_ms)
unfolding prune gpu_tokens dram_tokens
IsBounded-prune now_ms r b = record {
  consistent = record {
    gpu_distinct = b.consistent.gpu_distinct;
    dram_distinct = b.consistent.dram_distinct;
    gpu_keyed = b.consistent.gpu_keyed;
    dram_keyed = b.consistent.dram_keyed;
    disjoint = b.consistent.disjoint;
    dram_bounded = b.consistent.dram_bounded;
  };
  gpu_bounded = b.gpu_bounded;
}

pub IsConsistent-enter_slot : (r : Replica) → IsConsistent r → IsConsistent (enter_slot r)
unfolding enter_slot dram_tokens
IsConsistent-enter_slot r c = record {
  gpu_distinct = c.gpu_distinct;
  dram_distinct = c.dram_distinct;
  gpu_keyed = c.gpu_keyed;
  dram_keyed = c.dram_keyed;
  disjoint = c.disjoint;
  dram_bounded = c.dram_bounded;
}

pub IsBounded-enter_slot : (r : Replica) → IsBounded r → IsBounded (enter_slot r)
unfolding enter_slot gpu_tokens
IsBounded-enter_slot r b = record {
  consistent = IsConsistent-enter_slot r b.consistent;
  gpu_bounded = b.gpu_bounded;
}

pub IsBounded-leave_slot : (r : Replica) → IsBounded r → IsBounded (leave_slot r)
unfolding leave_slot gpu_tokens dram_tokens
IsBounded-leave_slot r b = record {
  consistent = record {
    gpu_distinct = b.consistent.gpu_distinct;
    dram_distinct = b.consistent.dram_distinct;
    gpu_keyed = b.consistent.gpu_keyed;
    dram_keyed = b.consistent.dram_keyed;
    disjoint = b.consistent.disjoint;
    dram_bounded = b.consistent.dram_bounded;
  };
  gpu_bounded = b.gpu_bounded;
}

module _ {S : Type 0} (ops : SessionStore S) (hw : HardwareProfile)
    (encoder : Option (String → ℕ)) where
  pub IsBounded-in_slot :
      (r : Replica) (session_id : String)
      (prompt_tokens output_tokens now_ms predicted_return_ms : ℕ)
      → IsBounded r
      → IsBounded
          (in_slot
            (simulated hw)
            r
            session_id
            prompt_tokens
            output_tokens
            now_ms
            predicted_return_ms).0
  unfolding simulated in_slot
  IsBounded-in_slot r sid prompt output now_ms predicted b = IsBounded-leave_slot _ (
      execute-IsBounded hw (enter_slot r) sid prompt output now_ms _
        (IsConsistent-enter_slot r b.consistent))

  -- Over the simulated backend, whatever request comes in whatever state of the router, the
  -- predictor and the session store: if the caches of all replicas are consistent and within their
  -- capacities before it, they are so after it.
  pub chat_completions-IsBounded :
      (g : Gateway S) (read_at write_at now_ms : ℕ) (request : Request)
      → All IsBounded g.replicas
      → All IsBounded
          (chat_completions ops
            (whole (simulated hw))
            encoder
            g
            read_at
            write_at
            now_ms
            request).0.replicas
  chat_completions-IsBounded g read_at write_at now_ms request h =
      chat_completions-keeps IsBounded IsBounded-prune ops (whole (simulated hw)) encoder
        IsBounded-in_slot
        (λ r sid prompt output now_ms predicted b.
          whole-keeps IsBounded (simulated hw) r sid prompt output now_ms predicted
            (IsBounded-in_slot r sid prompt output now_ms predicted b))
        g read_at write_at now_ms request h
