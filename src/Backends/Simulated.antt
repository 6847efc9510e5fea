-- ===== src/Backends/Simulated.antt =====
-- agentserve/backends/simulated.py: the deterministic cost model of a worker. The protocol of
-- agentserve/backends/base.py is the type of `execute`.
pub mod Costs
use agentserve.Common.{ℕ, ◌+◌, ◌-◌, ◌*◌, min, max, String, Bool, true, false, if◌then◌else◌}
use agentserve.Config.{HardwareProfile}
use agentserve.Models.{CacheTier, RequestResult}
use agentserve.Replica.{Replica, lookup_session, promote_from_dram, store}

-- The tokens of the prompt that the tier covers.
unfoldable pub reusable_tokens : CacheTier → ℕ → ℕ → ℕ
reusable_tokens CacheTier.miss cached_tokens prompt_tokens = 0
reusable_tokens _ cached_tokens prompt_tokens = min cached_tokens prompt_tokens

-- A DRAM hit pays for the restore and moves the entry.
unfoldable pub restore_ms_of : CacheTier → HardwareProfile → ℕ → ℕ
restore_ms_of CacheTier.dram hw reusable = reusable * hw.dram_restore_ms_per_token
restore_ms_of _ hw reusable = 0

unfoldable pub restored : CacheTier → Replica → String → Replica
restored CacheTier.dram replica session_id = promote_from_dram replica session_id
restored _ replica session_id = replica

-- `replica.free_at_ms = max(replica.free_at_ms, now_ms) + service_ms`
unfoldable pub occupy : Replica → ℕ → ℕ → Replica
occupy replica now_ms service_ms = record replica {
  free_at_ms = max replica.free_at_ms now_ms + service_ms;
}

unfoldable pub execute :
    HardwareProfile
    → Replica
    → String
    → (prompt_tokens output_tokens now_ms predicted_return_ms : ℕ) → Replica × RequestResult
unfolding reusable_tokens restore_ms_of restored occupy
execute hw replica session_id prompt_tokens output_tokens now_ms predicted_return_ms =
    let (tier, cached_tokens) = lookup_session replica session_id in
    let reusable = reusable_tokens tier cached_tokens prompt_tokens in
    let computed = prompt_tokens - reusable in
    let restore_ms = restore_ms_of tier hw reusable in
    let prefill_ms = computed * hw.prefill_ms_per_token in
    let decode_ms = output_tokens * hw.decode_ms_per_token in
    let queue_ms = replica.free_at_ms - now_ms in
    let service_ms = restore_ms + prefill_ms + decode_ms in
    let busy = occupy (restored tier replica session_id) now_ms service_ms in
    (
      store busy session_id (prompt_tokens + output_tokens) (now_ms + queue_ms + service_ms)
          predicted_return_ms,
      record {
        session_id = session_id;
        replica_id = replica.id;
        tier = tier;
        reused_tokens = reusable;
        computed_tokens = computed;
        prefill_ms = prefill_ms;
        decode_ms = decode_ms;
        queue_ms = queue_ms;
        restore_ms = restore_ms;
        text = "";
        completion_tokens = 0;
      },
    )
