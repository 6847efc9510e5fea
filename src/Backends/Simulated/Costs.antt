-- ===== src/Backends/Simulated/Costs.antt =====
-- agentserve/backends/simulated.py: what a call costs, and what it leaves on the replica.
use agentserve.Backends.Simulated.{reusable_tokens, restore_ms_of, restored, occupy, execute}
use agentserve.Common.{ℕ, ◌+◌, ◌-◌, ◌*◌, ◌≤◌, ◌≡◌, ◌∙◌, ap, arith, String}
use agentserve.Config.{HardwareProfile}
use agentserve.Models.{CacheTier, RequestResult, latency_ms}
use agentserve.Replica.Steps.{IsConsistent, promote_from_dram-IsConsistent}
use agentserve.Replica.Storing.{IsBounded, store-IsBounded, store-SameRest}
use agentserve.Replica.{Replica, dram_tokens, lookup_session, promote_from_dram}
use native.Mathlib.Nat.{mul-le-mul_left}

reusable_tokens_bounds :
    (t : CacheTier) (cached prompt : ℕ)
    → (reusable_tokens t cached prompt ≤ prompt) × (reusable_tokens t cached prompt ≤ cached)
unfolding reusable_tokens
reusable_tokens_bounds CacheTier.miss cached prompt = omega arith
reusable_tokens_bounds _ cached prompt = omega arith

reusable_tokens_miss :
    (t : CacheTier) (cached prompt : ℕ) → t ≡ CacheTier.miss → reusable_tokens t cached prompt ≡ 0
unfolding reusable_tokens
reusable_tokens_miss t cached prompt e = ground (arith, e)

restore_ms_of-le :
    (t : CacheTier) (hw : HardwareProfile) (n : ℕ)
    → hw.dram_restore_ms_per_token ≤ hw.prefill_ms_per_token
    → restore_ms_of t hw n ≤ n * hw.prefill_ms_per_token
unfolding restore_ms_of
restore_ms_of-le CacheTier.dram hw n h = mul-le-mul_left n h
restore_ms_of-le _ hw n h = omega arith

restored-hw : (t : CacheTier) (r : Replica) (k : String) → (restored t r k).hw ≡ r.hw
unfolding restored promote_from_dram
restored-hw t r k = ground arith

restored-free_at_ms :
    (t : CacheTier) (r : Replica) (k : String) → (restored t r k).free_at_ms ≡ r.free_at_ms
unfolding restored promote_from_dram
restored-free_at_ms t r k = ground arith

restored-slots :
    (t : CacheTier) (r : Replica) (k : String)
    → ((restored t r k).id ≡ r.id)
      × ((restored t r k).active ≡ r.active)
      × ((restored t r k).peak_active ≡ r.peak_active)
unfolding restored promote_from_dram
restored-slots t r k = ground arith

module _ (hw : HardwareProfile) (r : Replica) (session_id : String)
    (prompt_tokens output_tokens now_ms predicted_return_ms : ℕ) where
  abbrev pub served : Replica × RequestResult
  served = execute hw r session_id prompt_tokens output_tokens now_ms predicted_return_ms

  -- Each prompt token of a call is either reused or computed, no more are reused than the cache
  -- covers, and a miss reuses none.
  pub execute_tokens :
      (served.1.reused_tokens + served.1.computed_tokens ≡ prompt_tokens)
      × (served.1.reused_tokens ≤ (lookup_session r session_id).1)
      × (served.1.tier ≡ CacheTier.miss → served.1.reused_tokens ≡ 0)
  unfolding execute
  execute_tokens =
      let (tier, cached) = lookup_session r session_id in
      let bounds = reusable_tokens_bounds tier cached prompt_tokens in
      (omega arith, bounds.1, reusable_tokens_miss tier cached prompt_tokens)

  -- If a restore costs no more per token than a prefill, no call costs more than it would without
  -- any cache.
  pub execute-le_cold :
      hw.dram_restore_ms_per_token ≤ hw.prefill_ms_per_token
      → served.1.restore_ms + served.1.prefill_ms + served.1.decode_ms
        ≤ prompt_tokens * hw.prefill_ms_per_token + output_tokens * hw.decode_ms_per_token
  unfolding execute
  execute-le_cold cheap =
      let (tier, cached) = lookup_session r session_id in
      let reusable = reusable_tokens tier cached prompt_tokens in
      let bounds = reusable_tokens_bounds tier cached prompt_tokens in
      let parts : reusable + (prompt_tokens - reusable) ≡ prompt_tokens = omega arith in
      omega (
        arith,
        restore_ms_of-le tier hw reusable cheap,
        ap (λ (t : ℕ). t * hw.prefill_ms_per_token) parts,
      )

  -- From a consistent replica.
  restored-IsConsistent : (t : CacheTier) → IsConsistent r → IsConsistent (restored t r session_id)
  unfolding restored
  restored-IsConsistent CacheTier.gpu c = c
  restored-IsConsistent CacheTier.dram c = promote_from_dram-IsConsistent r session_id c
  restored-IsConsistent CacheTier.miss c = c

  occupy-IsConsistent :
      (q : Replica) (service : ℕ) → IsConsistent q → IsConsistent (occupy q now_ms service)
  unfolding occupy dram_tokens
  occupy-IsConsistent q service c = record {
    gpu_distinct = c.gpu_distinct;
    dram_distinct = c.dram_distinct;
    gpu_keyed = c.gpu_keyed;
    dram_keyed = c.dram_keyed;
    disjoint = c.disjoint;
    dram_bounded = c.dram_bounded;
  }

  busy-IsConsistent :
      (service : ℕ)
      → IsConsistent r
      → IsConsistent (occupy (restored (lookup_session r session_id).0 r session_id) now_ms service)
  busy-IsConsistent service c = occupy-IsConsistent _ service (restored-IsConsistent _ c)

  -- A call keeps both tiers of a consistent replica within their capacities.
  pub execute-IsBounded : IsConsistent r → IsBounded served.0
  unfolding execute
  execute-IsBounded c =
      store-IsBounded _ (busy-IsConsistent _ c) session_id (prompt_tokens + output_tokens) _
        predicted_return_ms

  -- On a consistent replica, the replica's free time after a call is the time of the call and its
  -- latency.
  pub execute_free_at : IsConsistent r → served.0.free_at_ms ≡ now_ms + latency_ms served.1
  unfolding execute latency_ms occupy
  execute_free_at c =
      (store-SameRest _ (busy-IsConsistent _ c) session_id (prompt_tokens + output_tokens) _
        predicted_return_ms).free_at_ms
      ∙ omega (arith, restored-free_at_ms (lookup_session r session_id).0 r session_id)

  pub execute-hw : IsConsistent r → served.0.hw ≡ r.hw
  unfolding execute occupy
  execute-hw c =
      (store-SameRest _ (busy-IsConsistent _ c) session_id (prompt_tokens + output_tokens) _
        predicted_return_ms).hw
      ∙ restored-hw (lookup_session r session_id).0 r session_id

  pub execute-slots :
      IsConsistent r
      → (served.0.id ≡ r.id) × (served.0.active ≡ r.active) × (served.0.peak_active ≡ r.peak_active)
  unfolding execute occupy
  execute-slots c =
      let (tier, cached) = lookup_session r session_id in
      let kept = restored-slots tier r session_id in
      let stored =
        store-SameRest _ (busy-IsConsistent _ c) session_id (prompt_tokens + output_tokens) _
          predicted_return_ms in
      (stored.id ∙ kept.0, stored.active ∙ kept.1, stored.peak_active ∙ kept.2)
