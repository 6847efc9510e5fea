-- ===== src/Replica/Storing.antt =====
-- agentserve/replica.py: what `store` leaves behind.
use agentserve.Common.Dict.Keys.{length-insert}
use agentserve.Common.Dict.Laws.{contains-insert_self}
use agentserve.Common.Dict.{erase, values}
use agentserve.Common.{ℕ, ◌+◌, ◌≤◌, ◌≡◌, ◌∙◌, refl, ap, arith, String, length}
use agentserve.Config.{HardwareProfile}
use agentserve.Models.{CacheTier, CacheEntry}
use agentserve.Replica.Shedding.{Shed, enforce_capacity-Shed}
use agentserve.Replica.Steps.{
  IsConsistent, install-IsConsistent, place-IsConsistent, SameRest, SameRest-trans,
  install-SameRest, place-SameRest, resident, resident-place,
}
use agentserve.Replica.{Replica, gpu_tokens, install, place, store}

abbrev pub entry_of : String → ℕ → ℕ → ℕ → CacheEntry
entry_of session_id tokens now_ms predicted_return_ms = record {
  session_id = session_id;
  tokens = tokens;
  tier = CacheTier.gpu;
  last_touch_ms = now_ms;
  predicted_return_ms = predicted_return_ms;
}

-- The replica after the placement of a fresh entry, before the capacity is enforced.
unfoldable pub placed : Replica → CacheEntry → Replica
placed r e = let q = install r e in place q e (q.policy.on_release e e.last_touch_ms)

pub placed-IsConsistent :
    (r : Replica) (e : CacheEntry)
    → e.tier ≡ CacheTier.gpu
    → IsConsistent r
    → IsConsistent (placed r e)
unfolding placed
placed-IsConsistent r e in_gpu c =
    place-IsConsistent (install r e) (install-IsConsistent r c e in_gpu) e _

pub placed-SameRest : (r : Replica) (e : CacheEntry) → SameRest r (placed r e)
unfolding placed
placed-SameRest r e = SameRest-trans (install-SameRest r e) (place-SameRest (install r e) e _)

resident-placed :
    (r : Replica) (e : CacheEntry)
    → e.tier ≡ CacheTier.gpu
    → IsConsistent r
    → resident (placed r e) + (placed r e).evictions
      ≡ length (erase e.session_id r.gpu) + length (erase e.session_id r.dram) + 1 + r.evictions
unfolding placed resident install
resident-placed r e in_gpu c = omega (
  arith,
  resident-place (install r e) (install-IsConsistent r c e in_gpu) e
      (contains-insert_self e.session_id e r.gpu)
      ((install r e).policy.on_release e e.last_touch_ms),
  length-insert e.session_id e r.gpu c.gpu_distinct,
)

-- Both tiers are within their capacities.
pub record IsBounded (r : Replica) : Type 0 where
  pub consistent : IsConsistent r
  pub gpu_bounded : gpu_tokens r ≤ r.hw.gpu_cache_tokens

module _ (r : Replica) (c : IsConsistent r) (session_id : String)
    (tokens now_ms predicted_return_ms : ℕ) where
  pub store-Shed :
      Shed
        ((placed r (entry_of session_id tokens now_ms predicted_return_ms)).policy.victim_order
          (values (placed r (entry_of session_id tokens now_ms predicted_return_ms)).gpu)
          now_ms)
        (placed r (entry_of session_id tokens now_ms predicted_return_ms))
        (store r session_id tokens now_ms predicted_return_ms)
  unfolding store placed
  store-Shed =
      enforce_capacity-Shed _ now_ms
        (placed-IsConsistent r (entry_of session_id tokens now_ms predicted_return_ms) refl c)

  pub store-SameRest : SameRest r (store r session_id tokens now_ms predicted_return_ms)
  store-SameRest = SameRest-trans (placed-SameRest r _) store-Shed.rest

  -- From a consistent replica, even one whose GPU tier is over its capacity, `store` leaves both
  -- tiers consistent and within their capacities.
  pub store-IsBounded : IsBounded (store r session_id tokens now_ms predicted_return_ms)
  store-IsBounded = record {
    consistent = store-Shed.consistent;
    gpu_bounded = omega (
      arith,
      store-Shed.fits,
      ap (λ (h : HardwareProfile). h.gpu_cache_tokens) store-Shed.rest.hw,
    );
  }

  -- From a consistent replica, `store` loses no entry: the resident entries and the evictions
  -- after it are, in number, the entries of the other sessions before it, one for the stored
  -- session, and the evictions before it.
  pub store-conserved :
      resident (store r session_id tokens now_ms predicted_return_ms)
        + (store r session_id tokens now_ms predicted_return_ms).evictions
      ≡ length (erase session_id r.gpu) + length (erase session_id r.dram) + 1 + r.evictions
  store-conserved =
      store-Shed.conserved
      ∙ resident-placed r (entry_of session_id tokens now_ms predicted_return_ms) refl c
