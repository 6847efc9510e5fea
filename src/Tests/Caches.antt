-- ===== src/Tests/Caches.antt =====
-- agentserve/replica.py and agentserve/policy.py on the small cluster.
use agentserve.Common.Dict.{erase, values}
use agentserve.Common.{◌+◌, ◌≡◌, refl, arith, inl, inr, All, length}
use agentserve.Config.{default_policy}
use agentserve.Models.{CacheTier, predicted_idle_ms}
use agentserve.Policy.Order.{InOrder, GivenUpBefore, adaptive-victim_order}
use agentserve.Policy.{adaptive_ttl_policy, lru_policy}
use agentserve.Replica.Evictions.{Pinned}
use agentserve.Replica.Residence.{store-Pinned, store-drops, store-offloads, store-pins}
use agentserve.Replica.Shedding.{Shed, enforce_capacity-Shed}
use agentserve.Replica.Steps.{resident}
use agentserve.Replica.Storing.{IsBounded, store-IsBounded, store-conserved}
use agentserve.Replica.{lookup_session, enforce_capacity, store}
use agentserve.Tests.Data.{busy, over, busy-IsConsistent, over-IsConsistent}

store-IsBounded_example : IsBounded (store over "d" 60 30 4_000)
store-IsBounded_example = store-IsBounded over over-IsConsistent "d" 60 30 4_000

store-conserved_example :
    resident (store over "d" 60 30 4_000) + (store over "d" 60 30 4_000).evictions
    ≡ length (erase "d" over.gpu) + length (erase "d" over.dram) + 1 + over.evictions
store-conserved_example = store-conserved over over-IsConsistent "d" 60 30 4_000

enforce_capacity-Shed_example :
    Shed (lru_policy.victim_order (values over.gpu) 30) over (enforce_capacity over 30)
enforce_capacity-Shed_example = enforce_capacity-Shed over 30 over-IsConsistent

store-Pinned_example : All (λ e. Pinned default_policy e.1) (store busy "d" 60 30 4_000).gpu
unfolding predicted_idle_ms
store-Pinned_example =
    store-Pinned default_policy busy busy-IsConsistent refl "d" 60 30 4_000
      (inr (omega arith), (inr (omega arith), tt))

store-drops_example : lookup_session (store busy "b" 60 30 400_000_000) "b" ≡ (CacheTier.miss, 0)
unfolding predicted_idle_ms
store-drops_example =
    store-drops default_policy busy busy-IsConsistent refl "b" 60 30 400_000_000
      (inr (omega arith), (inl refl, tt)) (omega arith) (omega arith)

store-offloads_example : lookup_session (store busy "b" 50 30 4_000_000) "b" ≡ (CacheTier.dram, 50)
unfolding predicted_idle_ms erase values
store-offloads_example =
    store-offloads default_policy busy busy-IsConsistent refl "b" 50 30 4_000_000
      (inr (omega arith), (inl refl, tt)) (omega arith) (omega arith) (omega arith)

store-pins_example : lookup_session (store busy "c" 10 30 4_000) "c" ≡ (CacheTier.gpu, 10)
unfolding predicted_idle_ms erase values
store-pins_example =
    store-pins default_policy busy busy-IsConsistent refl "c" 10 30 4_000
      (inr (omega arith), (inr (omega arith), tt)) (omega arith) (omega arith)

adaptive-victim_order_example :
    InOrder
      (GivenUpBefore default_policy 30)
      ((adaptive_ttl_policy default_policy).victim_order (values over.gpu) 30)
adaptive-victim_order_example = adaptive-victim_order default_policy 30 (values over.gpu)
