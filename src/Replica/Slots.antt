-- ===== src/Replica/Slots.antt =====
-- agentserve/replica.py: the in-flight slots under any interleaving of requests. A step is what one
-- request does to the replica between two points where another may run.
use agentserve.Common.{ℕ, ◌+◌, ◌-◌, ◌≤◌, ◌<◌, ◌≡◌, ap, arith}
use agentserve.Config.{HardwareProfile}
use agentserve.Policy.{CachePolicy}
use agentserve.Replica.Steps.{SameRest}
use agentserve.Replica.{Replica, init, enter_slot, leave_slot, prune}

-- `n` and `m` count the requests inside of `slot` before and after the step. A request leaves once,
-- after it entered, whether it returned, failed or was cancelled: that is `finally`.
pub data SlotStep (r : Replica) (n : ℕ) (q : Replica) (m : ℕ) : Type 0 where
  entered : q ≡ enter_slot r → m ≡ n + 1 → SlotStep r n q m
  left : 0 < n → q ≡ leave_slot r → m ≡ n - 1 → SlotStep r n q m
  cached : SameRest r q → m ≡ n → SlotStep r n q m
  pruned : (now_ms : ℕ) → q ≡ prune r now_ms → m ≡ n → SlotStep r n q m

pub data SlotRun (r : Replica) (n : ℕ) : Replica → ℕ → Type 0 where
  here : SlotRun r n r n
  next : {q s : Replica} {m k : ℕ} → SlotRun r n q m → SlotStep q m s k → SlotRun r n s k

-- The counter is the number of open requests, and the peak is no smaller.
abbrev pub CountsSlots : Replica → ℕ → Type 0
CountsSlots r n = (r.active ≡ n) × (n ≤ r.peak_active)

SlotStep-CountsSlots :
    {r : Replica} {n : ℕ} {q : Replica} {m : ℕ}
    → SlotStep r n q m
    → CountsSlots r n
    → CountsSlots q m
unfolding enter_slot leave_slot prune
SlotStep-CountsSlots (entered e h) c =
    omega (arith, ap (λ (s : Replica). s.active) e, ap (λ (s : Replica). s.peak_active) e)
SlotStep-CountsSlots (left p e h) c =
    omega (arith, ap (λ (s : Replica). s.active) e, ap (λ (s : Replica). s.peak_active) e)
SlotStep-CountsSlots (cached f h) c = omega (arith, f.active, f.peak_active)
SlotStep-CountsSlots (pruned t e h) c =
    omega (arith, ap (λ (s : Replica). s.active) e, ap (λ (s : Replica). s.peak_active) e)

SlotRun-CountsSlots :
    {r : Replica} {n : ℕ} {q : Replica} {m : ℕ}
    → SlotRun r n q m
    → CountsSlots r n
    → CountsSlots q m
SlotRun-CountsSlots here c = c
SlotRun-CountsSlots (next run step) c = SlotStep-CountsSlots step (SlotRun-CountsSlots run c)

-- However requests enter, work on the cache, prune and leave, `active` of a replica that started
-- fresh is the number of requests inside of a slot, and `peak_active` is at least that number.
pub slots_never_leak :
    (i : ℕ) (hardware : HardwareProfile) (policy : CachePolicy) {q : Replica} {m : ℕ}
    → SlotRun (init i hardware policy) 0 q m
    → (q.active ≡ m) × (m ≤ q.peak_active)
unfolding init
slots_never_leak i hardware policy run = SlotRun-CountsSlots run (omega arith)
