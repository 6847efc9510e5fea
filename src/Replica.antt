-- ===== src/Replica.antt =====
-- agentserve/replica.py: one worker's two-tier cache and its request queue. An entry is a value
-- here. The code shares entries by reference, but it changes only the tier of an entry that it has
-- just taken out of a dictionary, so no other reference sees the change.
pub mod Entries
pub mod Steps
pub mod Shedding
pub mod Storing
pub mod Evictions
pub mod Residence
pub mod Slots
use agentserve.Common.{
  ℕ, zero, suc, ◌+◌, ◌-◌, ltb, leb, max, String, Bool, true, false, Option, none, some, List, [],
  ◌∷◌, length, sum_by, if◌then◌else◌,
}
use agentserve.Common.Dict.{Dict, lookup, insert, erase, values, contains}
use agentserve.Common.Sort.{min_by}
use agentserve.Config.{HardwareProfile}
use agentserve.Models.{CacheTier, CacheEntry, Ratio}
use agentserve.Policy.{CachePolicy, Placement, pin_gpu, offload_dram, drop, older_touch}

pub record Replica : Type 0 where
  pub id : ℕ
  pub hw : HardwareProfile
  pub policy : CachePolicy
  pub gpu : Dict CacheEntry
  pub dram : Dict CacheEntry
  pub free_at_ms : ℕ
  pub pending : List ℕ
  pub active : ℕ
  pub peak_active : ℕ
  pub evictions : ℕ
  pub offloads : ℕ

unfoldable pub init : ℕ → HardwareProfile → CachePolicy → Replica
init replica_id hardware policy = record {
  id = replica_id;
  hw = hardware;
  policy = policy;
  gpu = [];
  dram = [];
  free_at_ms = 0;
  pending = [];
  active = 0;
  peak_active = 0;
  evictions = 0;
  offloads = 0;
}

unfoldable pub inflight : Replica → ℕ
inflight r = length r.pending + r.active

-- `[t for t in self.pending if t > now_ms]`
unfoldable pub later_than : ℕ → List ℕ → List ℕ
later_than now_ms [] = []
later_than now_ms (t ∷ ts) =
    let rest = later_than now_ms ts in if ltb now_ms t then t ∷ rest else rest

unfoldable pub prune : Replica → ℕ → Replica
prune r now_ms = record r { pending = later_than now_ms r.pending }

-- The two halves of the context manager `slot`.
unfoldable pub enter_slot : Replica → Replica
enter_slot r =
    let active = r.active + 1 in
    record r { active = active; peak_active = max r.peak_active active }

-- `max(0, self.active - 1)` is the subtraction that stops at 0.
unfoldable pub leave_slot : Replica → Replica
leave_slot r = record r { active = r.active - 1 }

unfoldable pub gpu_tokens : Replica → ℕ
gpu_tokens r = sum_by (λ e. e.tokens) (values r.gpu)

unfoldable pub dram_tokens : Replica → ℕ
dram_tokens r = sum_by (λ e. e.tokens) (values r.dram)

-- The quotient that the code computes, as a fraction. A capacity of 0 makes the code raise: the
-- callers test for it.
unfoldable pub gpu_utilization : Replica → Ratio
gpu_utilization r = record { part = gpu_tokens r; whole = r.hw.gpu_cache_tokens }

unfoldable pub lookup_session : Replica → String → CacheTier × ℕ
lookup_session r session_id = elim (lookup session_id r.gpu) [
  | some e ↦ (CacheTier.gpu, e.tokens)
  | none ↦ elim (lookup session_id r.dram) [
    | some e ↦ (CacheTier.dram, e.tokens)
    | none ↦ (CacheTier.miss, 0)
  ]
]

unfoldable pub promote_from_dram : Replica → String → Replica
promote_from_dram r session_id = elim (lookup session_id r.dram) [
  | none ↦ r
  | some entry ↦ record r {
    dram = erase session_id r.dram;
    gpu = insert session_id (record entry { tier = CacheTier.gpu }) r.gpu;
  }
]

-- `_demote`, behind the removal from the GPU tier.
unfoldable pub park : Replica → CacheEntry → Replica
unfolding dram_tokens
park r entry =
    if leb (dram_tokens r + entry.tokens) r.hw.dram_cache_tokens
    then record r {
      dram = insert entry.session_id (record entry { tier = CacheTier.dram }) r.dram;
      offloads = r.offloads + 1;
    }
    else record r { evictions = r.evictions + 1 }

unfoldable pub demote : Replica → CacheEntry → Replica
unfolding park
demote r entry = park (record r { gpu = erase entry.session_id r.gpu }) entry

unfoldable pub evict : Replica → String → Replica
evict r session_id = record r { gpu = erase session_id r.gpu; evictions = r.evictions + 1 }

-- The body of the loop of `_enforce_capacity`, behind the test.
unfoldable pub give_up : Replica → CacheEntry → ℕ → Replica
unfolding demote evict
give_up r victim now_ms = elim (r.policy.on_release victim now_ms) [
  | offload_dram ↦ demote r victim
  | pin_gpu ↦ evict r victim.session_id
  | drop ↦ evict r victim.session_id
]

-- The `for` loop of `_enforce_capacity`, with its `break`.
unfoldable pub shed : List CacheEntry → ℕ → Replica → Replica
unfolding give_up gpu_tokens
shed [] now_ms r = r
shed (victim ∷ victims) now_ms r = elim (leb (gpu_tokens r) r.hw.gpu_cache_tokens) [
  | true ↦ r
  | false ↦ shed victims now_ms (give_up r victim now_ms)
]

-- The `while` loop of `_trim_dram`. A round removes an entry, so the number of entries is enough
-- fuel.
unfoldable pub trim_rounds : ℕ → Replica → Replica
unfolding dram_tokens older_touch
trim_rounds zero r = r
trim_rounds (suc fuel) r = elim (ltb r.hw.dram_cache_tokens (dram_tokens r)) [
  | false ↦ r
  | true ↦ elim (values r.dram) [
    | [] ↦ r
    | e ∷ es ↦
        let oldest = min_by older_touch e es in
        trim_rounds fuel
          (record r { dram = erase oldest.session_id r.dram; evictions = r.evictions + 1 })
  ]
]

unfoldable pub trim_dram : Replica → Replica
unfolding trim_rounds
trim_dram r = trim_rounds (length r.dram) r

unfoldable pub enforce_capacity : Replica → ℕ → Replica
unfolding gpu_tokens shed trim_dram
enforce_capacity r now_ms =
    if leb (gpu_tokens r) r.hw.gpu_cache_tokens
    then r
    else trim_dram (shed (r.policy.victim_order (values r.gpu) now_ms) now_ms r)

-- The body of `store` before the placement is carried out.
unfoldable pub install : Replica → CacheEntry → Replica
install r entry = record r {
  dram = erase entry.session_id r.dram;
  gpu = insert entry.session_id entry r.gpu;
}

unfoldable pub place : Replica → CacheEntry → Placement → Replica
unfolding demote evict
place r entry drop = evict r entry.session_id
place r entry offload_dram = demote r entry
place r entry pin_gpu = r

unfoldable pub store : Replica → String → ℕ → ℕ → ℕ → Replica
unfolding install place enforce_capacity
store r session_id tokens now_ms predicted_return_ms =
    let entry : CacheEntry = record {
      session_id = session_id;
      tokens = tokens;
      tier = CacheTier.gpu;
      last_touch_ms = now_ms;
      predicted_return_ms = predicted_return_ms;
    } in
    let installed = install r entry in
    let placed = place installed entry (installed.policy.on_release entry now_ms) in
    enforce_capacity placed now_ms
