-- ===== src/Replica/Evictions.antt =====
-- agentserve/replica.py: giving up entries under a policy that offloads none of them.
use agentserve.Common.Dict.Keys.{All-lookup}
use agentserve.Common.Dict.Laws.{lookup-erase}
use agentserve.Common.Dict.{Dict, lookup, values}
use agentserve.Common.{
  ℕ, ◌≤◌, ◌≡◌, ◌≢◌, ◌⊎◌, ◌∙◌, refl, sym, arith, inl, inr, String, none, some, List, [], ◌∷◌, All,
  leb, Bool-cases,
}
use agentserve.Config.{PolicyConfig}
use agentserve.Models.{CacheEntry, predicted_idle_ms}
use agentserve.Policy.{offload_dram, on_release, adaptive_ttl_policy}
use agentserve.Replica.Shedding.{shed-Shed, trim_dram-eq_self}
use agentserve.Replica.Steps.{IsConsistent}
use agentserve.Replica.{Replica, gpu_tokens, evict, give_up, shed, enforce_capacity}
use mathlib.Core.List.Perm
use mathlib.Core.List.{Mem, mem-cons, mem-cons_self, mem-cons_of_mem, not-mem-nil}
use mathlib.Core.Logic.Or
use native.Mathlib.Bridge.{le_prop}

-- What giving entries up does when the policy offloads none of them.
pub record OnlyEvicts (r q : Replica) : Type 0 where
  pub dram : q.dram ≡ r.dram
  pub offloads : q.offloads ≡ r.offloads
  pub gpu : (k : String) → (lookup k q.gpu ≡ lookup k r.gpu) ⊎ (lookup k q.gpu ≡ none)

OnlyEvicts-refl : (r : Replica) → OnlyEvicts r r
OnlyEvicts-refl r = record { dram = refl; offloads = refl; gpu = λ k. inl refl }

give_up-evict :
    (r : Replica) (v : CacheEntry) (now_ms : ℕ)
    → r.policy.on_release v now_ms ≢ offload_dram
    → give_up r v now_ms ≡ evict r v.session_id
unfolding give_up
give_up-evict r v now_ms keeps = ground (arith, keeps)

evict-OnlyEvicts : (r q : Replica) (k : String) → OnlyEvicts (evict r k) q → OnlyEvicts r q
unfolding evict
evict-OnlyEvicts r q k o = record {
  dram = o.dram;
  offloads = o.offloads;
  gpu = λ j. elim (o.gpu j) [
    | inr gone ↦ inr gone
    | inl same ↦ ground (arith, same, lookup-erase k j r.gpu)
  ];
}

module _ (now_ms : ℕ) where
  shed-OnlyEvicts :
      (victims : List CacheEntry) (r : Replica)
      → ((v : CacheEntry) → Mem v victims → r.policy.on_release v now_ms ≢ offload_dram)
      → OnlyEvicts r (shed victims now_ms r)
  unfolding shed evict
  shed-OnlyEvicts [] r keeps = OnlyEvicts-refl r
  shed-OnlyEvicts (v ∷ victims) r keeps =
      elim (Bool-cases (leb (gpu_tokens r) r.hw.gpu_cache_tokens)) [
        | inl fits ↦ rw (fits, shed) (OnlyEvicts-refl r)
        | inr over ↦
            rw (over, shed, give_up-evict r v now_ms (keeps v mem-cons_self))
              (evict-OnlyEvicts r _ v.session_id (
                shed-OnlyEvicts victims (evict r v.session_id)
                  (λ w m. keeps w (mem-cons_of_mem v m))))
      ]

  -- Under memory pressure a policy that offloads none of the resident entries only evicts.
  pub enforce_capacity-OnlyEvicts :
      (r : Replica)
      → IsConsistent r
      → ((v : CacheEntry) → Mem v (values r.gpu) → r.policy.on_release v now_ms ≢ offload_dram)
      → OnlyEvicts r (enforce_capacity r now_ms)
  unfolding enforce_capacity
  enforce_capacity-OnlyEvicts r c keeps =
      let victims = r.policy.victim_order (values r.gpu) now_ms in
      let p = r.policy.victim_order-perm (values r.gpu) now_ms in
      elim (Bool-cases (leb (gpu_tokens r) r.hw.gpu_cache_tokens)) [
        | inl fits ↦ rw (fits, enforce_capacity) (OnlyEvicts-refl r)
        | inr over ↦
            let s = shed-Shed victims now_ms r c p in
            rw (over, trim_dram-eq_self (shed victims now_ms r) s.consistent)
              (shed-OnlyEvicts victims r (λ v m. keeps v (Perm.subset p v m)))
      ]

-- The sessions that the adaptive policy keeps on the GPU.
abbrev pub Pinned : PolicyConfig → CacheEntry → Type 0
Pinned config e = predicted_idle_ms e ≤ config.pin_threshold_ms

module _ (config : PolicyConfig) where
  pub Pinned-keeps :
      (v : CacheEntry) (now_ms : ℕ)
      → Pinned config v
      → (adaptive_ttl_policy config).on_release v now_ms ≢ offload_dram
  unfolding adaptive_ttl_policy on_release
  Pinned-keeps v now_ms h = ground (arith, h)

  pub Pinned-of_mem :
      (v : CacheEntry) (d : Dict CacheEntry)
      → All (λ e. Pinned config e.1) d
      → Mem v (values d)
      → Pinned config v
  unfolding values
  Pinned-of_mem v [] h m = absurd (not-mem-nil m)
  Pinned-of_mem v ((k, e) ∷ d) h m =
      Or.elim le_prop (mem-cons.0 m) (λ same. rw same h.0) (Pinned-of_mem v d h.1)

  -- What is resident on the GPU after only evictions was resident before.
  pub OnlyEvicts-Pinned :
      (r q : Replica) (k : String) (e : CacheEntry)
      → OnlyEvicts r q
      → All (λ e. Pinned config e.1) r.gpu
      → lookup k q.gpu ≡ some e
      → Pinned config e
  OnlyEvicts-Pinned r q k e o h found = elim (o.gpu k) [
    | inl same ↦ All-lookup (λ e. Pinned config e.1) k e r.gpu h (sym same ∙ found)
    | inr gone ↦ absurd (ground (arith, gone, found))
  ]
