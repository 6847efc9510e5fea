-- ===== src/Replica/Steps.antt =====
-- agentserve/replica.py: the invariant of the two dictionaries, and each single change of them.
use agentserve.Common.{
  ℕ, ◌+◌, ◌≤◌, ◌≡◌, ◌∙◌, refl, arith, inl, inr, str_eq, eq_iff, String, true, false, All, All_imp,
  length, leb, leb→le, Bool-cases, Option-cases,
}
use agentserve.Common.Dict.Keys.{
  Distinct, Distinct-insert, Distinct-erase, All-insert, All-erase, All-erase_ne, All-lookup,
  sum_by-values-insert, sum_by-values-erase-le, length-insert, length-erase,
}
use agentserve.Common.Dict.Laws.{contains-insert, contains-erase, lookup_of_contains, erase_absent}
use agentserve.Common.Dict.{Dict, lookup, insert, erase, contains}
use agentserve.Models.{CacheTier, CacheEntry}
use agentserve.Policy.{Placement, pin_gpu, offload_dram, drop}
use agentserve.Replica.Entries.{Keyed}
use agentserve.Replica.{
  Replica, dram_tokens, promote_from_dram, park, demote, evict, give_up, install, place,
}

-- Each session has at most one entry, under its own name and in the right tier, and the DRAM tier
-- is within its capacity.
pub record IsConsistent (r : Replica) : Type 0 where
  pub gpu_distinct : Distinct r.gpu
  pub dram_distinct : Distinct r.dram
  pub gpu_keyed : All (Keyed CacheTier.gpu) r.gpu
  pub dram_keyed : All (Keyed CacheTier.dram) r.dram
  pub disjoint : All (λ e. contains e.0 r.dram ≡ false) r.gpu
  pub dram_bounded : dram_tokens r ≤ r.hw.dram_cache_tokens

-- Entries that are resident on the replica, in either tier.
unfoldable pub resident : Replica → ℕ
resident r = length r.gpu + length r.dram

module _ (r : Replica) (c : IsConsistent r) (k : String) where
  pub evict-IsConsistent : IsConsistent (evict r k)
  unfolding evict dram_tokens
  evict-IsConsistent = record {
    gpu_distinct = Distinct-erase k r.gpu c.gpu_distinct;
    dram_distinct = c.dram_distinct;
    gpu_keyed = All-erase (Keyed CacheTier.gpu) k r.gpu c.gpu_keyed;
    dram_keyed = c.dram_keyed;
    disjoint = All-erase (λ e. contains e.0 r.dram ≡ false) k r.gpu c.disjoint;
    dram_bounded = c.dram_bounded;
  }

  pub absent_in_dram : contains k r.gpu ≡ true → contains k r.dram ≡ false
  absent_in_dram there =
      let (e, found) = lookup_of_contains k r.gpu there in
      All-lookup (λ e. contains e.0 r.dram ≡ false) k e r.gpu c.disjoint found

-- An entry under another session stays outside of a dictionary that gains `k`.
absent-insert :
    (k : String) (w : CacheEntry) (d : Dict CacheEntry) (e : String × CacheEntry)
    → (contains e.0 d ≡ false) × (str_eq e.0 k ≡ false)
    → contains e.0 (insert k w d) ≡ false
absent-insert k w d e h =
    ground (arith, h.0, h.1, contains-insert k e.0 w d, eq_iff k e.0, eq_iff e.0 k)

absent-erase :
    (k : String) (d : Dict CacheEntry) (e : String × CacheEntry)
    → contains e.0 d ≡ false
    → contains e.0 (erase k d) ≡ false
absent-erase k d e h = ground (arith, h, contains-erase k e.0 d)

module _ (r : Replica) (c : IsConsistent r) (v : CacheEntry) where
  pub demote-IsConsistent : IsConsistent (demote r v)
  unfolding demote park dram_tokens evict
  demote-IsConsistent = elim (Bool-cases (leb (dram_tokens r + v.tokens) r.hw.dram_cache_tokens)) [
    | inr full ↦ rw full (evict-IsConsistent r c v.session_id)
    | inl room ↦ rw room (record {
      gpu_distinct = Distinct-erase v.session_id r.gpu c.gpu_distinct;
      dram_distinct = Distinct-insert v.session_id _ r.dram c.dram_distinct;
      gpu_keyed = All-erase (Keyed CacheTier.gpu) v.session_id r.gpu c.gpu_keyed;
      dram_keyed =
          All-insert (Keyed CacheTier.dram) v.session_id _ r.dram (refl, refl) c.dram_keyed;
      disjoint =
          All_imp (absent-insert v.session_id _ r.dram) (erase v.session_id r.gpu)
            (All-erase_ne (λ e. contains e.0 r.dram ≡ false) v.session_id r.gpu c.disjoint);
      dram_bounded = omega (
        arith,
        leb→le _ _ room,
        sum_by-values-insert (λ e. e.tokens) v.session_id (record v { tier = CacheTier.dram })
            r.dram c.dram_distinct,
        sum_by-values-erase-le (λ (e : CacheEntry). e.tokens) v.session_id r.dram,
      );
    })
  ]

  pub give_up-IsConsistent : (now_ms : ℕ) → IsConsistent (give_up r v now_ms)
  unfolding give_up
  give_up-IsConsistent now_ms =
      elim (r.policy.on_release v now_ms)
        as (λ p. IsConsistent (elim p [
          | offload_dram ↦ demote r v
          | pin_gpu ↦ evict r v.session_id
          | drop ↦ evict r v.session_id
        ])) [
          | offload_dram ↦ demote-IsConsistent
          | pin_gpu ↦ evict-IsConsistent r c v.session_id
          | drop ↦ evict-IsConsistent r c v.session_id
        ]

  pub place-IsConsistent : (p : Placement) → IsConsistent (place r v p)
  unfolding place
  place-IsConsistent drop = evict-IsConsistent r c v.session_id
  place-IsConsistent offload_dram = demote-IsConsistent
  place-IsConsistent pin_gpu = c

  -- `store` begins by moving the session to a fresh entry of the GPU tier.
  pub install-IsConsistent : v.tier ≡ CacheTier.gpu → IsConsistent (install r v)
  unfolding install dram_tokens
  install-IsConsistent in_gpu = record {
    gpu_distinct = Distinct-insert v.session_id v r.gpu c.gpu_distinct;
    dram_distinct = Distinct-erase v.session_id r.dram c.dram_distinct;
    gpu_keyed = All-insert (Keyed CacheTier.gpu) v.session_id v r.gpu (refl, in_gpu) c.gpu_keyed;
    dram_keyed = All-erase (Keyed CacheTier.dram) v.session_id r.dram c.dram_keyed;
    disjoint =
        All-insert (λ e. contains e.0 (erase v.session_id r.dram) ≡ false) v.session_id v r.gpu
          (ground (
            arith,
            contains-erase v.session_id v.session_id r.dram,
            eq_iff v.session_id v.session_id,
          ))
          (All_imp (absent-erase v.session_id r.dram) r.gpu c.disjoint);
    dram_bounded = omega (
      arith,
      c.dram_bounded,
      sum_by-values-erase-le (λ (e : CacheEntry). e.tokens) v.session_id r.dram,
    );
  }

-- A promotion from the DRAM tier keeps a replica consistent.
pub promote_from_dram-IsConsistent :
    (r : Replica) (session_id : String)
    → IsConsistent r
    → IsConsistent (promote_from_dram r session_id)
unfolding promote_from_dram dram_tokens
promote_from_dram-IsConsistent r k c = elim (Option-cases (lookup k r.dram)) [
  | inl e ↦ rw (e, promote_from_dram) c
  | inr (v, e) ↦
      let named = All-lookup (Keyed CacheTier.dram) k v r.dram c.dram_keyed e in
      rw (e, promote_from_dram)
        (record {
          gpu_distinct = Distinct-insert k _ r.gpu c.gpu_distinct;
          dram_distinct = Distinct-erase k r.dram c.dram_distinct;
          gpu_keyed =
              All-insert (Keyed CacheTier.gpu) k (record v { tier = CacheTier.gpu }) r.gpu
                (named.0, refl) c.gpu_keyed;
          dram_keyed = All-erase (Keyed CacheTier.dram) k r.dram c.dram_keyed;
          disjoint =
              All-insert (λ e. contains e.0 (erase k r.dram) ≡ false) k _ r.gpu
                (ground (arith, contains-erase k k r.dram, eq_iff k k))
                (All_imp (absent-erase k r.dram) r.gpu c.disjoint);
          dram_bounded = omega (
            arith,
            c.dram_bounded,
            sum_by-values-erase-le (λ (e : CacheEntry). e.tokens) k r.dram,
          );
        })
]

-- A change of the cache leaves the queue, the hardware and the policy alone.
pub record SameRest (r q : Replica) : Type 0 where
  pub id : q.id ≡ r.id
  pub hw : q.hw ≡ r.hw
  pub policy : q.policy ≡ r.policy
  pub free_at_ms : q.free_at_ms ≡ r.free_at_ms
  pub pending : q.pending ≡ r.pending
  pub active : q.active ≡ r.active
  pub peak_active : q.peak_active ≡ r.peak_active

SameRest-of_update :
    (r : Replica) (gpu dram : Dict CacheEntry) (evictions offloads : ℕ)
    → SameRest r (record r { gpu = gpu; dram = dram; evictions = evictions; offloads = offloads })
SameRest-of_update r gpu dram evictions offloads = record {
  id = refl;
  hw = refl;
  policy = refl;
  free_at_ms = refl;
  pending = refl;
  active = refl;
  peak_active = refl;
}

pub SameRest-refl : (r : Replica) → SameRest r r
SameRest-refl r = SameRest-of_update r r.gpu r.dram r.evictions r.offloads

pub SameRest-trans : {r q s : Replica} → SameRest r q → SameRest q s → SameRest r s
SameRest-trans f g = record {
  id = g.id ∙ f.id;
  hw = g.hw ∙ f.hw;
  policy = g.policy ∙ f.policy;
  free_at_ms = g.free_at_ms ∙ f.free_at_ms;
  pending = g.pending ∙ f.pending;
  active = g.active ∙ f.active;
  peak_active = g.peak_active ∙ f.peak_active;
}

pub evict-SameRest : (r : Replica) (k : String) → SameRest r (evict r k)
unfolding evict
evict-SameRest r k = SameRest-of_update r _ r.dram _ r.offloads

pub install-SameRest : (r : Replica) (v : CacheEntry) → SameRest r (install r v)
unfolding install
install-SameRest r v = SameRest-of_update r _ _ r.evictions r.offloads

demote-SameRest : (r : Replica) (v : CacheEntry) → SameRest r (demote r v)
unfolding demote park
demote-SameRest r v = elim (Bool-cases (leb (dram_tokens r + v.tokens) r.hw.dram_cache_tokens)) [
  | inl room ↦ rw room (SameRest-of_update r _ _ r.evictions _)
  | inr full ↦ rw full (SameRest-of_update r _ r.dram _ r.offloads)
]

pub place-SameRest : (r : Replica) (v : CacheEntry) (p : Placement) → SameRest r (place r v p)
unfolding place
place-SameRest r v drop = evict-SameRest r v.session_id
place-SameRest r v offload_dram = demote-SameRest r v
place-SameRest r v pin_gpu = SameRest-refl r

-- `give_up` by the decision of the policy.
pub data GivenUp (r : Replica) (v : CacheEntry) (now_ms : ℕ) : Type 0 where
  demoted : give_up r v now_ms ≡ demote r v → GivenUp r v now_ms
  evicted : give_up r v now_ms ≡ evict r v.session_id → GivenUp r v now_ms

pub give_up-GivenUp : (r : Replica) (v : CacheEntry) (now_ms : ℕ) → GivenUp r v now_ms
unfolding give_up
give_up-GivenUp r v now_ms = go (r.policy.on_release v now_ms) refl
  where
    go : (p : Placement) → r.policy.on_release v now_ms ≡ p → GivenUp r v now_ms
    go pin_gpu e = evicted (rw (e, give_up))
    go offload_dram e = demoted (rw (e, give_up))
    go drop e = evicted (rw (e, give_up))

pub give_up-SameRest : (r : Replica) (v : CacheEntry) (now_ms : ℕ) → SameRest r (give_up r v now_ms)
give_up-SameRest r v now_ms = elim (give_up-GivenUp r v now_ms) [
  | demoted e ↦ rw e (demote-SameRest r v)
  | evicted e ↦ rw e (evict-SameRest r v.session_id)
]

pub demote-gpu : (r : Replica) (v : CacheEntry) → (demote r v).gpu ≡ erase v.session_id r.gpu
unfolding demote park
demote-gpu r v = ground arith

pub give_up-gpu :
    (r : Replica) (v : CacheEntry) (now_ms : ℕ)
    → (give_up r v now_ms).gpu ≡ erase v.session_id r.gpu
unfolding evict
give_up-gpu r v now_ms = elim (give_up-GivenUp r v now_ms) [
  | demoted e ↦ rw e (demote-gpu r v)
  | evicted e ↦ rw e
]

-- What each change does to the number of resident entries and evictions.
module _ (r : Replica) (c : IsConsistent r) (v : CacheEntry)
    (there : contains v.session_id r.gpu ≡ true) where
  -- An entry that is given up is still resident or counted as an eviction, never both.
  pub resident-give_up :
      (now_ms : ℕ)
      → resident (give_up r v now_ms) + (give_up r v now_ms).evictions ≡ resident r + r.evictions
  unfolding resident give_up demote park evict
  resident-give_up now_ms =
      let k = v.session_id in
      let absent = absent_in_dram r c k there in
      ground (
        arith,
        there,
        length-erase k r.gpu c.gpu_distinct,
        length-insert k (record v { tier = CacheTier.dram }) r.dram c.dram_distinct,
        erase_absent k r.dram absent,
      )

  pub resident-place :
      (p : Placement) → resident (place r v p) + (place r v p).evictions ≡ resident r + r.evictions
  unfolding resident place demote park evict
  resident-place p =
      let k = v.session_id in
      let absent = absent_in_dram r c k there in
      ground (
        arith,
        there,
        length-erase k r.gpu c.gpu_distinct,
        length-insert k (record v { tier = CacheTier.dram }) r.dram c.dram_distinct,
        erase_absent k r.dram absent,
      )
