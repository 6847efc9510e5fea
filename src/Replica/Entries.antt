-- ===== src/Replica/Entries.antt =====
-- agentserve/replica.py: the dictionaries of a replica, keyed by the sessions of their entries.
use agentserve.Common.{
  ◌≡◌, ap, arith, eq_iff, String, false, Option, some, [], ◌∷◌, All, String-set,
}
use agentserve.Common.Dict.Keys.{Distinct}
use agentserve.Common.Dict.Laws.{contains_of_lookup}
use agentserve.Common.Dict.{Dict, lookup, values, contains}
use agentserve.Models.{CacheTier, CacheEntry}
use mathlib.Core.List.{Mem, not-mem-nil, mem-cons}
use mathlib.Core.Logic.Or
use native.Mathlib.Nat.{ℕ_set}

-- Each entry stands under its own session, in the tier.
abbrev pub Keyed : CacheTier → String × CacheEntry → Type 0
Keyed tier e = (e.1.session_id ≡ e.0) × (e.1.tier ≡ tier)

CacheEntry-set : IsSet CacheEntry
CacheEntry-set = hlevel (ℕ_set, String-set)

Option-set : IsSet (Option CacheEntry)
Option-set = hlevel CacheEntry-set

module _ (tier : CacheTier) where
  lookup_of_head :
      (k : String) (e v : CacheEntry) (d : Dict CacheEntry)
      → e.session_id ≡ k
      → v ≡ e
      → lookup v.session_id ((k, e) ∷ d) ≡ some v
  unfolding lookup
  lookup_of_head k e v d named same = rw (same, named) (ground (arith, eq_iff k k))

  lookup_of_tail :
      (k : String) (e v : CacheEntry) (d : Dict CacheEntry)
      → contains k d ≡ false
      → lookup v.session_id d ≡ some v
      → lookup v.session_id ((k, e) ∷ d) ≡ some v
  unfolding lookup
  lookup_of_tail k e v d fresh found = ground (
    arith,
    eq_iff k v.session_id,
    contains_of_lookup v.session_id d v,
    ap (λ (j : String). contains j d),
  )

  -- An entry among the values stands under its session.
  pub lookup_of_mem :
      (v : CacheEntry) (d : Dict CacheEntry)
      → Distinct d
      → All (Keyed tier) d
      → Mem v (values d)
      → lookup v.session_id d ≡ some v
  unfolding values
  lookup_of_mem v [] h keyed m = absurd (not-mem-nil m)
  lookup_of_mem v ((k, e) ∷ d) h keyed m =
      Or.elim (Option-set _ _) (mem-cons.0 m) (lookup_of_head k e v d keyed.0.0)
        (λ m'. lookup_of_tail k e v d h.0 (lookup_of_mem v d h.1 keyed.1 m'))
