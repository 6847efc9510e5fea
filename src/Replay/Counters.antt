-- ===== src/Replay/Counters.antt =====
-- bench/replay.py: the counters of a run, and the times at which sessions started and ended.
use agentserve.Common.Dict.Keys.{All-insert, All-lookup}
use agentserve.Common.Dict.Laws.{lookup-insert}
use agentserve.Common.Dict.{Dict, lookup}
use agentserve.Common.{
  ◌≤◌, All, All_imp, eq_iff, some, ℕ, suc, ◌+◌, ◌≡◌, arith, inl, inr, String, [], ◌∷◌, length,
  length-append, Option-cases,
}
use agentserve.Models.{CacheTier, RunStats, RequestResult, ttft_ms}
use agentserve.Replay.{set_default, count_tier, count_result}

-- A session that has ended started before.
abbrev pub Lasted : Dict ℕ → String × ℕ → Type 0
Lasted starts e = (start : ℕ) × (lookup e.0 starts ≡ some start) × (start ≤ e.1)

abbrev pub Before : ℕ → String × ℕ → Type 0
Before now e = e.1 ≤ now

lookup-set_default :
    (k : String) (v : ℕ) (starts : Dict ℕ)
    → (start : ℕ) × (lookup k (set_default k v starts) ≡ some start)
unfolding set_default
lookup-set_default k v starts = elim (Option-cases (lookup k starts)) [
  | inl missing ↦
      rw (missing, set_default) (v, ground (arith, lookup-insert k k v starts, eq_iff k k))
  | inr (start, found) ↦ rw (found, set_default) (start, found)
]

pub Before-set_default :
    (k : String) (clock now : ℕ) (starts : Dict ℕ)
    → clock ≤ now
    → All (Before clock) starts
    → All (Before now) (set_default k now starts)
unfolding set_default
Before-set_default k clock now starts le h =
    let early : All (Before now) starts = All_imp (λ e b. omega (arith, le, b)) starts h in
    elim (Option-cases (lookup k starts)) [
      | inl missing ↦
          rw (missing, set_default) (All-insert (Before now) k now starts (omega arith) early)
      | inr (start, found) ↦ rw (found, set_default) early
    ]

pub Lasted-set_default :
    (k : String) (v : ℕ) (starts : Dict ℕ) (e : String × ℕ)
    → Lasted starts e
    → Lasted (set_default k v starts) e
unfolding set_default
Lasted-set_default k v starts (j, end_ms) (start, found, le) =
    elim (Option-cases (lookup k starts)) [
      | inl missing ↦
          rw (missing, set_default)
            (start, ground (arith, lookup-insert k j v starts, eq_iff k j, missing, found), le)
      | inr (other, there) ↦ rw (there, set_default) (start, found, le)
    ]

-- The session of a round, which ends after the round's event.
pub Lasted-now :
    (k : String) (now end_ms : ℕ) (starts : Dict ℕ)
    → now ≤ end_ms
    → All (Before now) (set_default k now starts)
    → Lasted (set_default k now starts) (k, end_ms)
Lasted-now k now end_ms starts le h =
    let (start, found) = lookup-set_default k now starts in
    let early = All-lookup (Before now) k start (set_default k now starts) h found in
    (start, found, omega (arith, le, early))

-- The counters agree with each other: each request has one tier and one time to its first token.
pub record Agrees (s : RunStats) : Type 0 where
  pub tiers : s.gpu_hits + s.dram_hits + s.misses ≡ s.requests
  pub times : length s.ttfts ≡ s.requests

count_tier-Agrees :
    (t : CacheTier) (s : RunStats)
    → suc (s.gpu_hits + s.dram_hits + s.misses) ≡ s.requests
    → length s.ttfts ≡ s.requests
    → Agrees (count_tier t s)
unfolding count_tier
count_tier-Agrees CacheTier.gpu s h times = record { tiers = omega (arith, h); times = times }
count_tier-Agrees CacheTier.dram s h times = record { tiers = omega (arith, h); times = times }
count_tier-Agrees CacheTier.miss s h times = record { tiers = omega (arith, h); times = times }

pub count_result-Agrees :
    (result : RequestResult) (s : RunStats) → Agrees s → Agrees (count_result result s)
unfolding count_result
count_result-Agrees result s h =
    count_tier-Agrees result.tier _ (omega (arith, h.tiers))
      (omega (arith, h.times, length-append s.ttfts (ttft_ms result ∷ [])))

-- What a request adds to the totals.
pub count_result_lem :
    (result : RequestResult) (s : RunStats)
    → ((count_result result s).requests ≡ s.requests + 1)
      × ((count_result result s).tokens_reused ≡ s.tokens_reused + result.reused_tokens)
      × ((count_result result s).tokens_computed ≡ s.tokens_computed + result.computed_tokens)
unfolding count_result count_tier
count_result_lem result s = ground arith
