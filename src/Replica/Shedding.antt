-- ===== src/Replica/Shedding.antt =====
-- agentserve/replica.py: which entries `_enforce_capacity` gives up.
use agentserve.Common.{
  ℕ, zero, suc, ltb, length, ◌+◌, ◌≤◌, ◌<◌, ◌≡◌, ◌∙◌, refl, ap, subst, arith, inl, inr, false, List,
  [], ◌∷◌, ◌++◌, Bool-cases, leb, leb→le, Perm, sum_by, sum_by-eq_of_perm,
}
use agentserve.Common.Dict.Keys.{values-perm}
use agentserve.Common.Dict.Laws.{contains_of_lookup}
use agentserve.Common.Dict.{values, erase}
use agentserve.Config.{HardwareProfile}
use agentserve.Models.{CacheTier, CacheEntry}
use agentserve.Replica.Entries.{lookup_of_mem}
use agentserve.Replica.Steps.{
  IsConsistent, give_up-IsConsistent, SameRest, SameRest-refl, SameRest-trans, give_up-SameRest,
  give_up-gpu, resident, resident-give_up,
}
use agentserve.Replica.{
  Replica, gpu_tokens, dram_tokens, give_up, shed, trim_rounds, trim_dram, enforce_capacity,
}
use mathlib.Core.List.Perm
use mathlib.Core.List.{mem-cons_self}

abbrev pub tokens_of : List CacheEntry → ℕ
tokens_of = sum_by (λ e. e.tokens)

-- As long as any of `gone` was left, the entries did not fit.
abbrev pub NeedsAll : ℕ → List CacheEntry → List CacheEntry → Type 0
NeedsAll capacity [] kept = Unit
NeedsAll capacity (e ∷ es) kept =
    (capacity < tokens_of (e ∷ es ++ kept)) × NeedsAll capacity es kept

-- The GPU tier of `q` holds what is left of `victims` once enough of them were given up.
pub record Shed (victims : List CacheEntry) (r q : Replica) : Type 0 where
  pub gone : List CacheEntry
  pub kept : List CacheEntry
  pub split : victims ≡ gone ++ kept
  pub holds : Perm kept (values q.gpu)
  pub fits : gpu_tokens q ≤ r.hw.gpu_cache_tokens
  pub needed : NeedsAll r.hw.gpu_cache_tokens gone kept
  pub consistent : IsConsistent q
  pub rest : SameRest r q
  pub conserved : resident q + q.evictions ≡ resident r + r.evictions

-- The head of the order is resident, and without it the tail is what is left.
perm-give_up :
    (r : Replica) (v : CacheEntry) (victims : List CacheEntry)
    → IsConsistent r
    → Perm (v ∷ victims) (values r.gpu)
    → Perm victims (values (erase v.session_id r.gpu))
perm-give_up r v victims c p = Perm.cons_inv (
    Perm.trans p (
      values-perm v.session_id v r.gpu c.gpu_distinct (
        lookup_of_mem CacheTier.gpu v r.gpu c.gpu_distinct c.gpu_keyed
          (Perm.subset p v mem-cons_self))))

-- The loop goes on with one victim less.
Shed-cons :
    (v : CacheEntry) (victims : List CacheEntry) (now_ms : ℕ) (r q : Replica)
    → IsConsistent r
    → Perm (v ∷ victims) (values r.gpu)
    → r.hw.gpu_cache_tokens < gpu_tokens r
    → Shed victims (give_up r v now_ms) q
    → Shed (v ∷ victims) r q
unfolding gpu_tokens
Shed-cons v victims now_ms r q c p over s =
    let same = give_up-SameRest r v now_ms in
    let cap = ap (λ (h : HardwareProfile). h.gpu_cache_tokens) same.hw in
    let found =
      lookup_of_mem CacheTier.gpu v r.gpu c.gpu_distinct c.gpu_keyed
        (Perm.subset p v mem-cons_self) in
    let there = contains_of_lookup v.session_id r.gpu v found in
    record {
      gone = v ∷ s.gone;
      kept = s.kept;
      split = ap (λ (es : List CacheEntry). v ∷ es) s.split;
      holds = s.holds;
      fits = rw cap at s.fits;
      needed = (
        omega (arith, sum_by-eq_of_perm (λ (e : CacheEntry). e.tokens) p, ap tokens_of s.split),
        subst (λ n. NeedsAll n s.gone s.kept) cap s.needed,
      );
      consistent = s.consistent;
      rest = SameRest-trans same s.rest;
      conserved = s.conserved ∙ resident-give_up r c v there now_ms;
    }

pub shed-Shed :
    (victims : List CacheEntry) (now_ms : ℕ) (r : Replica)
    → IsConsistent r
    → Perm victims (values r.gpu)
    → Shed victims r (shed victims now_ms r)
unfolding shed gpu_tokens
shed-Shed [] now_ms r c p = record {
  gone = [];
  kept = [];
  split = refl;
  holds = p;
  fits = omega (arith, sum_by-eq_of_perm (λ (e : CacheEntry). e.tokens) p);
  needed = tt;
  consistent = c;
  rest = SameRest-refl r;
  conserved = refl;
}
shed-Shed (v ∷ victims) now_ms r c p =
    elim (Bool-cases (leb (gpu_tokens r) r.hw.gpu_cache_tokens)) [
      | inl fits ↦
          rw (fits, shed)
            (record {
              gone = [];
              kept = v ∷ victims;
              split = refl;
              holds = p;
              fits = leb→le _ _ fits;
              needed = tt;
              consistent = c;
              rest = SameRest-refl r;
              conserved = refl;
            })
      | inr over ↦
          rw (over, shed)
            (Shed-cons v victims now_ms r _ c p (ground arith) (
              shed-Shed victims now_ms (give_up r v now_ms) (give_up-IsConsistent r c v now_ms)
                (rw give_up-gpu (perm-give_up r v victims c p))))
    ]

trim_rounds-eq_self : (n : ℕ) (r : Replica) → IsConsistent r → trim_rounds n r ≡ r
unfolding trim_rounds
trim_rounds-eq_self zero r c = refl
trim_rounds-eq_self (suc n) r c =
    let within : ltb r.hw.dram_cache_tokens (dram_tokens r) ≡ false =
      ground (arith, c.dram_bounded) in
    rw (within, trim_rounds)

-- On a consistent replica the DRAM tier is within its capacity, so trimming it changes nothing.
pub trim_dram-eq_self : (r : Replica) → IsConsistent r → trim_dram r ≡ r
unfolding trim_dram
trim_dram-eq_self r c = trim_rounds-eq_self (length r.dram) r c

-- From a consistent replica, the entries that `_enforce_capacity` gives up are a shortest prefix
-- of the policy's order after which the GPU tier is within its capacity. The tier then holds
-- exactly the other entries, the replica is consistent, the rest of its state is unchanged, and
-- the resident entries and the evictions together stay the same in number.
pub enforce_capacity-Shed :
    (r : Replica) (now_ms : ℕ)
    → IsConsistent r
    → Shed (r.policy.victim_order (values r.gpu) now_ms) r (enforce_capacity r now_ms)
unfolding enforce_capacity gpu_tokens
enforce_capacity-Shed r now_ms c =
    let victims = r.policy.victim_order (values r.gpu) now_ms in
    let p = r.policy.victim_order-perm (values r.gpu) now_ms in
    elim (Bool-cases (leb (gpu_tokens r) r.hw.gpu_cache_tokens)) [
      | inl fits ↦
          rw (fits, enforce_capacity)
            (record {
              gone = [];
              kept = victims;
              split = refl;
              holds = p;
              fits = leb→le _ _ fits;
              needed = tt;
              consistent = c;
              rest = SameRest-refl r;
              conserved = refl;
            })
      | inr over ↦
          let s = shed-Shed victims now_ms r c p in
          rw (over, trim_dram-eq_self (shed victims now_ms r) s.consistent) s
    ]
