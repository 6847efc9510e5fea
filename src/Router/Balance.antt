-- ===== src/Router/Balance.antt =====
-- agentserve/router.py: the load of replicas and the choice of `_least_loaded`.
use agentserve.Common.Sort.{min_by, min_by-least, min_by_of_all}
use agentserve.Common.{
  ℕ, ◌*◌, ◌≤◌, ◌<◌, ◌≡◌, ◌≢◌, ◌⊎◌, ◌∙◌, refl, sym, ap, subst, arith, inl, inr, max, true, false,
  Option, List, [], ◌∷◌, All, All_imp, Bool-cases,
}
use agentserve.Replica.{Replica, inflight, gpu_tokens, gpu_utilization}
use agentserve.Result.{ok}
use agentserve.Router.{
  less_loaded, avoids, others, candidates, divides_by_zero, least_loaded_of, least_loaded,
}
use mathlib.Core.List.{Mem, mem-cons_self, mem-cons_of_mem}
use native.Mathlib.Nat.{mul-le-mul_right, le_of_mul-le-mul_right, le_of_eq}

-- What the key of `_least_loaded` compares: the requests in flight, then the time at which the
-- replica is free, then the share of the GPU tier that is in use.
abbrev pub AtMostLoaded : ℕ → Replica → Replica → Type 0
AtMostLoaded now_ms x y =
    (inflight x < inflight y)
    ⊎ ((inflight x ≡ inflight y)
        × ((max x.free_at_ms now_ms < max y.free_at_ms now_ms)
            ⊎ ((max x.free_at_ms now_ms ≡ max y.free_at_ms now_ms)
                × (gpu_tokens x * y.hw.gpu_cache_tokens ≤ gpu_tokens y * x.hw.gpu_cache_tokens))))

ratio_trans : (a b c d e f : ℕ) → 0 < d → a * d ≤ c * b → c * f ≤ e * d → a * f ≤ e * b
ratio_trans a b c d e f pos h k =
    le_of_mul-le-mul_right {k = d} (omega (arith, mul-le-mul_right f h, mul-le-mul_right b k)) pos

AtMostLoaded-trans :
    (now_ms : ℕ) (x y z : Replica)
    → 0 < y.hw.gpu_cache_tokens
    → AtMostLoaded now_ms x y
    → AtMostLoaded now_ms y z
    → AtMostLoaded now_ms x z
AtMostLoaded-trans now_ms x y z pos h k = ground (
  arith,
  ratio_trans (gpu_tokens x) x.hw.gpu_cache_tokens (gpu_tokens y) y.hw.gpu_cache_tokens
      (gpu_tokens z) z.hw.gpu_cache_tokens pos,
)

less_loaded-AtMostLoaded :
    (now_ms : ℕ) (x y : Replica) → less_loaded now_ms y x ≡ true → AtMostLoaded now_ms y x
unfolding less_loaded gpu_utilization
less_loaded-AtMostLoaded now_ms x y h = ground (arith, h)

not_less_loaded-AtMostLoaded :
    (now_ms : ℕ) (x y : Replica) → less_loaded now_ms y x ≡ false → AtMostLoaded now_ms x y
unfolding less_loaded gpu_utilization
not_less_loaded-AtMostLoaded now_ms x y h = ground (arith, h)

abbrev pub HasGpu : Replica → Type 0
HasGpu r = 0 < r.hw.gpu_cache_tokens

divides_by_zero_lem : (rs : List Replica) → All HasGpu rs → divides_by_zero rs ≡ false
unfolding divides_by_zero
divides_by_zero_lem [] h = refl
divides_by_zero_lem (r ∷ rs) h = ground (arith, h.0, divides_by_zero_lem rs h.1)

module _ {κ} (P : Replica → Type κ) (avoid : Option ℕ) where
  All-others : (rs : List Replica) → All P rs → All P (others avoid rs)
  unfolding others
  All-others [] h = tt
  All-others (r ∷ rs) h = elim (Bool-cases (avoids avoid r)) [
    | inl keep ↦ rw keep (h.0, All-others rs h.1)
    | inr skip ↦ rw skip (All-others rs h.1)
  ]

  pub All-candidates : (rs : List Replica) → All P rs → All P (candidates avoid rs)
  unfolding candidates
  All-candidates rs h = go (others avoid rs) refl
    where
      go : (os : List Replica) → others avoid rs ≡ os → All P (candidates avoid rs)
      go [] e = rw (e, candidates) h
      go (o ∷ os) e = rw (e, candidates) (rw e at (All-others rs h))

others-avoids :
    (avoid : Option ℕ) (rs : List Replica) → All (λ r. avoids avoid r ≡ true) (others avoid rs)
unfolding others
others-avoids avoid [] = tt
others-avoids avoid (r ∷ rs) = elim (Bool-cases (avoids avoid r)) [
  | inl keep ↦ rw keep (keep, others-avoids avoid rs)
  | inr skip ↦ rw skip (others-avoids avoid rs)
]

All-Mem : (rs : List Replica) → All (λ r. Mem r rs) rs
All-Mem [] = tt
All-Mem (r ∷ rs) = (mem-cons_self, All_imp (λ x m. mem-cons_of_mem r m) rs (All-Mem rs))

-- What `_least_loaded` returns.
pub record IsLeastLoaded (replicas : List Replica) (now_ms : ℕ) (avoid : Option ℕ) (r : Replica)
    : Type 0 where
  pub member : Mem r replicas
  pub least : All (AtMostLoaded now_ms r) (candidates avoid replicas)
  pub avoided : others avoid replicas ≢ [] → avoids avoid r ≡ true

-- The choice among candidates that are known.
least_loaded_of_lem :
    (now_ms : ℕ) (r : Replica) (rs : List Replica)
    → All HasGpu (r ∷ rs)
    → (m : Replica) × (least_loaded_of now_ms (r ∷ rs) ≡ ok m)
      × (min_by (less_loaded now_ms) r rs ≡ m)
      × All (AtMostLoaded now_ms m) (r ∷ rs)
unfolding least_loaded_of
least_loaded_of_lem now_ms r rs h =
    let m = min_by (less_loaded now_ms) r rs in
    let (_, first, rest) =
      min_by-least (less_loaded now_ms) (AtMostLoaded now_ms) HasGpu
        (λ x y e. less_loaded-AtMostLoaded now_ms x y e)
        (λ x y e. not_less_loaded-AtMostLoaded now_ms x y e)
        (λ x. inr (refl, inr (refl, le_of_eq refl))) (AtMostLoaded-trans now_ms) r rs m refl h.0
        h.1 in
    (m, rw (divides_by_zero_lem (r ∷ rs) h), refl, (first, rest))

candidates-ne-nil : (avoid : Option ℕ) (rs : List Replica) → rs ≢ [] → candidates avoid rs ≢ []
unfolding candidates
candidates-ne-nil avoid rs h = ground (arith, h)

candidates-eq-others :
    (avoid : Option ℕ) (rs : List Replica)
    → others avoid rs ≢ []
    → candidates avoid rs ≡ others avoid rs
unfolding candidates
candidates-eq-others avoid rs h = ground (arith, h)

-- If there is a replica, and all have a GPU tier, `_least_loaded` does not raise: it returns one
-- of the replicas, no candidate is less loaded, and it is not the one to avoid if there is
-- another.
pub least_loaded-IsLeastLoaded :
    (replicas : List Replica) (now_ms : ℕ) (avoid : Option ℕ)
    → replicas ≢ []
    → All HasGpu replicas
    → (r : Replica) × (least_loaded replicas now_ms avoid ≡ ok r)
      × IsLeastLoaded replicas now_ms avoid r
unfolding least_loaded
least_loaded-IsLeastLoaded replicas now_ms avoid some_replica gpus =
    go (candidates avoid replicas) refl
  where
    go :
        (cs : List Replica)
        → candidates avoid replicas ≡ cs
        → (r : Replica) × (least_loaded replicas now_ms avoid ≡ ok r)
          × IsLeastLoaded replicas now_ms avoid r
    go [] e = absurd (candidates-ne-nil avoid replicas some_replica e)
    go (c ∷ cs) e =
        let (m, ran, is_min, least) =
          least_loaded_of_lem now_ms c cs (rw e at (All-candidates HasGpu avoid replicas gpus)) in
        (
          m,
          ap (least_loaded_of now_ms) e ∙ ran,
          record {
            member =
                let here =
                  rw e at
                    (All-candidates (λ x. Mem x replicas) avoid replicas (All-Mem replicas)) in
                subst (λ x. Mem x replicas) is_min
                  (min_by_of_all (less_loaded now_ms) (λ x. Mem x replicas) c cs here.0 here.1);
            least = rw e least;
            avoided = λ other.
                let there =
                  rw (sym (candidates-eq-others avoid replicas other) ∙ e) at
                    (others-avoids avoid replicas) in
                subst (λ x. avoids avoid x ≡ true) is_min
                  (min_by_of_all (less_loaded now_ms) (λ x. avoids avoid x ≡ true) c cs there.0
                    there.1);
          },
        )
