-- ===== src/Policy/Order.antt =====
-- agentserve/policy.py: the order in which the policies give up entries.
use agentserve.Common.{ℕ, ◌≤◌, ◌<◌, ◌≡◌, ◌⊎◌, arith, Bool, true, false, List, [], ◌∷◌, All, All_imp}
use agentserve.Common.Int.{ℤ, pos, negsuc, ltb_ℤ}
use agentserve.Common.Sort.{IsSorted, IsOrder, sorted-IsSorted}
use agentserve.Config.{PolicyConfig}
use agentserve.Models.{CacheEntry}
use agentserve.Policy.{
  older_touch, lru_policy, Due, infinite, finite, ltb_score, is_dead, score, higher_score,
  adaptive_ttl_policy,
}

-- Each earlier entry is related to each later one.
abbrev pub InOrder : (CacheEntry → CacheEntry → Type 0) → List CacheEntry → Type 0
InOrder R [] = Unit
InOrder R (e ∷ es) = All (R e) es × InOrder R es

InOrder-of_IsSorted :
    (precedes : CacheEntry → CacheEntry → Bool) {R : CacheEntry → CacheEntry → Type 0}
    → ((e f : CacheEntry) → precedes f e ≡ false → R e f)
    → (es : List CacheEntry) → IsSorted precedes es
    → InOrder R es
InOrder-of_IsSorted precedes h [] s = tt
InOrder-of_IsSorted precedes h (e ∷ es) s =
    (All_imp (h e) es s.0, InOrder-of_IsSorted precedes h es s.1)

older_touch-IsOrder : IsOrder older_touch
unfolding older_touch
older_touch-IsOrder = record {
  asymm = λ e f h. ground arith;
  trans_not = λ e f g h k. ground arith;
}

-- The baseline policy gives up entries by their last touch, the oldest first.
pub lru-victim_order :
    (entries : List CacheEntry) (now_ms : ℕ)
    → InOrder (λ e f. e.last_touch_ms ≤ f.last_touch_ms) (lru_policy.victim_order entries now_ms)
unfolding lru_policy older_touch
lru-victim_order entries now_ms =
    InOrder-of_IsSorted older_touch (λ e f h. ground arith) _
      (sorted-IsSorted older_touch older_touch-IsOrder entries)

ltb_ℤ_asymm : (a b : ℤ) → ltb_ℤ a b ≡ true → ltb_ℤ b a ≡ false
ltb_ℤ_asymm (pos a) b h = ground arith
ltb_ℤ_asymm (negsuc a) b h = ground arith

ltb_score_asymm : (a b : Due × ℕ) → ltb_score a b ≡ true → ltb_score b a ≡ false
ltb_score_asymm (infinite, s) b h = ground arith
ltb_score_asymm (finite a, s) b h = ground arith

ltb_score_trans_not :
    (a b c : Due × ℕ) → ltb_score a b ≡ false → ltb_score b c ≡ false → ltb_score a c ≡ false
ltb_score_trans_not (infinite, s) b c h k = ground arith
ltb_score_trans_not (finite (pos a), s) b c h k = ground arith
ltb_score_trans_not (finite (negsuc a), s) b c h k = ground arith

module _ (config : PolicyConfig) (now_ms : ℕ) where
  higher_score-IsOrder : IsOrder (higher_score config now_ms)
  unfolding higher_score
  higher_score-IsOrder = record {
    asymm = λ e f h. ltb_score_asymm (score config now_ms f) (score config now_ms e) h;
    trans_not = λ e f g h k.
        ltb_score_trans_not (score config now_ms e) (score config now_ms f) (score config now_ms g)
          h k;
  }

  -- `e` is given up before `f` rightly: it is dead, or both are live and `e` is not due earlier.
  -- Of two dead ones, and of two that are due at the same time, `e` was not touched earlier.
  abbrev pub GivenUpBefore : CacheEntry → CacheEntry → Type 0
  GivenUpBefore e f =
      ((is_dead config e now_ms ≡ true)
        × ((is_dead config f now_ms ≡ true) → f.last_touch_ms ≤ e.last_touch_ms))
      ⊎ ((is_dead config e now_ms ≡ false)
          × (is_dead config f now_ms ≡ false)
          × ((f.predicted_return_ms < e.predicted_return_ms)
              ⊎ ((f.predicted_return_ms ≡ e.predicted_return_ms)
                  × (f.last_touch_ms ≤ e.last_touch_ms))))

  GivenUpBefore-of_score :
      (e f : CacheEntry) → higher_score config now_ms f e ≡ false → GivenUpBefore e f
  unfolding higher_score score
  GivenUpBefore-of_score e f h = ground arith

  -- The adaptive policy gives up the dead sessions first, and then the live ones by their
  -- predicted return, the latest first; ties go by the last touch, the most recent first.
  pub adaptive-victim_order :
      (entries : List CacheEntry)
      → InOrder GivenUpBefore ((adaptive_ttl_policy config).victim_order entries now_ms)
  unfolding adaptive_ttl_policy
  adaptive-victim_order entries =
      InOrder-of_IsSorted (higher_score config now_ms) GivenUpBefore-of_score _
        (sorted-IsSorted (higher_score config now_ms) higher_score-IsOrder entries)
