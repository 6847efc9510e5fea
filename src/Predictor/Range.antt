-- ===== src/Predictor/Range.antt =====
-- The range of the averages and of the estimates of agentserve/predictor.py.
use agentserve.Common.{
  ℕ, ◌+◌, ◌-◌, ◌*◌, ◌≤◌, ◌≡◌, refl, ap, arith, inl, inr, String, true, Option, none, some, List, [],
  ◌∷◌, All, Option-cases, Bool-cases, truthy,
}
use agentserve.Common.Dict.{Dict, lookup}
use agentserve.Common.Dict.Keys.{All-insert, All-lookup}
use native.Mathlib.Nat.{mul-le-mul_left}
use agentserve.Common.Int.{pos}
use agentserve.Config.{PredictorConfig}
use agentserve.Predictor.Answers.{
  CanPredict, observe_tool-CanPredict, observe_session-CanPredict, touch_count-CanPredict,
  tool_average_total,
}
use agentserve.Predictor.{
  ToolDurationPredictor, init, get_or_default, ewma, observe_tool, observe_session, observe,
  touch_count, tool_is_known, tool_average, predict_fallback, predict_ms,
}
use agentserve.Result.{Result, ok, ◌>>=◌}

-- The exact average, before it is rounded.
mix_bounds :
    (a b d prev lo hi : ℕ)
    → a + b ≡ 1000
    → lo ≤ d
    → d ≤ hi
    → lo ≤ prev
    → prev ≤ hi
    → (1000 * lo ≤ a * d + b * prev) × (a * d + b * prev ≤ 1000 * hi)
mix_bounds a b d prev lo hi e h₁ h₂ h₃ h₄ = omega (
  arith,
  ap (λ (t : ℕ). t * lo) e,
  ap (λ (t : ℕ). t * hi) e,
  mul-le-mul_left a h₁,
  mul-le-mul_left b h₃,
  mul-le-mul_left a h₂,
  mul-le-mul_left b h₄,
)

-- An average of two durations lies between them.
pub ewma_bounds :
    (a d prev lo hi : ℕ)
    → a ≤ 1000
    → lo ≤ d
    → d ≤ hi
    → lo ≤ prev
    → prev ≤ hi
    → (lo ≤ ewma a d prev) × (ewma a d prev ≤ hi)
unfolding ewma
ewma_bounds a d prev lo hi ha h₁ h₂ h₃ h₄ =
    omega (arith, mix_bounds a (1000 - a) d prev lo hi (omega arith) h₁ h₂ h₃ h₄)

pub ewma_self : (a d : ℕ) → a ≤ 1000 → ewma a d d ≡ d
unfolding ewma
ewma_self a d ha = omega (arith, mix_bounds a (1000 - a) d d d d (omega arith))

abbrev pub Within : ℕ → ℕ → ℕ → Type 0
Within lo hi v = (lo ≤ v) × (v ≤ hi)

-- All averages lie in the range, and a tool that was counted has an average.
pub record IsLearned (lo hi : ℕ) (p : ToolDurationPredictor) : Type 0 where
  pub alpha : p.config.ewma_alpha ≤ 1000
  pub known : CanPredict p
  pub prior : (lo ≤ p.config.prior_ms) × (p.config.prior_ms ≤ hi)
  pub overall : (lo ≤ p.global_ewma) × (p.global_ewma ≤ hi)
  pub tools : All (λ e. Within lo hi e.1) p.tool_ewma
  pub sessions : All (λ e. Within lo hi e.1) p.session_ewma

module _ (lo hi : ℕ) where
  get_or_default_bounds :
      (k : String) (d : Dict ℕ) (v : ℕ)
      → All (λ e. Within lo hi e.1) d
      → Within lo hi v
      → Within lo hi (get_or_default (lookup k d) v)
  get_or_default_bounds k d v h hv = elim (Option-cases (lookup k d)) [
    | inl e ↦ rw e hv
    | inr (w, e) ↦ rw e (All-lookup (λ e. Within lo hi e.1) k w d h e)
  ]

  ewma_of_lookup :
      (a d : ℕ) (k : String) (averages : Dict ℕ)
      → a ≤ 1000
      → Within lo hi d
      → All (λ e. Within lo hi e.1) averages
      → Within lo hi (ewma a d (get_or_default (lookup k averages) d))
  ewma_of_lookup a d k averages ha hd h =
      let prev = get_or_default_bounds k averages d h hd in
      ewma_bounds a d _ lo hi ha hd.0 hd.1 prev.0 prev.1

  observe_tool-IsLearned :
      (p : ToolDurationPredictor) (tool_name : Option String) (d : ℕ)
      → Within lo hi d
      → IsLearned lo hi p
      → IsLearned lo hi (observe_tool p tool_name d)
  unfolding observe_tool
  observe_tool-IsLearned p none d hd h = h
  observe_tool-IsLearned p (some t) d hd h = elim (Bool-cases (truthy (some t))) [
    | inr empty ↦ rw empty h
    | inl named ↦ rw named (record {
      alpha = h.alpha;
      prior = h.prior;
      overall = h.overall;
      tools =
          All-insert (λ e. Within lo hi e.1) t _ p.tool_ewma
            (ewma_of_lookup p.config.ewma_alpha d t p.tool_ewma h.alpha hd h.tools) h.tools;
      sessions = h.sessions;
      known = rw named at (observe_tool-CanPredict p (some t) d h.known);
    })
  ]

  observe_session-IsLearned :
      (p : ToolDurationPredictor) (session_id : String) (d : ℕ)
      → Within lo hi d
      → IsLearned lo hi p
      → IsLearned lo hi (observe_session p session_id d)
  unfolding observe_session
  observe_session-IsLearned p sid d hd h = record {
    alpha = h.alpha;
    prior = h.prior;
    overall =
        ewma_bounds p.config.ewma_alpha d p.global_ewma lo hi h.alpha hd.0 hd.1 h.overall.0
          h.overall.1;
    tools = h.tools;
    sessions =
        All-insert (λ e. Within lo hi e.1) sid _ p.session_ewma
          (ewma_of_lookup p.config.ewma_alpha d sid p.session_ewma h.alpha hd h.sessions)
          h.sessions;
    known = observe_session-CanPredict p sid d h.known;
  }

  touch_count-IsLearned :
      (p : ToolDurationPredictor) (tool_name : Option String)
      → IsLearned lo hi p
      → IsLearned lo hi (touch_count p tool_name)
  unfolding touch_count
  touch_count-IsLearned p none h = h
  touch_count-IsLearned p (some t) h = elim (Bool-cases (truthy (some t))) [
    | inr empty ↦ rw empty h
    | inl named ↦ elim (Option-cases (lookup t p.tool_counts)) [
      | inr (n, e) ↦ rw (named, e) h
      | inl e ↦
          rw (named, e)
            (record {
              alpha = h.alpha;
              prior = h.prior;
              overall = h.overall;
              tools = h.tools;
              sessions = h.sessions;
              known = rw (named, e) at (touch_count-CanPredict p (some t) h.known);
            })
    ]
  ]

  predict_fallback_bounds :
      (p : ToolDurationPredictor) (session_id : String)
      → IsLearned lo hi p
      → Within lo hi (predict_fallback p session_id)
  unfolding predict_fallback
  predict_fallback_bounds p sid h = elim (Option-cases (lookup sid p.session_ewma)) [
    | inl e ↦ rw (e, predict_fallback) (ground arith)
    | inr (w, e) ↦
        rw (e, predict_fallback)
          (All-lookup (λ e. Within lo hi e.1) sid w p.session_ewma h.sessions e)
  ]

  -- A tool that was counted often enough has an average.
  tool_average_lem :
      (p : ToolDurationPredictor) (t : String)
      → IsLearned lo hi p
      → tool_is_known p (some t) ≡ true
      → (v : ℕ) × (tool_average p (some t) ≡ ok v) × (lo ≤ v) × (v ≤ hi)
  tool_average_lem p t h known =
      let (v, found) = tool_average_total p t h.known known in
      let b = All-lookup (λ e. Within lo hi e.1) t v p.tool_ewma h.tools found in
      (v, rw (found, tool_average), b.0, b.1)

  -- The estimate exists and lies in the range.
  pub predict_ms_bounds :
      (p : ToolDurationPredictor) (session_id : String) (tool_name : Option String)
      → IsLearned lo hi p
      → (v : ℕ) × ((predict_ms p session_id tool_name).1 ≡ ok v) × (lo ≤ v) × (v ≤ hi)
  unfolding predict_ms
  predict_ms_bounds p sid none h =
      let b = predict_fallback_bounds p sid h in (predict_fallback p sid, refl, b.0, b.1)
  predict_ms_bounds p sid (some t) h = elim (Bool-cases (tool_is_known p (some t))) [
    | inl known ↦ rw known (tool_average_lem p t h known)
    | inr unknown ↦
        let b = predict_fallback_bounds p sid h in (predict_fallback p sid, rw unknown, b.0, b.1)
  ]

-- One use of a predictor: `observe` with a measured gap, or `predict_ms`.
pub data Use : Type 0 where
  observed : (session_id : String) (tool_name : Option String) (duration_ms : ℕ) → Use
  predicted : (session_id : String) (tool_name : Option String) → Use

unfoldable pub use_once : Use → ToolDurationPredictor → Result ToolDurationPredictor
use_once (observed s t d) p = observe p s t (pos d)
use_once (predicted s t) p = ok (predict_ms p s t).0

unfoldable pub use_all : List Use → ToolDurationPredictor → Result ToolDurationPredictor
unfolding use_once
use_all [] p = ok p
use_all (u ∷ us) p = use_once u p >>= use_all us

abbrev pub UseWithin : ℕ → ℕ → Use → Type 0
UseWithin lo hi (observed s t d) = Within lo hi d
UseWithin lo hi (predicted s t) = Unit

module _ (lo hi : ℕ) where
  use_all-IsLearned :
      (us : List Use) (p : ToolDurationPredictor)
      → All (UseWithin lo hi) us
      → IsLearned lo hi p
      → (q : ToolDurationPredictor) × (use_all us p ≡ ok q) × IsLearned lo hi q
  unfolding use_all use_once observe predict_ms
  use_all-IsLearned [] p hs h = (p, refl, h)
  use_all-IsLearned (observed s t d ∷ us) p hs h =
      use_all-IsLearned us _ hs.1
        (observe_session-IsLearned lo hi _ s d hs.0 (observe_tool-IsLearned lo hi p t d hs.0 h))
  use_all-IsLearned (predicted s t ∷ us) p hs h =
      use_all-IsLearned us _ hs.1 (touch_count-IsLearned lo hi p t h)

  -- After any uses of a fresh predictor with measured gaps in a range, the prior being in that
  -- range too, `ewma_alpha` at most 1 and `min_observations` positive, `predict_ms` does not
  -- raise, and its estimate lies in the same range.
  pub use_all-predict_ms_bounds :
      (config : PredictorConfig) (us : List Use) (session_id : String) (tool_name : Option String)
      → config.ewma_alpha ≤ 1000
      → 1 ≤ config.min_observations
      → Within lo hi config.prior_ms
      → All (UseWithin lo hi) us
      → (q : ToolDurationPredictor) × (v : ℕ) × (use_all us (init config) ≡ ok q)
        × ((predict_ms q session_id tool_name).1 ≡ ok v)
        × (lo ≤ v)
        × (v ≤ hi)
  unfolding init
  use_all-predict_ms_bounds config us s t ha hm hp hs =
      let (q, ran, learned) = use_all-IsLearned us (init config) hs (record {
        alpha = ha;
        known = record { positive = hm; counted = tt };
        prior = hp;
        overall = hp;
        tools = tt;
        sessions = tt;
      }) in
      let (v, e, low, high) = predict_ms_bounds lo hi q s t learned in (q, v, ran, e, low, high)
