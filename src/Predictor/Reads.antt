-- ===== src/Predictor/Reads.antt =====
-- agentserve/predictor.py: what a prediction leaves unchanged, and which average it reads.
use agentserve.Common.{
  ℕ, ◌+◌, ◌≤◌, ◌≡◌, ◌∙◌, refl, ap, arith, inl, inr, ◌⊎◌, String, true, false, Option, none, some,
  List, [], ◌∷◌, All, Bool-cases, truthy, eq_iff, le→leb, str_eq, if◌then◌else◌,
}
use agentserve.Common.Dict.{lookup}
use agentserve.Common.Dict.Laws.{lookup-insert}
use agentserve.Config.{PredictorConfig}
use agentserve.Predictor.Range.{Use, observed, predicted, use_once, use_all, ewma_self}
use agentserve.Predictor.{
  ToolDurationPredictor, init, get_or_default, ewma, observe_tool, observe_session, observe,
  touch_count, tool_is_known, tool_average, predict_fallback, predict_ms,
}
use agentserve.Result.{ok}
use native.Mathlib.Nat.{add-zero, add_assoc}

module _ (p : ToolDurationPredictor) where
  -- The count that a read adds is 0, what a missing name counts as.
  touch_count-count :
      (t : Option String) (u : String)
      → get_or_default (lookup u (touch_count p t).tool_counts) 0
        ≡ get_or_default (lookup u p.tool_counts) 0
  unfolding touch_count
  touch_count-count none u = refl
  touch_count-count (some t) u = ground (arith, lookup-insert t u 0 p.tool_counts, eq_iff t u)

  touch_count-rest :
      (t : Option String)
      → touch_count p t ≡ record p { tool_counts = (touch_count p t).tool_counts }
  unfolding touch_count
  touch_count-rest none = refl
  touch_count-rest (some t) = ground arith

  touch_count-tool_is_known :
      (t u : Option String) → tool_is_known (touch_count p t) u ≡ tool_is_known p u
  unfolding tool_is_known
  touch_count-tool_is_known t none = refl
  touch_count-tool_is_known t (some u) =
      ground (arith, touch_count-count t u, ap (λ q. q.config) (touch_count-rest t))

  touch_count-tool_average :
      (t u : Option String) → tool_average (touch_count p t) u ≡ tool_average p u
  touch_count-tool_average t none = refl
  touch_count-tool_average t (some u) =
      ap (λ (q : ToolDurationPredictor). tool_average q (some u)) (touch_count-rest t)

  touch_count-predict_fallback :
      (t : Option String) (s : String) → predict_fallback (touch_count p t) s ≡ predict_fallback p s
  unfolding predict_fallback
  touch_count-predict_fallback t s =
      ap (λ (q : ToolDurationPredictor). predict_fallback q s) (touch_count-rest t)

  -- A prediction changes no later prediction, though it may add a count to the predictor.
  pub predict_ms-after_predict_ms :
      (s s' : String) (t t' : Option String)
      → (predict_ms (predict_ms p s t).0 s' t').1 ≡ (predict_ms p s' t').1
  unfolding predict_ms
  predict_ms-after_predict_ms s s' t t' = rw (
    touch_count-tool_is_known t t',
    touch_count-tool_average t t',
    touch_count-predict_fallback t s',
  )

-- The number of measured gaps of a tool.
abbrev pub times_observed : String → List Use → ℕ
times_observed t [] = 0
times_observed t (observed s none d ∷ us) = times_observed t us
times_observed t (observed s (some u) d ∷ us) = (if str_eq u t then 1 else 0) + times_observed t us
times_observed t (predicted s u ∷ us) = times_observed t us

-- Each measured gap of the tool is `d`.
abbrev pub AlwaysTakes : String → ℕ → Use → Type 0
AlwaysTakes t d (observed s u d') = u ≡ some t → d' ≡ d
AlwaysTakes t d (predicted s u) = Unit

-- A tool is counted `n` times, and has the average `d` if it is counted at all.
record IsSteady (m : ℕ) (t : String) (d n : ℕ) (p : ToolDurationPredictor) : Type 0 where
  alpha : p.config.ewma_alpha ≤ 1000
  minimum : p.config.min_observations ≡ m
  count : get_or_default (lookup t p.tool_counts) 0 ≡ n
  average : ((n ≡ 0) × (lookup t p.tool_ewma ≡ none)) ⊎ (lookup t p.tool_ewma ≡ some d)

module _ (m : ℕ) (t : String) (d : ℕ) (named : truthy (some t) ≡ true) where
  observe_tool-IsSteady_self :
      (p : ToolDurationPredictor) (n : ℕ)
      → IsSteady m t d n p
      → IsSteady m t d (n + 1) (observe_tool p (some t) d)
  unfolding observe_tool
  observe_tool-IsSteady_self p n h =
      let prev = get_or_default (lookup t p.tool_ewma) d in
      let a = p.config.ewma_alpha in
      let kept : prev ≡ d = elim h.average [ inl z ↦ rw (z.1) | inr e ↦ rw e ] in
      rw named (record {
        alpha = h.alpha;
        minimum = h.minimum;
        count = ground (
          arith,
          h.count,
          eq_iff t t,
          lookup-insert t t (get_or_default (lookup t p.tool_counts) 0 + 1) p.tool_counts,
        );
        average = inr (
            ground (
              arith,
              lookup-insert t t (ewma a d prev) p.tool_ewma,
              eq_iff t t,
              kept,
              ewma_self a d h.alpha,
              ap (ewma a d) kept,
            ));
      })

  observe_tool-IsSteady_ne :
      (p : ToolDurationPredictor) (u : String) (d' n : ℕ)
      → str_eq u t ≡ false
      → IsSteady m t d n p
      → IsSteady m t d n (observe_tool p (some u) d')
  unfolding observe_tool
  observe_tool-IsSteady_ne p u d' n ne h =
      let prev = get_or_default (lookup u p.tool_ewma) d' in
      let next = ewma p.config.ewma_alpha d' prev in
      let count = get_or_default (lookup u p.tool_counts) 0 + 1 in
      elim (Bool-cases (truthy (some u))) [
        | inr empty ↦ rw empty h
        | inl full ↦ rw full (record {
          alpha = h.alpha;
          minimum = h.minimum;
          count = ground (arith, h.count, ne, lookup-insert u t count p.tool_counts);
          average = rw (lookup-insert u t next p.tool_ewma, ne) h.average;
        })
      ]

  observe_session-IsSteady :
      (p : ToolDurationPredictor) (s : String) (d' n : ℕ)
      → IsSteady m t d n p
      → IsSteady m t d n (observe_session p s d')
  unfolding observe_session
  observe_session-IsSteady p s d' n h = record {
    alpha = h.alpha;
    minimum = h.minimum;
    count = h.count;
    average = h.average;
  }

  touch_count-IsSteady :
      (p : ToolDurationPredictor) (u : Option String) (n : ℕ)
      → IsSteady m t d n p
      → IsSteady m t d n (touch_count p u)
  touch_count-IsSteady p u n h = rw (touch_count-rest p u) (record {
    alpha = h.alpha;
    minimum = h.minimum;
    count = touch_count-count p u t ∙ h.count;
    average = h.average;
  })

  -- `observe` with a tool that may or may not be `t`.
  observe_tool-IsSteady :
      (p : ToolDurationPredictor) (u : String) (d' n : ℕ)
      → (some u ≡ some t → d' ≡ d)
      → IsSteady m t d n p
      → IsSteady m t d (n + (if str_eq u t then 1 else 0)) (observe_tool p (some u) d')
  observe_tool-IsSteady p u d' n always h = elim (Bool-cases (str_eq u t)) [
    | inr ne ↦ rw (ne, add-zero) (observe_tool-IsSteady_ne p u d' n ne h)
    | inl e ↦
        let same : u ≡ t = (eq_iff u t).0 e in
        rw (e, same, always (ap some same)) (observe_tool-IsSteady_self p n h)
  ]

  use_all-IsSteady :
      (us : List Use) (p : ToolDurationPredictor) (n : ℕ)
      → All (AlwaysTakes t d) us
      → IsSteady m t d n p
      → (q : ToolDurationPredictor) × (use_all us p ≡ ok q)
        × IsSteady m t d (n + times_observed t us) q
  unfolding use_all use_once observe observe_tool predict_ms
  use_all-IsSteady [] p n always h = (p, refl, rw add-zero h)
  use_all-IsSteady (observed s none d' ∷ us) p n always h =
      use_all-IsSteady us _ n always.1 (observe_session-IsSteady p s d' n h)
  use_all-IsSteady (observed s (some u) d' ∷ us) p n always h =
      rw (← add_assoc n (if str_eq u t then 1 else 0) (times_observed t us)) (
        use_all-IsSteady us _ (n + (if str_eq u t then 1 else 0)) always.1
          (observe_session-IsSteady _ s d' _ (observe_tool-IsSteady p u d' n always.0 h)))
  use_all-IsSteady (predicted s u ∷ us) p n always h =
      use_all-IsSteady us _ n always.1 (touch_count-IsSteady p u n h)

  -- The reading of a steady tool.
  predict_ms_of_IsSteady :
      (p : ToolDurationPredictor) (s : String) (n : ℕ)
      → IsSteady m t d n p
      → 1 ≤ n
      → m ≤ n
      → (predict_ms p s (some t)).1 ≡ ok d
  unfolding predict_ms tool_is_known
  predict_ms_of_IsSteady p s n h some_gap enough = elim h.average [
    | inl z ↦ absurd (omega arith)
    | inr e ↦ rw (named, h.count, h.minimum, le→leb m n enough, tool_average, e)
  ]

-- A tool with a name that is not empty, whose measured gaps were all `d`, and that was measured at
-- least `min_observations` times and at least once, is predicted to take `d`, whatever else the
-- fresh predictor was used for, `ewma_alpha` being at most 1.
pub use_all-predict_ms_steady :
    (config : PredictorConfig) (us : List Use) (session_id t : String) (d : ℕ)
    → config.ewma_alpha ≤ 1000
    → truthy (some t) ≡ true
    → All (AlwaysTakes t d) us
    → 1 ≤ times_observed t us
    → config.min_observations ≤ times_observed t us
    → (q : ToolDurationPredictor) × (use_all us (init config) ≡ ok q)
      × ((predict_ms q session_id (some t)).1 ≡ ok d)
unfolding init lookup
use_all-predict_ms_steady config us s t d ha named always once enough =
    let (q, ran, steady) =
      use_all-IsSteady config.min_observations t d named us (init config) 0 always
        (record { alpha = ha; minimum = refl; count = refl; average = inl (refl, refl) }) in
    (
      q,
      ran,
      predict_ms_of_IsSteady config.min_observations t d named q s _ steady (omega arith)
          (omega arith),
    )
