-- ===== src/Predictor/Answers.antt =====
-- agentserve/predictor.py: when `predict_ms` has an average to return.
use agentserve.Common.{
  ℕ, ◌≤◌, ◌≡◌, refl, arith, inl, inr, ◌⊎◌, String, true, Option, none, some, All, All_imp,
  Option-cases, Bool-cases, truthy,
}
use agentserve.Common.Dict.{Dict, lookup, insert, contains}
use agentserve.Common.Dict.Keys.{All-insert, All-lookup}
use agentserve.Common.Dict.Laws.{contains-insert, contains-insert_self, lookup_of_contains}
use agentserve.Predictor.{
  ToolDurationPredictor, observe_tool, observe_session, touch_count, tool_is_known, tool_average,
  predict_fallback, predict_ms,
}
use agentserve.Result.{ok}

-- A tool that was counted has an average.
abbrev pub Counted : Dict ℕ → String × ℕ → Type 0
Counted averages e = (e.1 ≡ 0) ⊎ (contains e.0 averages ≡ true)

pub record CanPredict (p : ToolDurationPredictor) : Type 0 where
  pub positive : 1 ≤ p.config.min_observations
  pub counted : All (Counted p.tool_ewma) p.tool_counts

Counted-insert :
    (k : String) (v : ℕ) (d : Dict ℕ) (e : String × ℕ) → Counted d e → Counted (insert k v d) e
Counted-insert k v d e (inl z) = inl z
Counted-insert k v d e (inr c) = inr (ground (arith, contains-insert k e.0 v d))

pub observe_tool-CanPredict :
    (p : ToolDurationPredictor) (tool_name : Option String) (d : ℕ)
    → CanPredict p
    → CanPredict (observe_tool p tool_name d)
unfolding observe_tool
observe_tool-CanPredict p none d h = h
observe_tool-CanPredict p (some t) d h = elim (Bool-cases (truthy (some t))) [
  | inr empty ↦ rw empty h
  | inl named ↦ rw named (record {
    positive = h.positive;
    counted =
        All-insert (Counted _) t _ p.tool_counts (inr (contains-insert_self t _ p.tool_ewma))
          (All_imp (Counted-insert t _ p.tool_ewma) p.tool_counts h.counted);
  })
]

pub observe_session-CanPredict :
    (p : ToolDurationPredictor) (session_id : String) (d : ℕ)
    → CanPredict p
    → CanPredict (observe_session p session_id d)
unfolding observe_session
observe_session-CanPredict p sid d h = record { positive = h.positive; counted = h.counted }

pub touch_count-CanPredict :
    (p : ToolDurationPredictor) (tool_name : Option String)
    → CanPredict p
    → CanPredict (touch_count p tool_name)
unfolding touch_count
touch_count-CanPredict p none h = h
touch_count-CanPredict p (some t) h = elim (Bool-cases (truthy (some t))) [
  | inr empty ↦ rw empty h
  | inl named ↦ elim (Option-cases (lookup t p.tool_counts)) [
    | inr (n, e) ↦ rw (named, e) h
    | inl e ↦
        rw (named, e)
          (record {
            positive = h.positive;
            counted = All-insert (Counted _) t 0 p.tool_counts (inl refl) h.counted;
          })
  ]
]

-- A tool that was counted often enough has an average.
pub tool_average_total :
    (p : ToolDurationPredictor) (t : String)
    → CanPredict p
    → tool_is_known p (some t) ≡ true
    → (v : ℕ) × (lookup t p.tool_ewma ≡ some v)
unfolding tool_is_known
tool_average_total p t h known = elim (Option-cases (lookup t p.tool_counts)) [
  | inl e ↦ absurd (let low = h.positive in ground arith)
  | inr (n, e) ↦ elim (All-lookup (Counted p.tool_ewma) t n p.tool_counts h.counted e) [
    | inl zero_count ↦ absurd (let low = h.positive in ground arith)
    | inr there ↦ lookup_of_contains t p.tool_ewma there
  ]
]

pub predict_ms_total :
    (p : ToolDurationPredictor) (session_id : String) (tool_name : Option String)
    → CanPredict p
    → (v : ℕ) × ((predict_ms p session_id tool_name).1 ≡ ok v)
unfolding predict_ms
predict_ms_total p sid none h = (_, refl)
predict_ms_total p sid (some t) h = elim (Bool-cases (tool_is_known p (some t))) [
  | inl known ↦
      let (v, found) = tool_average_total p t h known in (v, rw (known, found, tool_average))
  | inr unknown ↦ (predict_fallback p sid, rw unknown)
]
