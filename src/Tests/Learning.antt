-- ===== src/Tests/Learning.antt =====
-- agentserve/predictor.py on two tools.
use agentserve.Common.{ℕ, ◌≡◌, ◌≤◌, refl, arith, none, some, List, [], ◌∷◌}
use agentserve.Config.{default_predictor}
use agentserve.Predictor.Range.{Use, observed, predicted, use_all, use_all-predict_ms_bounds}
use agentserve.Predictor.Reads.{use_all-predict_ms_steady}
use agentserve.Predictor.{ToolDurationPredictor, init, predict_ms}
use agentserve.Result.{ok}

abbrev uses : List Use
uses =
    observed "s" (some "grep") 900_000
    ∷ predicted "s" (some "test")
    ∷ observed "u" none 40_000_000
    ∷ observed "s" (some "grep") 900_000
    ∷ []

use_all-predict_ms_bounds_example :
    (q : ToolDurationPredictor) × (v : ℕ) × (use_all uses (init default_predictor) ≡ ok q)
    × ((predict_ms q "s" (some "test")).1 ≡ ok v)
    × (900_000 ≤ v)
    × (v ≤ 40_000_000)
use_all-predict_ms_bounds_example =
    use_all-predict_ms_bounds 900_000 40_000_000 default_predictor uses "s" (some "test")
      (omega arith) (omega arith) (omega arith) (omega arith)

use_all-predict_ms_steady_example :
    (q : ToolDurationPredictor) × (use_all uses (init default_predictor) ≡ ok q)
    × ((predict_ms q "u" (some "grep")).1 ≡ ok 900_000)
use_all-predict_ms_steady_example =
    use_all-predict_ms_steady default_predictor uses "u" "grep" 900_000 (omega arith) refl
      (
        (λ _. refl),
        (tt, ((λ (e : none ≡ some "grep"). absurd (ground (arith, e))), ((λ _. refl), tt))),
      )
      (omega arith) (omega arith)
