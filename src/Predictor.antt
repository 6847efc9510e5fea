-- ===== src/Predictor.antt =====
-- agentserve/predictor.py: the learned tool durations.
pub mod Answers
pub mod Range
pub mod Reads
use agentserve.Common.{
  ℕ, ◌+◌, ◌-◌, ◌*◌, ◌/◌, ltb, leb, String, Bool, Option, none, some, truthy, List, [], Perm,
  if◌then◌else◌,
}
use agentserve.Common.Sort.{sorted}
use agentserve.Common.Text.{codes, less_codes}
use agentserve.Common.Dict.{Dict, lookup, insert}
use agentserve.Common.Int.{ℤ, pos, negsuc}
use agentserve.Config.{PredictorConfig}
use agentserve.Result.{Result, ok, raise, key_error, value_error}

pub record ToolDurationPredictor : Type 0 where
  pub config : PredictorConfig
  pub tool_ewma : Dict ℕ
  pub tool_counts : Dict ℕ
  pub session_ewma : Dict ℕ
  pub global_ewma : ℕ
  pub observations : ℕ

unfoldable pub init : PredictorConfig → ToolDurationPredictor
init config = record {
  config = config;
  tool_ewma = [];
  tool_counts = [];
  session_ewma = [];
  global_ewma = config.prior_ms;
  observations = 0;
}

abbrev pub get_or_default : Option ℕ → ℕ → ℕ
get_or_default none default = default
get_or_default (some v) default = v

-- `a * duration_ms + (1 - a) * prev`, with `a` in thousandths. The result is rounded down to a tick.
unfoldable pub ewma : ℕ → ℕ → ℕ → ℕ
ewma a duration_ms prev = (a * duration_ms + (1000 - a) * prev) / 1000

module _ (p : ToolDurationPredictor) where
  -- The `if tool_name:` block of `observe`.
  unfoldable pub observe_tool : Option String → ℕ → ToolDurationPredictor
  unfolding ewma
  observe_tool none duration_ms = p
  observe_tool (some tool_name) duration_ms =
      let prev = get_or_default (lookup tool_name p.tool_ewma) duration_ms in
      let count = get_or_default (lookup tool_name p.tool_counts) 0 in
      if truthy (some tool_name)
      then record p {
        tool_ewma = insert tool_name (ewma p.config.ewma_alpha duration_ms prev) p.tool_ewma;
        tool_counts = insert tool_name (count + 1) p.tool_counts;
      }
      else p

  -- The rest of `observe`: the session's average, the global one, and the counter.
  unfoldable pub observe_session : String → ℕ → ToolDurationPredictor
  unfolding ewma
  observe_session session_id duration_ms =
      let a = p.config.ewma_alpha in
      let prev_s = get_or_default (lookup session_id p.session_ewma) duration_ms in
      record p {
        session_ewma = insert session_id (ewma a duration_ms prev_s) p.session_ewma;
        global_ewma = ewma a duration_ms p.global_ewma;
        observations = p.observations + 1;
      }

unfoldable pub observe :
    ToolDurationPredictor → String → Option String → ℤ → Result ToolDurationPredictor
observe p session_id tool_name (negsuc _) = raise value_error
observe p session_id tool_name (pos duration_ms) =
    ok (observe_session (observe_tool p tool_name duration_ms) session_id duration_ms)

-- Reading `self._tool_counts[tool_name]` of a `defaultdict` adds a missing name with count 0.
unfoldable pub touch_count : ToolDurationPredictor → Option String → ToolDurationPredictor
touch_count p none = p
touch_count p (some tool_name) =
    if truthy (some tool_name)
    then elim (lookup tool_name p.tool_counts) [
      | none ↦ record p { tool_counts = insert tool_name 0 p.tool_counts }
      | some _ ↦ p
    ]
    else p

-- The lines of `predict_ms` behind the test of the tool.
unfoldable pub predict_fallback : ToolDurationPredictor → String → ℕ
predict_fallback p session_id = elim (lookup session_id p.session_ewma) [
  | some average ↦ average
  | none ↦ if ltb 0 p.observations then p.global_ewma else p.config.prior_ms
]

-- `tool_name and self._tool_counts[tool_name] >= self.config.min_observations`
unfoldable pub tool_is_known : ToolDurationPredictor → Option String → Bool
tool_is_known p none = Bool.false
tool_is_known p (some tool_name) =
    if truthy (some tool_name)
    then leb p.config.min_observations (get_or_default (lookup tool_name p.tool_counts) 0)
    else Bool.false

abbrev tool_average : ToolDurationPredictor → Option String → Result ℕ
tool_average p none = raise key_error
tool_average p (some tool_name) = elim (lookup tool_name p.tool_ewma) [
  | none ↦ raise key_error
  | some average ↦ ok average
]

-- The estimate, with the predictor as the read leaves it.
unfoldable pub predict_ms :
    ToolDurationPredictor → String → Option String → ToolDurationPredictor × Result ℕ
unfolding touch_count predict_fallback tool_is_known
predict_ms p session_id tool_name = (
  touch_count p tool_name,
  (if tool_is_known p tool_name
      then tool_average p tool_name
      else ok (predict_fallback p session_id)),
)

-- The order of the entries by their tools, which differ.
unfoldable pub named_before : String × ℕ → String × ℕ → Bool
named_before a b = less_codes (codes a.0) (codes b.0)

unfoldable pub snapshot : ToolDurationPredictor → Dict ℕ
unfolding named_before
snapshot p = sorted named_before p.tool_ewma
