-- ===== src/TurnBudget/Turn.antt =====
-- `TurnBudgetTracker` of tracker.py.
pub mod Firing
use exoclaw_plugins.Prelude.{
  ℕ, suc, zero, ◌+◌, String, Bool, true, false, not, ◌&&◌, ◌||◌, Option, none, some, List, [], ◌∷◌,
  Dict, lookup, leb, ltb, if◌then◌else◌, str_eq,
}
use exoclaw_plugins.TurnBudget.Floats.{Floats, max_float}
use exoclaw_plugins.TurnBudget.Config.{TurnConfig, FormatArgs}
use exoclaw_plugins.TurnBudget.Usage.{coerce_total_tokens, disallow_clause}
use exoclaw_plugins.TurnBudget.Thresholds.{cross}

pub record Turn (W : Type 0) : Type 0 where
  pub config : TurnConfig W
  pub total_tokens : ℕ
  pub iterations_seen : ℕ
  pub warned_thresholds : List W
  pub at_limit_warning_pending : Bool
  pub last_consumed_threshold : Option W

-- `budget is not None and used >= budget`
abbrev pub is_used_up : ℕ → Option ℕ → Bool
is_used_up used none = false
is_used_up used (some budget) = leb budget used

module _ {W : Type 0} where
  unfoldable pub init : TurnConfig W → Turn W
  init config = record {
    config = config;
    total_tokens = 0;
    iterations_seen = 0;
    warned_thresholds = [];
    at_limit_warning_pending = true;
    last_consumed_threshold = none;
  }

  unfoldable pub reset : Turn W → Turn W
  reset t = record t {
    total_tokens = 0;
    iterations_seen = 0;
    warned_thresholds = [];
    at_limit_warning_pending = true;
    last_consumed_threshold = none;
  }

  -- Turn boundaries are detected by the policy, not by the wrapper.
  unfoldable pub maybe_auto_reset : Turn W → Turn W
  maybe_auto_reset t = t

  unfoldable pub is_at_limit : Turn W → Bool
  is_at_limit t =
      if is_used_up t.iterations_seen t.config.iteration_budget
      then true
      else if is_used_up t.total_tokens t.config.token_budget
      then true
      else false

module _ {W : Type 0} ⦃f : Floats W⦄ where
  -- `model_weights.get(model, 1.0) if model else 1.0`
  unfoldable pub model_weight : TurnConfig W → Option String → W
  model_weight config none = f.unit
  model_weight config (some model) =
      if str_eq model ""
      then f.unit
      else elim (lookup model config.model_weights) [ none ↦ f.unit | some w ↦ w ]

  unfoldable pub charge : TurnConfig W → Option (Dict ℕ) → Option String → ℕ
  charge config usage model =
      f.scale (coerce_total_tokens usage config.cached_token_weight) (model_weight config model)

  -- `record`
  unfoldable pub record_usage : Option (Dict ℕ) → Option String → Turn W → Turn W
  record_usage usage model t = record t {
    iterations_seen = t.iterations_seen + 1;
    total_tokens = t.total_tokens + charge t.config usage model;
  }

  -- `ratios.append(used / budget)`, if the budget is neither `None` nor 0.
  abbrev pub ratio_of : ℕ → Option ℕ → Option W
  ratio_of used none = none
  ratio_of used (some zero) = none
  ratio_of used (some (suc b)) = some (f.ratio used (suc b))

  abbrev pub max_ratio : Option W → Option W → W
  max_ratio none none = f.nought
  max_ratio (some a) none = a
  max_ratio none (some b) = b
  max_ratio (some a) (some b) = max_float a b

  unfoldable pub utilization : Turn W → W
  utilization t =
      max_ratio (ratio_of t.iterations_seen t.config.iteration_budget)
        (ratio_of t.total_tokens t.config.token_budget)

  -- `used / budget if budget else 0.0`
  abbrev pub ratio_or_nought : Option W → W
  ratio_or_nought none = f.nought
  ratio_or_nought (some r) = r

  unfoldable pub dominant_axis : Turn W → ℕ × Option ℕ × String
  dominant_axis t =
      let iter_ratio = ratio_or_nought (ratio_of t.iterations_seen t.config.iteration_budget) in
      let tok_ratio = ratio_or_nought (ratio_of t.total_tokens t.config.token_budget) in
      if f.le tok_ratio iter_ratio
      then (t.iterations_seen, t.config.iteration_budget, "iterations")
      else (t.total_tokens, t.config.token_budget, "tokens")

  unfoldable pub should_strip_tools : Turn W → Bool
  should_strip_tools t = elim t.config.tool_strip_threshold [
    | none ↦ false
    | some threshold ↦ f.le threshold (utilization t)
  ]

  module _ (format : FormatArgs → String) where
    -- `_format_at`; `format` is the `str.format` of `_format`.
    unfoldable pub format_at : String → ℕ → Option String → Turn W → String
    format_at template pct disallow t =
        let (used, cap, unit) = dominant_axis t in
        format (record {
          template = template;
          scope = "turn";
          pct = pct;
          used = used;
          cap = cap;
          unit = unit;
          disallow_clause = disallow;
        })

    -- What a crossed threshold does to the tracker, with the message.
    unfoldable pub fire : W × List W → Turn W → Turn W × String
    fire (threshold, warned) t =
        let t' = record t {
          warned_thresholds = warned;
          last_consumed_threshold = some threshold;
        } in
        (t', format_at t.config.warning_template (f.percent threshold) none t')

    unfoldable pub consume_threshold_warning : Bool → Turn W → Turn W × Option String
    consume_threshold_warning force t =
        if not force && is_at_limit t
        then (t, none)
        else elim (cross t.config.warning_thresholds (utilization t) t.warned_thresholds) [
          | none ↦ (t, none)
          | some crossed ↦ let (t', message) = fire crossed t in (t', some message)
        ]

    unfoldable pub at_limit_message : Turn W → String
    at_limit_message t = format_at t.config.cutoff_template 100 none t

    unfoldable pub consume_at_limit_warning : Turn W → Turn W × Option String
    consume_at_limit_warning t =
        if t.at_limit_warning_pending && is_at_limit t
        then (let t' = record t { at_limit_warning_pending = false } in
            (t', some (at_limit_message t')))
        else (t, none)

    unfoldable pub tool_strip_message : Turn W → String
    tool_strip_message t =
        format_at t.config.tool_strip_template
          (elim t.config.tool_strip_threshold [ none ↦ 0 | some w ↦ f.percent w ])
          (some (disallow_clause t.config.tool_strip_disallow)) t
