-- ===== src/TurnBudget/Config.antt =====
-- enforcement.py and config.py.
use exoclaw_plugins.Prelude.{ℕ, String, Option, List, Dict}

-- The four values of `Enforcement`.
pub data Enforcement : Type 0 where
  observe warn cutoff fallback : Enforcement

pub record TurnConfig (W : Type 0) : Type 0 where
  pub iteration_budget : Option ℕ
  pub token_budget : Option ℕ
  pub warning_thresholds : List W
  pub enforcement : Enforcement
  pub fallback_model : Option String
  pub warning_template : String
  pub cutoff_template : String
  pub tool_strip_threshold : Option W
  pub tool_strip_disallow : List String
  pub tool_strip_template : String
  pub cached_token_weight : W
  pub model_weights : Dict W

pub record DailyConfig (W : Type 0) : Type 0 where
  pub daily_budget : ℕ
  pub primary_models : List String
  pub warning_thresholds : List W
  pub enforcement : Enforcement
  pub fallback_model : Option String
  pub reset_hour_utc : ℕ
  pub warning_template : String
  pub cutoff_template : String
  pub fallback_template : String
  pub cached_token_weight : W

-- The keyword arguments of `_format`; `none` as the cap is shown as "∞".
pub record FormatArgs : Type 0 where
  pub template : String
  pub scope : String
  pub pct : ℕ
  pub used : ℕ
  pub cap : Option ℕ
  pub unit : String
  pub disallow_clause : Option String
