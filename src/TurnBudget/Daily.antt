-- ===== src/TurnBudget/Daily.antt =====
-- `_day_key` and `DailyBudgetTracker` of tracker.py, with the state that it keeps in a
-- `BudgetStateStore` (store.py). Times are whole seconds since the epoch, after `reset_hour_utc`
-- of its first day. The stored state is one that `_persist` wrote, or none.
pub mod Marks
pub mod Restart
use exoclaw_plugins.Prelude.{
  ℕ, suc, zero, ◌+◌, ◌-◌, ◌*◌, ◌/◌, String, Bool, true, false, not, ◌&&◌, Option, none, some, List,
  [], ◌∷◌, Dict, contains, reverse, leb, ◌==◌, if◌then◌else◌,
}
use exoclaw_plugins.TurnBudget.Floats.{Floats, sorted_desc}
use exoclaw_plugins.TurnBudget.Config.{
  Enforcement, observe, warn, cutoff, fallback, DailyConfig, FormatArgs,
}
use exoclaw_plugins.TurnBudget.Usage.{coerce_total_tokens}
use exoclaw_plugins.TurnBudget.Thresholds.{cross}

abbrev pub seconds_per_day : ℕ
seconds_per_day = 86400

unfoldable pub day_key : ℕ → ℕ → ℕ
day_key now reset_hour_utc = (now - reset_hour_utc * 3600) / seconds_per_day

-- The dictionary that `_persist` saves.
pub record Saved (W : Type 0) : Type 0 where
  pub day_key : ℕ
  pub total_tokens : ℕ
  pub warned_thresholds : List W
  pub at_limit_warning_pending : Bool

pub record Daily (W : Type 0) : Type 0 where
  pub config : DailyConfig W
  pub day : ℕ
  pub total_tokens : ℕ
  pub warned_thresholds : List W
  pub at_limit_warning_pending : Bool
  pub last_consumed_threshold : Option W
  pub store : Option (Saved W)

module _ {W : Type 0} where
  unfoldable pub restore : Daily W → Daily W
  restore d = elim d.store [
    | none ↦ d
    | some saved ↦
        if saved.day_key == d.day
        then record d {
          total_tokens = saved.total_tokens;
          warned_thresholds = saved.warned_thresholds;
          at_limit_warning_pending = saved.at_limit_warning_pending;
        }
        else d
  ]

  -- `__init__` at the time `now` over what the store holds.
  unfoldable pub init : DailyConfig W → ℕ → Option (Saved W) → Daily W
  init config now store = restore (record {
    config = config;
    day = day_key now config.reset_hour_utc;
    total_tokens = 0;
    warned_thresholds = [];
    at_limit_warning_pending = true;
    last_consumed_threshold = none;
    store = store;
  })

  unfoldable pub counts_against_budget : DailyConfig W → Option String → Bool
  counts_against_budget config model = elim config.primary_models [
    | [] ↦ true
    | p ∷ ps ↦ elim model [ none ↦ false | some m ↦ contains m (p ∷ ps) ]
  ]

  unfoldable pub is_at_limit : Daily W → Bool
  is_at_limit d = leb d.config.daily_budget d.total_tokens

  abbrev pub dominant_axis : Daily W → ℕ × Option ℕ × String
  dominant_axis d = (d.total_tokens, some d.config.daily_budget, "tokens")

module _ {W : Type 0} ⦃f : Floats W⦄ where
  -- `sorted(self._warned_thresholds)`
  abbrev pub sorted_asc : List W → List W
  sorted_asc xs = reverse (sorted_desc xs)

  abbrev pub saved_of : Daily W → Saved W
  saved_of d = record {
    day_key = d.day;
    total_tokens = d.total_tokens;
    warned_thresholds = sorted_asc d.warned_thresholds;
    at_limit_warning_pending = d.at_limit_warning_pending;
  }

  unfoldable pub persist : Daily W → Daily W
  persist d = record d { store = some (saved_of d) }

  unfoldable pub maybe_auto_reset : ℕ → Daily W → Daily W
  maybe_auto_reset now d =
      let current = day_key now d.config.reset_hour_utc in
      if current == d.day
      then d
      else persist (record d {
        day = current;
        total_tokens = 0;
        warned_thresholds = [];
        at_limit_warning_pending = true;
        last_consumed_threshold = none;
      })

  -- `record`
  unfoldable pub record_usage : Option (Dict ℕ) → Option String → Daily W → Daily W
  record_usage usage model d =
      if counts_against_budget d.config model
      then persist (record d {
        total_tokens = d.total_tokens + coerce_total_tokens usage d.config.cached_token_weight;
      })
      else d

  unfoldable pub utilization : Daily W → W
  utilization d = elim d.config.daily_budget [
    | zero ↦ f.nought
    | suc b ↦ f.ratio d.total_tokens (suc b)
  ]

  module _ (format : FormatArgs → String) where
    unfoldable pub format_at : String → ℕ → Daily W → String
    format_at template pct d = format (record {
      template = template;
      scope = "daily";
      pct = pct;
      used = d.total_tokens;
      cap = some d.config.daily_budget;
      unit = "tokens";
      disallow_clause = none;
    })

    unfoldable pub fire : W × List W → Daily W → Daily W × String
    fire (threshold, warned) d =
        let d' =
          persist
            (record d { warned_thresholds = warned; last_consumed_threshold = some threshold }) in
        (d', format_at d.config.warning_template (f.percent threshold) d')

    unfoldable pub consume_threshold_warning : Bool → Daily W → Daily W × Option String
    consume_threshold_warning force d =
        if not force && is_at_limit d
        then (d, none)
        else elim (cross d.config.warning_thresholds (utilization d) d.warned_thresholds) [
          | none ↦ (d, none)
          | some crossed ↦ let (d', message) = fire crossed d in (d', some message)
        ]

    abbrev pub limit_template : DailyConfig W → Enforcement → String
    limit_template config fallback = config.fallback_template
    limit_template config _ = config.cutoff_template

    unfoldable pub at_limit_message : Daily W → String
    at_limit_message d = format_at (limit_template d.config d.config.enforcement) 100 d

    unfoldable pub consume_at_limit_warning : Daily W → Daily W × Option String
    consume_at_limit_warning d =
        if d.at_limit_warning_pending && is_at_limit d
        then (let d' = persist (record d { at_limit_warning_pending = false }) in
            (d', some (at_limit_message d')))
        else (d, none)
