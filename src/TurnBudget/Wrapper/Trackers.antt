-- ===== src/TurnBudget/Wrapper/Trackers.antt =====
-- The two trackers of tracker.py, as `BudgetWrapper` of wrapper.py sees them.
use exoclaw_plugins.Prelude.{String, none, some, if◌then◌else◌}
use exoclaw_plugins.TurnBudget.Floats.{Floats}
use exoclaw_plugins.TurnBudget.Config.{FormatArgs}
use exoclaw_plugins.TurnBudget.Turn
use exoclaw_plugins.TurnBudget.Turn.{Turn}
use exoclaw_plugins.TurnBudget.Daily
use exoclaw_plugins.TurnBudget.Daily.{Daily}
use exoclaw_plugins.TurnBudget.Wrapper.{Tracker}

module _ {W : Type 0} ⦃f : Floats W⦄ (format : FormatArgs → String) where
  abbrev pub turn_tracker : Tracker W (Turn W)
  turn_tracker = record {
    maybe_auto_reset = λ now t. Turn.maybe_auto_reset t;
    is_at_limit = Turn.is_at_limit;
    at_limit_warning_pending = λ t. t.at_limit_warning_pending;
    record_usage = Turn.record_usage;
    consume_threshold_warning = Turn.consume_threshold_warning format;
    consume_at_limit_warning = Turn.consume_at_limit_warning format;
    at_limit_message = Turn.at_limit_message format;
    last_consumed_threshold = λ t. t.last_consumed_threshold;
    utilization = Turn.utilization;
    dominant_axis = Turn.dominant_axis;
    strip = λ t.
        if Turn.should_strip_tools t
        then some (Turn.tool_strip_message format t, t.config.tool_strip_disallow)
        else none;
  }

  abbrev pub daily_tracker : Tracker W (Daily W)
  daily_tracker = record {
    maybe_auto_reset = Daily.maybe_auto_reset;
    is_at_limit = Daily.is_at_limit;
    at_limit_warning_pending = λ d. d.at_limit_warning_pending;
    record_usage = Daily.record_usage;
    consume_threshold_warning = Daily.consume_threshold_warning format;
    consume_at_limit_warning = Daily.consume_at_limit_warning format;
    at_limit_message = Daily.at_limit_message format;
    last_consumed_threshold = λ d. d.last_consumed_threshold;
    utilization = Daily.utilization;
    dominant_axis = Daily.dominant_axis;
    strip = λ d. none;
  }
