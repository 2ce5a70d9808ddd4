-- ===== src/Tests/Budgets.antt =====
-- The turn budget at small runs, with ratios in whole thousandths.
use exoclaw_plugins.Prelude.{
  ℕ, String, ◌≡◌, ◌≤◌, refl, Option, List, [], ◌∷◌, some, none, true, false, arith, Dict, contains,
  lookup, if◌then◌else◌,
}
use exoclaw_plugins.TurnBudget.Floats.{
  Floats, thousandths, thousandths-IsOrdered, mem_float, insert_desc, sorted_desc,
}
use exoclaw_plugins.TurnBudget.Config.{fallback, cutoff, TurnConfig, DailyConfig, FormatArgs}
use exoclaw_plugins.TurnBudget.Usage.{raw_tokens, cached_tokens, coerce_total_tokens}
use exoclaw_plugins.TurnBudget.Thresholds.{find_crossed, add_float, mark_crossed, cross}
use exoclaw_plugins.TurnBudget.Thresholds.Fires.{Fires, cross-Fires}
use exoclaw_plugins.TurnBudget.Turn
use exoclaw_plugins.TurnBudget.Turn.{Turn}
use exoclaw_plugins.TurnBudget.Turn.Firing.{
  Call, recorded, consumed, run, IsAscending, run-IsAscending,
}
use exoclaw_plugins.TurnBudget.Policy.{should_continue, record_all}
use exoclaw_plugins.TurnBudget.Daily
use exoclaw_plugins.TurnBudget.Daily.{Daily, Saved}
use exoclaw_plugins.TurnBudget.Daily.Restart
use exoclaw_plugins.TurnBudget.Daily.Restart.{records, warns, Resumes, run_restart}
use exoclaw_plugins.TurnBudget.Wrapper.{
  Request, Response, Wrapper, notify, strip_tools, fire_threshold_hook, fire_limit_hook, enter,
  refuse, warn_at_limit, warn_threshold, settle, prepare, forward, chat,
}
use exoclaw_plugins.TurnBudget.Wrapper.Trackers.{turn_tracker, daily_tracker}
use exoclaw_plugins.TurnBudget.Wrapper.Refusal.{chat_cutoff}
use exoclaw_plugins.TurnBudget.Wrapper.Limits.{Exchange, chat_all, limit_count}
use exoclaw_plugins.TurnBudget.Wrapper.Limits.Fallback.{chat_fallback}
use exoclaw_plugins.TurnBudget.Wrapper.Limits.Turns.{chat_all-limit_hook, chat_all-within_budget}

instance floats : Floats ℕ
floats = thousandths

-- At most two calls; warnings at half and at nine tenths.
abbrev config : TurnConfig ℕ
config = record {
  iteration_budget = some 2;
  token_budget = some 100;
  warning_thresholds = 500 ∷ 900 ∷ [];
  enforcement = cutoff;
  fallback_model = none;
  warning_template = "warning";
  cutoff_template = "limit";
  tool_strip_threshold = none;
  tool_strip_disallow = [];
  tool_strip_template = "";
  cached_token_weight = 1000;
  model_weights = [];
}

abbrev usage : Dict ℕ
usage = ("total_tokens", 30) ∷ []

abbrev format : FormatArgs → String
format args = args.template

program : Unit {0}
unfolding floats contains lookup mem_float insert_desc sorted_desc raw_tokens cached_tokens
    coerce_total_tokens find_crossed add_float mark_crossed cross Turn.init Turn.reset
    Turn.maybe_auto_reset Turn.is_at_limit Turn.model_weight Turn.charge Turn.record_usage
    Turn.utilization Turn.dominant_axis Turn.format_at Turn.fire Turn.consume_threshold_warning
    Turn.at_limit_message Turn.consume_at_limit_warning Turn.should_strip_tools run should_continue
    record_all notify strip_tools fire_threshold_hook fire_limit_hook enter refuse warn_at_limit
    warn_threshold settle prepare forward chat chat_all Daily.day_key Daily.restore Daily.init
    Daily.counts_against_budget Daily.is_at_limit Daily.persist Daily.maybe_auto_reset
    Daily.record_usage Daily.utilization Daily.format_at Daily.fire Daily.consume_threshold_warning
    Restart.step Restart.run
program = tt

abbrev turn_calls : List Call
turn_calls =
    recorded (some usage) none
    ∷ consumed false
    ∷ recorded (some usage) none
    ∷ consumed false
    ∷ consumed true
    ∷ []

turn_calls_fire : (run format turn_calls (Turn.init config)).1 ≡ 500 ∷ 900 ∷ []
unfolding program
turn_calls_fire = refl

run-IsAscending_example : IsAscending format (run format turn_calls (Turn.init config)).1
unfolding program
run-IsAscending_example =
    run-IsAscending ⦃f = floats⦄ format thousandths-IsOrdered turn_calls (Turn.init config)

cross-Fires_example : Fires ⦃f = floats⦄ (500 ∷ 900 ∷ []) 600 [] 500 (500 ∷ [])
unfolding program
cross-Fires_example = cross-Fires thousandths-IsOrdered (500 ∷ 900 ∷ []) 600 [] 500 (500 ∷ []) refl

abbrev spent : Turn ℕ
spent = record (Turn.init config) { iterations_seen = 2; total_tokens = 60 }

abbrev daily_config : DailyConfig ℕ
daily_config = record {
  daily_budget = 50;
  primary_models = [];
  warning_thresholds = 500 ∷ [];
  enforcement = cutoff;
  fallback_model = none;
  reset_hour_utc = 0;
  warning_template = "warning";
  cutoff_template = "limit";
  fallback_template = "fallback";
  cached_token_weight = 1000;
}

abbrev daily_calls : List Restart.Call
daily_calls = records (some usage) none ∷ warns false ∷ []

-- A day is stored already, of which 5 tokens are spent.
abbrev yesterday : Saved ℕ
yesterday = record {
  day_key = 0;
  total_tokens = 5;
  warned_thresholds = [];
  at_limit_warning_pending = true;
}

abbrev today : Daily ℕ
today = Restart.run format daily_calls (Daily.init daily_config 100 (some yesterday))

today_spent : (today.total_tokens ≡ 35) × (today.warned_thresholds ≡ 500 ∷ [])
unfolding program
today_spent = (refl, refl)

run_restart_example : Resumes format today (Daily.init daily_config 200 today.store)
unfolding program
run_restart_example = run_restart format daily_config 100 (some yesterday) daily_calls 200 refl

abbrev request : Request Unit
request = record { messages = []; tools = none; model = none; options = tt }

-- The inner provider always answers, with the same usage.
abbrev inner : Request Unit → Option Response
inner r = some (record { content = "done"; finish_reason = "stop"; usage = usage })

abbrev exchange : Exchange Unit
exchange = record { inner = inner; default_model = "m"; now = 0; request = request }

abbrev wrapper : Turn ℕ → Wrapper ℕ (Turn ℕ)
wrapper t = record {
  tracker = t;
  enforcement = cutoff;
  fallback_model = none;
  on_threshold_crossed = true;
  on_limit_reached = true;
  limit_hook_fired = false;
  prev_at_limit = false;
  events = [];
}

abbrev exchanges : List (Exchange Unit)
exchanges = exchange ∷ exchange ∷ exchange ∷ []

abbrev after : Wrapper ℕ (Turn ℕ)
after = chat_all (turn_tracker format) exchanges (wrapper (Turn.init config))

after_three : (after.tracker.iterations_seen ≡ 2) × (limit_count after.events ≡ 1)
unfolding program
after_three = (refl, refl)

chat_cutoff_example :
    let T = turn_tracker {W = ℕ} format in
    (chat T inner "m" 0 request (wrapper spent) ≡ chat T (λ r. none) "n" 0 request (wrapper spent))
    × ((r : Response) × ((chat T inner "m" 0 request (wrapper spent)).1 ≡ some r)
        × (r.finish_reason ≡ "stop")
        × (r.usage ≡ []))
unfolding program
chat_cutoff_example =
    chat_cutoff (turn_tracker {W = ℕ} format) inner (λ r. none) "m" "n" 0 request request
      (wrapper spent) refl refl

chat_all-limit_hook_example :
    limit_count after.events ≡ (if Turn.is_at_limit after.tracker then 1 else 0)
unfolding program
chat_all-limit_hook_example =
    chat_all-limit_hook format exchanges (wrapper (Turn.init config)) refl refl refl refl refl

chat_all-within_budget_example : after.tracker.iterations_seen ≤ 2
unfolding program
chat_all-within_budget_example =
    chat_all-within_budget format exchanges 2 (wrapper (Turn.init config)) refl refl (omega arith)

-- Only the big model counts, and the day's budget is spent.
abbrev spent_day : Daily ℕ
spent_day = record (Daily.init (record daily_config { primary_models = "big" ∷ [] }) 100 none) {
  total_tokens = 50;
}

abbrev fallback_wrapper : Wrapper ℕ (Daily ℕ)
fallback_wrapper = record {
  tracker = spent_day;
  enforcement = fallback;
  fallback_model = some "small";
  on_threshold_crossed = false;
  on_limit_reached = false;
  limit_hook_fired = false;
  prev_at_limit = false;
  events = [];
}

chat_fallback_example :
    (chat
      (daily_tracker {W = ℕ} format)
      inner
      "big"
      200
      request
      fallback_wrapper).0.tracker.total_tokens
    ≡ 50
unfolding program
chat_fallback_example =
    chat_fallback format inner "big" "small" 200 request fallback_wrapper refl refl refl refl
