-- ===== src/TurnBudget/Wrapper/Limits/Fallback.antt =====
-- `BudgetWrapper` under `FALLBACK` over `DailyBudgetTracker`: the fallback model is not charged.
use exoclaw_plugins.Prelude.{
  ℕ, ◌≡◌, refl, ap, ◌∙◌, String, Bool, true, false, not, ◌&&◌, Option, some, Dict, arith,
  Bool-cases, Option-cases, inl, inr, ◌==◌,
}
use exoclaw_plugins.TurnBudget.Floats.{Floats}
use exoclaw_plugins.TurnBudget.Config.{DailyConfig, FormatArgs, fallback}
use exoclaw_plugins.TurnBudget.Thresholds.{cross}
use exoclaw_plugins.TurnBudget.Daily
use exoclaw_plugins.TurnBudget.Daily.{Daily, day_key}
use exoclaw_plugins.TurnBudget.Wrapper.{
  Request, Response, Wrapper, is_cutoff, fire_limit_hook, enter, prepare, forward, chat,
  model_or_default, some_usage,
}
use exoclaw_plugins.TurnBudget.Wrapper.Trackers.{daily_tracker}
use exoclaw_plugins.TurnBudget.Wrapper.Refusal.{enter-fields, fire_limit_hook-fields, settle-fields}
use exoclaw_plugins.TurnBudget.Wrapper.Limits.{IsQuiet, prepare-Calm}

module _ {W : Type 0} ⦃f : Floats W⦄ (format : FormatArgs → String) where
  -- What a charge depends on and changes.
  abbrev account : Daily W → DailyConfig W × ℕ
  account d = (d.config, d.total_tokens)

  consume_threshold-account :
      (force : Bool) (d : Daily W)
      → account (Daily.consume_threshold_warning format force d).0 ≡ account d
  unfolding Daily.consume_threshold_warning Daily.fire Daily.persist
  consume_threshold-account force d = elim (Bool-cases (not force && Daily.is_at_limit d)) [
    | inl quiet ↦ rw quiet refl
    | inr loud ↦
        elim (Option-cases
          (cross d.config.warning_thresholds (Daily.utilization d) d.warned_thresholds)) [
            | inl e ↦ rw (loud, e) refl
            | inr (crossed, e) ↦ rw (loud, e) refl
          ]
  ]

  consume_at_limit-account :
      (d : Daily W) → account (Daily.consume_at_limit_warning format d).0 ≡ account d
  unfolding Daily.consume_at_limit_warning Daily.persist
  consume_at_limit-account d =
      elim (Bool-cases (d.at_limit_warning_pending && Daily.is_at_limit d)) [
        | inl e ↦ rw e refl
        | inr e ↦ rw e refl
      ]

  account-IsQuiet :
      (a : DailyConfig W × ℕ) → IsQuiet {W = W} (daily_tracker format) (λ d. account d ≡ a)
  account-IsQuiet a = record {
    threshold = λ force d e. consume_threshold-account force d ∙ e;
    at_limit = λ d e. consume_at_limit-account d ∙ e;
  }

  maybe_auto_reset-config :
      (now : ℕ) (d : Daily W) → (Daily.maybe_auto_reset now d).config ≡ d.config
  unfolding Daily.maybe_auto_reset Daily.persist
  maybe_auto_reset-config now d = elim (Bool-cases (day_key now d.config.reset_hour_utc == d.day)) [
    | inl e ↦ rw e refl
    | inr e ↦ rw e refl
  ]

  record_usage-free :
      (usage : Option (Dict ℕ)) (model : String) (d : Daily W)
      → Daily.counts_against_budget d.config (some model) ≡ false
      → Daily.record_usage usage (some model) d ≡ d
  unfolding Daily.record_usage
  record_usage-free usage model d e = ground arith

  prepare-model :
      {O : Type 0} (request : Request O) (w : Wrapper W (Daily W))
      → w.enforcement ≡ fallback
      → (prepare (daily_tracker format) true request w).1.model ≡ w.fallback_model
  unfolding prepare
  prepare-model request w e = rw e refl

  forward_free :
      {O : Type 0} (inner : Request O → Option Response) (default_model model : String)
      (request : Request O) (w : Wrapper W (Daily W))
      → w.enforcement ≡ fallback
      → w.fallback_model ≡ some model
      → Daily.counts_against_budget w.tracker.config (some model) ≡ false
      → account (forward (daily_tracker format) inner default_model true request w).0.tracker
        ≡ account w.tracker
  unfolding forward
  forward_free inner default_model model request w e m free =
      let T = daily_tracker format in
      let (w1, request') = prepare T true request w in
      let a = account w.tracker in
      let c = prepare-Calm T (λ d. account d ≡ a) (account-IsQuiet a) true request w in
      let same : account w1.tracker ≡ a = c.keeps refl in
      let used : model_or_default request'.model default_model ≡ model =
        ap (λ o. model_or_default o default_model) (prepare-model request w e ∙ m) in
      let free1 : Daily.counts_against_budget w1.tracker.config (some model) ≡ false =
        ap (λ (x : DailyConfig W × ℕ). Daily.counts_against_budget x.0 (some model)) same ∙ free in
      elim (Option-cases (inner request')) [
        | inl raised ↦ rw (forward, raised) same
        | inr (response, answered) ↦
            rw (forward, answered, used)
              (ap account (
                  (settle-fields T true model response w1).0
                  ∙ record_usage-free (some_usage response.usage) model w1.tracker free1)
                ∙ same)
      ]

  -- Under `FALLBACK` a call that finds the day's budget exhausted charges nothing, whether the inner
  -- provider answers or raises, if the fallback model does not count against the budget.
  pub chat_fallback :
      {O : Type 0} (inner : Request O → Option Response) (default_model model : String) (now : ℕ)
      (request : Request O) (w : Wrapper W (Daily W))
      → w.enforcement ≡ fallback
      → w.fallback_model ≡ some model
      → Daily.counts_against_budget w.tracker.config (some model) ≡ false
      → Daily.is_at_limit (Daily.maybe_auto_reset now w.tracker) ≡ true
      → (chat (daily_tracker format) inner default_model now request w).0.tracker.total_tokens
        ≡ (Daily.maybe_auto_reset now w.tracker).total_tokens
  unfolding chat
  chat_fallback inner default_model model now request w e m free limit =
      let T = daily_tracker format in
      let w1 = enter T now w in
      let (tracker1, enforcement1, model1) = enter-fields T now w in
      let (tracker2, enforcement2, model2) = fire_limit_hook-fields T w1 in
      let w2 = fire_limit_hook T w1 in
      let limit1 : Daily.is_at_limit w1.tracker ≡ true = ap Daily.is_at_limit tracker1 ∙ limit in
      let mode : w2.enforcement ≡ fallback = enforcement2 ∙ enforcement1 ∙ e in
      let config : w2.tracker.config ≡ w.tracker.config =
        ap (λ (d : Daily W). d.config) (tracker2 ∙ tracker1)
        ∙ maybe_auto_reset-config now w.tracker in
      let free2 : Daily.counts_against_budget w2.tracker.config (some model) ≡ false =
        ap (λ c. Daily.counts_against_budget c (some model)) config ∙ free in
      let passed : is_cutoff w2.enforcement ≡ false = ap is_cutoff mode in
      let charged =
        forward_free inner default_model model request w2 mode (model2 ∙ model1 ∙ m) free2 in
      rw (chat, limit1, passed)
        (ap (λ (x : DailyConfig W × ℕ). x.1) charged
          ∙ ap (λ (d : Daily W). d.total_tokens) (tracker2 ∙ tracker1))
