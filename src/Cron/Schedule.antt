-- ===== src/Cron/Schedule.antt =====
-- `_compute_next_run` and `_validate_schedule_for_add` of service.py. `next_cron` stands for croniter
-- and zoneinfo: the next time that an expression names in a time zone after a given time, or `none`
-- for an `ImportError` or a `ValueError`. `known_tz` says which names `ZoneInfo` accepts.
use exoclaw_plugins.Prelude.{
  ℕ, zero, suc, ◌+◌, ◌<◌, ◌≡◌, String, Bool, true, false, not, Option, none, some, arith, ltb,
  if◌then◌else◌, Bool-cases, inl, inr, str_eq,
}
use exoclaw_plugins.Cron.{CronSchedule, ScheduleKind, at, every, cron}

-- Truth of an optional number and of an optional text: `None`, 0 and "" are false.
abbrev pub is_set : Option ℕ → Bool
is_set none = false
is_set (some zero) = false
is_set (some (suc n)) = true

abbrev pub is_text : Option String → Bool
is_text none = false
is_text (some s) = not (str_eq s "")

abbrev pub is_cron : ScheduleKind → Bool
is_cron cron = true
is_cron _ = false

abbrev pub is_at : ScheduleKind → Bool
is_at at = true
is_at _ = false

unfoldable pub next_at : Option ℕ → ℕ → Option ℕ
next_at none now_ms = none
next_at (some at_ms) now_ms = if ltb now_ms at_ms then some at_ms else none

unfoldable pub next_every : Option ℕ → ℕ → Option ℕ
next_every none now_ms = none
next_every (some zero) now_ms = none
next_every (some (suc n)) now_ms = some (now_ms + suc n)

module _ (next_cron : String → Option String → ℕ → Option ℕ) where
  abbrev pub next_expr : Option String → Option String → ℕ → Option ℕ
  next_expr none tz now_ms = none
  next_expr (some expr) tz now_ms = if str_eq expr "" then none else next_cron expr tz now_ms

  unfoldable pub compute_next_run : CronSchedule → ℕ → Option ℕ
  compute_next_run schedule now_ms = elim schedule.kind [
    | at ↦ next_at schedule.at_ms now_ms
    | every ↦ next_every schedule.every_ms now_ms
    | cron ↦ next_expr schedule.expr schedule.tz now_ms
  ]

  -- What croniter documents: the next time lies after the given one.
  abbrev pub IsLater : Type 0
  IsLater =
      (expr : String) (tz : Option String) (now_ms t : ℕ)
      → next_cron expr tz now_ms ≡ some t
      → now_ms < t

  next_expr-later :
      (later : IsLater) (expr tz : Option String) (now_ms t : ℕ)
      → next_expr expr tz now_ms ≡ some t
      → now_ms < t
  next_expr-later later none tz now_ms t e = ground arith
  next_expr-later later (some expr) tz now_ms t e = elim (Bool-cases (str_eq expr "")) [
    | inl empty ↦ absurd (ground arith)
    | inr given ↦ later expr tz now_ms t (ground arith)
  ]

  -- The next run of any schedule lies after the time that it was computed at.
  pub compute_next_run-later :
      (later : IsLater) (schedule : CronSchedule) (now_ms t : ℕ)
      → compute_next_run schedule now_ms ≡ some t
      → now_ms < t
  unfolding compute_next_run next_at next_every
  compute_next_run-later later schedule now_ms t e =
      ground (arith, next_expr-later later schedule.expr schedule.tz now_ms t)

-- `_validate_schedule_for_add`; `false` is the `ValueError`.
unfoldable pub is_valid_for_add : (String → Bool) → CronSchedule → Bool
is_valid_for_add known_tz schedule = elim schedule.tz [
  | none ↦ true
  | some tz ↦ if str_eq tz "" then true else if is_cron schedule.kind then known_tz tz else false
]
