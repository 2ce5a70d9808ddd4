-- ===== src/Cron/Service/Wake.antt =====
-- `_get_next_wake_ms` of service.py is the least of the next runs.
use exoclaw_plugins.Prelude.{
  ℕ, zero, suc, ◌≡◌, refl, sym, ap, ◌∙◌, Bool, false, Option, none, some, List, [], ◌∷◌, ◌++◌, map,
  arith, leb, ◌||◌, Bool-cases, inl, inr, any,
}
use exoclaw_plugins.Cron.{CronJob}
use exoclaw_plugins.Cron.Run.{is_due, reached}
use exoclaw_plugins.Cron.Service.{Service, jobs_of, min_of, run_time, run_times, get_next_wake_ms}

-- Whether a wake time is set and has come.
abbrev pub has_come : ℕ → Option ℕ → Bool
has_come u none = false
has_come u (some t) = leb t u

has_come-min_of :
    (u x : ℕ) (ts : List ℕ) → has_come u (min_of (x ∷ ts)) ≡ (leb x u || has_come u (min_of ts))
unfolding min_of
has_come-min_of u x ts = ground arith

has_come-run_time :
    (u : ℕ) (job : CronJob) (ts : List ℕ)
    → has_come u (min_of (run_time job ++ ts)) ≡ (is_due u job || has_come u (min_of ts))
has_come-run_time u job ts = elim (Bool-cases job.enabled) [
  | inl on ↦ rw on (at_time job.state.next_run_at_ms)
  | inr off ↦ rw off refl
]
  where
    at_time :
        (next : Option ℕ)
        → has_come u
            (min_of ((elim next [ none ↦ [] | some zero ↦ [] | some (suc n) ↦ suc n ∷ [] ]) ++ ts))
          ≡ (reached u next || has_come u (min_of ts))
    at_time none = refl
    at_time (some zero) = refl
    at_time (some (suc n)) = has_come-min_of u (suc n) ts

any_due : (u : ℕ) (jobs : List CronJob) → has_come u (min_of (run_times jobs)) ≡ any (is_due u) jobs
unfolding run_times min_of
any_due u [] = refl
any_due u (job ∷ jobs) =
    has_come-run_time u job (run_times jobs) ∙ ap (λ rest. is_due u job || rest) (any_due u jobs)

-- At any time some job of the store is due exactly if the next wake time is set and has come.
pub get_next_wake_ms-due :
    (u : ℕ) (s : Service)
    → any (is_due u) (map s.heap (jobs_of s.store)) ≡ has_come u (get_next_wake_ms s)
unfolding get_next_wake_ms
get_next_wake_ms-due u s = sym (any_due u (map s.heap (jobs_of s.store)))
