-- ===== src/Cron/Run/Due.antt =====
-- After `_on_timer` of service.py no job is due at the time that it looked.
use exoclaw_plugins.Prelude.{ℕ, ◌≡◌, String, true, Option, List}
use exoclaw_plugins.Cron.Service.{Service, jobs_of}
use exoclaw_plugins.Cron.Run.{is_due}
use exoclaw_plugins.Cron.Run.Affects.{mem}

module _ (clock : ℕ → ℕ) (next_cron : String → Option String → ℕ → Option ℕ) where
  -- The jobs of the store that are due at `t` are among these.
  abbrev Covers : ℕ → List ℕ → Service → Type 0
  Covers t refs s =
      (r : ℕ) → mem r (jobs_of s.store) ≡ true → is_due t (s.heap r) ≡ true → mem r refs ≡ true
