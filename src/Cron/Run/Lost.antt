-- ===== src/Cron/Run/Lost.antt =====
-- What a restart makes of the deferred jobs of service.py, which are only in memory.
use exoclaw_plugins.Prelude.{
  ℕ, ◌≡◌, refl, ap, ◌∙◌, String, Bool, true, false, Option, some, List, [], map, if◌then◌else◌,
}
use exoclaw_plugins.Cron.{CronJob}
use exoclaw_plugins.Cron.Schedule.{is_at}
use exoclaw_plugins.Cron.Service.{Service, jobs_of, write, load_store, save_store, init, now_ms}
use exoclaw_plugins.Cron.Service.Saved.{save_store-load_store, load_store-fields}
use exoclaw_plugins.Cron.Run.{defer_job, deferred_job}
use exoclaw_plugins.Cron.Run.Affects.{write-heap}

module _ (clock : ℕ → ℕ) (next_cron : String → Option String → ℕ → Option ℕ) where
  -- If a one-shot job is deferred and the process ends before the next heartbeat, the service that
  -- starts over the saved file has the job disabled and does not have it queued.
  pub defer_job-restart :
      (ref : ℕ) (refs : List ℕ) (s : Service) (heap : ℕ → CronJob) (mtime : ℕ)
      → s.store ≡ some refs
      → is_at (s.heap ref).schedule.kind ≡ true
      → let deferred = defer_job clock next_cron ref s in
        let restarted = load_store (init heap (save_store deferred).file mtime) in
        (restarted.deferred ≡ [])
        × (map restarted.heap (jobs_of restarted.store) ≡ map deferred.heap refs)
        × ((deferred.heap ref).enabled ≡ false)
  unfolding defer_job now_ms write init
  defer_job-restart ref refs s heap mtime e at =
      let deferred = defer_job clock next_cron ref s in
      (
        (load_store-fields (init heap (save_store deferred).file mtime)).0,
        save_store-load_store deferred refs heap mtime e,
        ap (λ (j : CronJob). j.enabled)
              (write-heap ref (deferred_job clock next_cron (clock s.readings) (s.heap ref)) s)
            ∙ disabled (is_at (s.heap ref).schedule.kind) at,
      )
    where
      disabled : (b : Bool) → b ≡ true → (if b then false else (s.heap ref).enabled) ≡ false
      disabled true e = refl
      disabled false e = absurd (cc (e))
