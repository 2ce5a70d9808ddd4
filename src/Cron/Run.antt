-- ===== src/Cron/Run.antt =====
-- How jobs run: `_on_timer`, `_defer_job`, `_execute_job` and `flush_deferred` of service.py. The
-- callback `on_job` is a parameter that may do anything to the service, since the other operations
-- are open to it while it runs, and that may return, raise, or be cancelled. The lock keeps
-- `_on_timer` and `flush_deferred` apart, so each is one step.
pub mod Affects
pub mod Quiet
pub mod Due
pub mod Flush
pub mod Lost
use exoclaw_plugins.Prelude.{
  ℕ, zero, suc, ◌+◌, String, Bool, true, false, not, ◌&&◌, Option, none, some, List, [], ◌∷◌, ◌++◌,
  map, leb, length, if◌then◌else◌, select, str_eq, Dict,
}
use exoclaw_plugins.Cron.{CronJob, Status, ok, error, WakeMode, now, next_heartbeat}
use exoclaw_plugins.Cron.Schedule.{is_at, is_set, compute_next_run}
use exoclaw_plugins.Cron.Service.{
  Service, jobs_of, write, load_store, save_store, now_ms, arm_timer,
}

pub data Outcome : Type 0 where
  returned : Outcome
  raised : String → Outcome
  -- The task that awaits the callback is cancelled.
  cancelled : Outcome

abbrev pub is_heartbeat : WakeMode → Bool
is_heartbeat next_heartbeat = true
is_heartbeat now = false

-- `j.enabled and j.state.next_run_at_ms and now >= j.state.next_run_at_ms`
abbrev pub reached : ℕ → Option ℕ → Bool
reached t none = false
reached t (some zero) = false
reached t (some (suc n)) = leb (suc n) t

abbrev pub is_due : ℕ → CronJob → Bool
is_due t job = job.enabled && reached t job.state.next_run_at_ms

-- `self._store.jobs = [j for j in self._store.jobs if j.id != id]`
unfoldable pub drop_id : String → Service → Service
drop_id id s = elim s.store [
  | none ↦ s
  | some refs ↦ record s { store = some (select (λ r. not (str_eq (s.heap r).id id)) refs) }
]

module _ (clock : ℕ → ℕ) (next_cron : String → Option String → ℕ → Option ℕ) where
  -- What `_defer_job` does to the job at the time `t`.
  abbrev pub deferred_job : ℕ → CronJob → CronJob
  deferred_job t job =
      let at = is_at job.schedule.kind in
      record job {
        enabled = (if at then false else job.enabled);
        updated_at_ms = t;
        state = record job.state {
          last_run_at_ms = some t;
          next_run_at_ms = (if at then none else compute_next_run next_cron job.schedule t);
        };
      }

  unfoldable pub defer_job : ℕ → Service → Service
  defer_job ref s =
      let (s1, t) = now_ms clock (record s { deferred = s.deferred ++ (ref ∷ []) }) in
      write ref (deferred_job t (s1.heap ref)) s1

  -- The state that both ways of running a job record.
  abbrev pub ran_job : ℕ → ℕ → Status → Option String → CronJob → CronJob
  ran_job start_ms t status message job = record job {
    updated_at_ms = t;
    state = record job.state {
      last_run_at_ms = some start_ms;
      last_status = some status;
      last_error = message;
    };
  }

  unfoldable pub record_run : ℕ → ℕ → Status → Option String → Service → Service
  record_run ref start_ms status message s =
      let (s1, t) = now_ms clock s in write ref (ran_job start_ms t status message (s1.heap ref)) s1

  abbrev pub disarmed_job : CronJob → CronJob
  disarmed_job job = record job {
    enabled = false;
    state = record job.state { next_run_at_ms = none };
  }

  abbrev pub rescheduled_job : ℕ → CronJob → CronJob
  rescheduled_job t job = record job {
    state = record job.state { next_run_at_ms = compute_next_run next_cron job.schedule t };
  }

  -- The end of `_execute_job`: a one-shot job is removed or disabled, another gets its next run.
  unfoldable pub finish_job : ℕ → Service → Service
  finish_job ref s =
      let job = s.heap ref in
      if is_at job.schedule.kind
      then (if job.delete_after_run then drop_id job.id s else write ref (disarmed_job job) s)
      else (let (s1, t) = now_ms clock s in write ref (rescheduled_job t job) s1)

  -- The end of the loop body of `flush_deferred`.
  unfoldable pub drop_flushed : ℕ → Service → Service
  drop_flushed ref s =
      let job = s.heap ref in
      if is_at job.schedule.kind && job.delete_after_run then drop_id job.id s else s

  module _ (on_job : Option (ℕ → Service → Service × Outcome)) where
    -- `if self.on_job: await self.on_job(job)`
    abbrev pub call_on_job : ℕ → Service → Service × Outcome
    call_on_job ref s = elim on_job [ none ↦ (s, returned) | some callback ↦ callback ref s ]

    -- A job is run and its run recorded; `false` is a cancellation, which `except Exception` lets through.
    unfoldable pub run_callback : ℕ → Service → Service × Bool
    run_callback ref s =
        let (s1, start_ms) = now_ms clock s in
        let (s2, outcome) = call_on_job ref s1 in
        elim outcome [
          | returned ↦ (record_run ref start_ms ok none s2, true)
          | raised e ↦ (record_run ref start_ms error (some e) s2, true)
          | cancelled ↦ (s2, false)
        ]

    unfoldable pub execute_job : ℕ → Service → Service × Bool
    execute_job ref s =
        let (s1, done) = run_callback ref s in
        if done then (finish_job ref s1, true) else (s1, false)

    -- The loop of `_on_timer` over the due jobs.
    unfoldable pub run_due : List ℕ → Service → Service × Bool
    run_due [] s = (s, true)
    run_due (ref ∷ refs) s =
        let (s1, done) =
          if is_heartbeat (s.heap ref).wake_mode
          then (defer_job ref s, true)
          else execute_job ref s in
        let rest = run_due refs s1 in if done then rest else (s1, false)

    unfoldable pub due_refs : ℕ → Service → List ℕ
    due_refs t s = select (λ r. is_due t (s.heap r)) (jobs_of s.store)

    -- `_on_timer`; `false` if it was cancelled.
    unfoldable pub on_timer : Service → Service × Bool
    on_timer s =
        let (s1, t) = now_ms clock (load_store s) in
        let (s2, done) = run_due (due_refs t s1) s1 in
        if done then (arm_timer clock (save_store s2), true) else (s2, false)

    -- The loop of `flush_deferred`.
    unfoldable pub flush_all : List ℕ → Service → Service × Bool
    flush_all [] s = (s, true)
    flush_all (ref ∷ refs) s =
        let (s1, done) = run_callback ref s in
        let rest = flush_all refs (drop_flushed ref s1) in if done then rest else (s1, false)

    -- `flush_deferred`, with the queue that it finds; `none` if it was cancelled.
    unfoldable pub flush_batch : List ℕ → Service → Service × Option ℕ
    flush_batch [] s = (s, some 0)
    flush_batch (ref ∷ refs) s =
        let (s1, done) = flush_all (ref ∷ refs) (record (load_store s) { deferred = [] }) in
        if done then (save_store s1, some (length (ref ∷ refs))) else (s1, none)

    unfoldable pub flush_deferred : Service → Service × Option ℕ
    flush_deferred s = flush_batch s.deferred s
