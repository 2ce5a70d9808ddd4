-- ===== src/Cron/Run/Quiet.antt =====
-- What one due job leaves behind in `_on_timer` of service.py, for a callback that leaves the jobs alone.
use exoclaw_plugins.Prelude.{
  ℕ, suc, ◌≤◌, ◌<◌, ◌≡◌, refl, sym, ap, ◌∙◌, String, Bool, true, false, Option, none, some, [], ◌∷◌,
  ◌++◌, arith, if◌then◌else◌, Bool-cases, Option-cases, inl, inr,
}
use exoclaw_plugins.Cron.{CronJob, Status, ok, error}
use exoclaw_plugins.Cron.Schedule.{is_at, compute_next_run, IsLater, compute_next_run-later}
use exoclaw_plugins.Cron.Service.{Service, jobs_of, write, now_ms}
use exoclaw_plugins.Cron.Run.{
  Outcome, returned, raised, cancelled, is_due, reached, drop_id, defer_job, record_run, finish_job,
  run_callback, execute_job, deferred_job, rescheduled_job, disarmed_job,
}
use exoclaw_plugins.Cron.Run.Affects.{
  mem, IsMonotone, Affects, Affects-trans, write-Affects, write-heap, now_ms-Affects,
  drop_id-Affects, drop_id-gone,
}

-- The callback leaves the jobs, the references and the store alone, and time passes.
pub record IsQuiet (callback : ℕ → Service → Service × Outcome) : Type 0 where
  pub heap : (ref : ℕ) (s : Service) → (callback ref s).0.heap ≡ s.heap
  pub store : (ref : ℕ) (s : Service) → (callback ref s).0.store ≡ s.store
  pub deferred : (ref : ℕ) (s : Service) → (callback ref s).0.deferred ≡ s.deferred
  pub readings : (ref : ℕ) (s : Service) → s.readings ≤ (callback ref s).0.readings

module _ (clock : ℕ → ℕ) (next_cron : String → Option String → ℕ → Option ℕ) where
  -- The job is due no longer, if the store still has it.
  abbrev pub IsSettled : ℕ → ℕ → Service → Type 0
  IsSettled t ref s = mem ref (jobs_of s.store) ≡ true → is_due t (s.heap ref) ≡ false

  abbrev pub Settles : ℕ → ℕ → Service → Service → Type 0
  Settles t ref s s' = Affects ref s s' × IsSettled t ref s'

  write-IsSettled :
      (t ref : ℕ) (job : CronJob) (s : Service)
      → is_due t job ≡ false
      → IsSettled t ref (write ref job s)
  write-IsSettled t ref job s quiet m = ap (is_due t) (write-heap ref job s) ∙ quiet

  -- A job is not due yet once its next run is computed at `t` or after.
  rescheduled-not_due :
      (later : IsLater next_cron) (t u : ℕ) (job : CronJob)
      → t ≤ u
      → reached t (compute_next_run next_cron job.schedule u) ≡ false
  rescheduled-not_due later t u job le =
      elim (Option-cases (compute_next_run next_cron job.schedule u)) [
        | inl e ↦ rw e refl
        | inr (n, e) ↦
            let after = compute_next_run-later next_cron later job.schedule u n e in
            rw e (not_reached t n (omega arith))
      ]
    where
      not_reached : (t n : ℕ) → t < n → reached t (some n) ≡ false
      not_reached t n lt = ground arith

  pub defer_job-IsSettled :
      (later : IsLater next_cron) (t ref : ℕ) (s : Service)
      → t ≤ clock s.readings
      → Settles t ref s (defer_job clock next_cron ref s)
  unfolding defer_job now_ms
  defer_job-IsSettled later t ref s le =
      let s1 = record s { deferred = s.deferred ++ (ref ∷ []); readings = suc s.readings } in
      let job = s.heap ref in
      let u = clock s.readings in
      let start : Affects ref s s1 = record {
        others = λ r n. refl;
        store = λ r m. m;
        readings = omega arith;
      } in
      let not_due : is_due t (deferred_job clock next_cron u job) ≡ false =
        elim (Bool-cases (is_at job.schedule.kind)) [
          | inl at ↦ rw at refl
          | inr other ↦ rw (other, rescheduled-not_due later t u job le) (ground arith)
        ] in
      (
        Affects-trans start (write-Affects ref (deferred_job clock next_cron u job) s1),
        write-IsSettled t ref (deferred_job clock next_cron u job) s1 not_due,
      )

  -- A one-shot job that has run is due at no time.
  pub finish_job-once :
      (t ref : ℕ) (s : Service)
      → is_at (s.heap ref).schedule.kind ≡ true
      → IsSettled t ref (finish_job clock next_cron ref s)
  unfolding finish_job now_ms
  finish_job-once t ref s at =
      let job = s.heap ref in
      let removed = drop_id job.id s in
      let disarmed = write ref (disarmed_job clock next_cron job) s in
      rw (finish_job, at)
        (elim job.delete_after_run
          as (λ (b : Bool). IsSettled t ref (if b then removed else disarmed)) [
            | true ↦ λ m. absurd (cc (m, drop_id-gone ref s))
            | false ↦ write-IsSettled t ref (disarmed_job clock next_cron job) s refl
          ])

  finish_job-IsSettled :
      (later : IsLater next_cron) (t ref : ℕ) (s : Service)
      → t ≤ clock s.readings
      → Settles t ref s (finish_job clock next_cron ref s)
  unfolding finish_job now_ms
  finish_job-IsSettled later t ref s le =
      let job = s.heap ref in
      let u = clock s.readings in
      let s1 = record s { readings = suc s.readings } in
      elim (Bool-cases (is_at job.schedule.kind)) [
        | inl at ↦
            let removed = drop_id job.id s in
            let disarmed = write ref (disarmed_job clock next_cron job) s in
            rw (finish_job, at)
              (elim job.delete_after_run
                as (λ (b : Bool). Settles t ref s (if b then removed else disarmed)) [
                  | true ↦ (drop_id-Affects ref job.id s, λ m. absurd (cc (m, drop_id-gone ref s)))
                  | false ↦ (
                    write-Affects ref (disarmed_job clock next_cron job) s,
                    write-IsSettled t ref (disarmed_job clock next_cron job) s refl,
                  )
                ])
        | inr other ↦
            let not_due : is_due t (rescheduled_job clock next_cron u job) ≡ false =
              rw (rescheduled-not_due later t u job le) (ground arith) in
            rw (finish_job, other)
              (
                Affects-trans (now_ms-Affects clock ref s)
                    (write-Affects ref (rescheduled_job clock next_cron u job) s1),
                write-IsSettled t ref (rescheduled_job clock next_cron u job) s1 not_due,
              )
      ]

  module _ (callback : ℕ → Service → Service × Outcome) (quiet : IsQuiet callback) where
    record_run-Affects :
        (ref start_ms : ℕ) (status : Status) (message : Option String) (s : Service)
        → Affects ref s (record_run clock next_cron ref start_ms status message s)
    unfolding record_run now_ms
    record_run-Affects ref start_ms status message s =
        Affects-trans (now_ms-Affects clock ref s)
          (write-Affects ref _ (record s { readings = suc s.readings }))

    callback-Affects : (ref : ℕ) (s : Service) → Affects ref s (callback ref s).0
    callback-Affects ref s = record {
      others = λ r n. ap (λ (h : ℕ → CronJob). h r) (quiet.heap ref s);
      store = λ r m. ap (λ refs. mem r (jobs_of refs)) (sym (quiet.store ref s)) ∙ m;
      readings = quiet.readings ref s;
    }

    pub run_callback-Affects :
        (ref : ℕ) (s : Service)
        → Affects ref s (run_callback clock next_cron (some callback) ref s).0
    unfolding run_callback now_ms
    run_callback-Affects ref s =
        let s1 = record s { readings = suc s.readings } in
        let before = Affects-trans (now_ms-Affects clock ref s) (callback-Affects ref s1) in
        let s2 = (callback ref s1).0 in
        elim (callback ref s1).1
          as (λ (o : Outcome).
            Affects ref s
              (elim o as (λ (o : Outcome). Service × Bool) [
                | returned ↦ (record_run clock next_cron ref (clock s.readings) ok none s2, true)
                | raised e ↦
                    (record_run clock next_cron ref (clock s.readings) error (some e) s2, true)
                | cancelled ↦ (s2, false)
              ]).0) [
                | returned ↦
                    Affects-trans before (record_run-Affects ref (clock s.readings) ok none s2)
                | raised e ↦
                    Affects-trans before
                      (record_run-Affects ref (clock s.readings) error (some e) s2)
                | cancelled ↦ before
              ]

    pub execute_job-Settles :
        (mono : IsMonotone clock) (later : IsLater next_cron) (t ref : ℕ) (s : Service)
        → t ≤ clock s.readings
        → (execute_job clock next_cron (some callback) ref s).1 ≡ true
        → Settles t ref s (execute_job clock next_cron (some callback) ref s).0
    unfolding execute_job
    execute_job-Settles mono later t ref s le done =
        let (s1, ran) = run_callback clock next_cron (some callback) ref s in
        let first = run_callback-Affects ref s in
        elim (Bool-cases ran) [
          | inl finished ↦
              let (a, settled) =
                finish_job-IsSettled later t ref s1
                  (omega (arith, first.readings, mono s.readings s1.readings first.readings)) in
              rw finished (Affects-trans first a, settled)
          | inr stopped ↦ absurd (ground arith)
        ]
