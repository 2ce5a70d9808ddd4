-- ===== src/Cron/Run/Flush.antt =====
-- `flush_deferred` of service.py empties the queue, and one-shot jobs run once.
use exoclaw_plugins.Prelude.{
  ℕ, suc, ◌≡◌, refl, sym, ap, ◌∙◌, String, Bool, true, false, ◌&&◌, Option, none, some, List, [],
  ◌∷◌, length, if◌then◌else◌, Option-cases, inl, inr,
}
use mathlib.Core.Option.{some-injective}
use exoclaw_plugins.Cron.{CronJob, CronSchedule, ok, error}
use exoclaw_plugins.Cron.Schedule.{is_at}
use exoclaw_plugins.Cron.Service.{Service, jobs_of, write, load_store, save_store, now_ms}
use exoclaw_plugins.Cron.Run.{
  Outcome, returned, raised, cancelled, drop_id, drop_flushed, finish_job, execute_job, is_due,
  record_run, run_callback, flush_all, flush_batch, flush_deferred,
}
use exoclaw_plugins.Cron.Run.Affects.{mem, write-heap}
use exoclaw_plugins.Cron.Run.Quiet.{IsQuiet, finish_job-once}

drop_id-deferred : (id : String) (s : Service) → (drop_id id s).deferred ≡ s.deferred
unfolding drop_id
drop_id-deferred id s = elim (Option-cases s.store) [
  | inl e ↦ rw (drop_id, e) refl
  | inr (refs, e) ↦ rw (drop_id, e) refl
]

save_store-deferred : (s : Service) → (save_store s).deferred ≡ s.deferred
unfolding save_store
save_store-deferred s = elim (Option-cases s.store) [
  | inl e ↦ rw (save_store, e) refl
  | inr (refs, e) ↦ rw (save_store, e) refl
]

module _ (clock : ℕ → ℕ) (next_cron : String → Option String → ℕ → Option ℕ) where
  drop_flushed-deferred :
      (ref : ℕ) (s : Service) → (drop_flushed clock next_cron ref s).deferred ≡ s.deferred
  unfolding drop_flushed
  drop_flushed-deferred ref s =
      elim (is_at (s.heap ref).schedule.kind && (s.heap ref).delete_after_run)
        as (λ (b : Bool). (if b then drop_id (s.heap ref).id s else s).deferred ≡ s.deferred) [
          | true ↦ drop_id-deferred (s.heap ref).id s
          | false ↦ refl
        ]

  module _ (callback : ℕ → Service → Service × Outcome) (quiet : IsQuiet callback) where
    run_callback-deferred :
        (ref : ℕ) (s : Service)
        → (run_callback clock next_cron (some callback) ref s).0.deferred ≡ s.deferred
    unfolding run_callback now_ms record_run write
    run_callback-deferred ref s =
        let s1 = record s { readings = suc s.readings } in
        let s2 = (callback ref s1).0 in
        elim (callback ref s1).1
          as (λ (o : Outcome).
            (elim o as (λ (o : Outcome). Service × Bool) [
              | returned ↦ (record_run clock next_cron ref (clock s.readings) ok none s2, true)
              | raised e ↦
                  (record_run clock next_cron ref (clock s.readings) error (some e) s2, true)
              | cancelled ↦ (s2, false)
            ]).0.deferred
            ≡ s.deferred) [
              | returned ↦ quiet.deferred ref s1
              | raised e ↦ quiet.deferred ref s1
              | cancelled ↦ quiet.deferred ref s1
            ]

    flush_all-deferred :
        (refs : List ℕ) (s : Service)
        → (flush_all clock next_cron (some callback) refs s).0.deferred ≡ s.deferred
    unfolding flush_all
    flush_all-deferred [] s = refl
    flush_all-deferred (ref ∷ refs) s =
        let (s1, ran) = run_callback clock next_cron (some callback) ref s in
        let s2 = drop_flushed clock next_cron ref s1 in
        let here = run_callback-deferred ref s in
        elim ran
          as (λ (b : Bool).
            (if b
              then flush_all clock next_cron (some callback) refs s2
              else (s1, false)).0.deferred
            ≡ s.deferred) [
              | true ↦ flush_all-deferred refs s2 ∙ drop_flushed-deferred ref s1 ∙ here
              | false ↦ here
            ]

    flush_batch_lem :
        (refs : List ℕ) (s : Service) (n : ℕ)
        → s.deferred ≡ refs
        → (flush_batch clock next_cron (some callback) refs s).1 ≡ some n
        → (n ≡ length refs) × ((flush_batch clock next_cron (some callback) refs s).0.deferred ≡ [])
    unfolding flush_batch
    flush_batch_lem [] s n queue e = (sym (some-injective _ _ e), queue)
    flush_batch_lem (ref ∷ refs) s n queue e =
        let cleared = record (load_store s) { deferred = [] } in
        let (s1, ran) = flush_all clock next_cron (some callback) (ref ∷ refs) cleared in
        let outcome : Bool → Service × Option ℕ =
          λ b. if b then (save_store s1, some (length (ref ∷ refs))) else (s1, none) in
        elim ran
            as (λ (b : Bool).
              (outcome b).1 ≡ some n → (n ≡ length (ref ∷ refs)) × ((outcome b).0.deferred ≡ [])) [
                | true ↦ λ q. (
                  sym (some-injective _ _ q),
                  save_store-deferred s1 ∙ flush_all-deferred (ref ∷ refs) cleared,
                )
                | false ↦ λ q. absurd (cc (q))
              ]
          e

    -- A flush that was not cancelled answers how many jobs were queued and leaves the queue empty, if
    -- the callback leaves the queue alone; a second flush then does nothing and answers 0.
    pub flush_deferred_lem :
        (s : Service) (n : ℕ)
        → (flush_deferred clock next_cron (some callback) s).1 ≡ some n
        → (n ≡ length s.deferred)
          × ((flush_deferred clock next_cron (some callback) s).0.deferred ≡ [])
          × (flush_deferred clock next_cron
                (some callback)
                (flush_deferred clock next_cron (some callback) s).0
              ≡ ((flush_deferred clock next_cron (some callback) s).0, some 0))
    unfolding flush_deferred flush_batch
    flush_deferred_lem s n e =
        let s1 = (flush_deferred clock next_cron (some callback) s).0 in
        let (count, empty) = flush_batch_lem s.deferred s n refl e in
        (count, empty, ap (λ refs. flush_batch clock next_cron (some callback) refs s1) empty)

    -- Running a callback does not change what a job is scheduled for.
    run_callback-schedule :
        (ref : ℕ) (s : Service)
        → ((run_callback clock next_cron (some callback) ref s).0.heap ref).schedule
          ≡ (s.heap ref).schedule
    unfolding run_callback now_ms record_run
    run_callback-schedule ref s =
        let s1 = record s { readings = suc s.readings } in
        let s2 = (callback ref s1).0 in
        let kept : (s2.heap ref).schedule ≡ (s.heap ref).schedule =
          ap (λ (h : ℕ → CronJob). (h ref).schedule) (quiet.heap ref s1) in
        elim (callback ref s1).1
          as (λ (o : Outcome).
            ((elim o as (λ (o : Outcome). Service × Bool) [
              | returned ↦ (record_run clock next_cron ref (clock s.readings) ok none s2, true)
              | raised e ↦
                  (record_run clock next_cron ref (clock s.readings) error (some e) s2, true)
              | cancelled ↦ (s2, false)
            ]).0.heap
              ref).schedule
            ≡ (s.heap ref).schedule) [
              | returned ↦ ap (λ (j : CronJob). j.schedule) (write-heap ref _ _) ∙ kept
              | raised e ↦ ap (λ (j : CronJob). j.schedule) (write-heap ref _ _) ∙ kept
              | cancelled ↦ kept
            ]

    -- A one-shot job that was run is never due again, whether its callback returned or raised: it has
    -- left the store, or it is disabled.
    pub execute_job-once :
        (ref t : ℕ) (s : Service)
        → is_at (s.heap ref).schedule.kind ≡ true
        → (execute_job clock next_cron (some callback) ref s).1 ≡ true
        → mem ref (jobs_of (execute_job clock next_cron (some callback) ref s).0.store) ≡ true
        → is_due t ((execute_job clock next_cron (some callback) ref s).0.heap ref) ≡ false
    unfolding execute_job
    execute_job-once ref t s at done stored =
        let (s1, ran) = run_callback clock next_cron (some callback) ref s in
        let at1 : is_at (s1.heap ref).schedule.kind ≡ true =
          ap (λ (c : CronSchedule). is_at c.kind) (run_callback-schedule ref s) ∙ at in
        let outcome : Bool → Service × Bool =
          λ b. if b then (finish_job clock next_cron ref s1, true) else (s1, false) in
        elim ran
            as (λ (b : Bool).
              (outcome b).1 ≡ true
              → mem ref (jobs_of (outcome b).0.store) ≡ true
              → is_due t ((outcome b).0.heap ref) ≡ false) [
                | true ↦ λ d m. finish_job-once clock next_cron t ref s1 at1 m
                | false ↦ λ d m. absurd (cc (d))
              ]
          done stored
