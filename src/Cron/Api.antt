-- ===== src/Cron/Api.antt =====
-- The public operations of `CronService` in service.py.
pub mod Jobs
use exoclaw_plugins.Prelude.{
  ℕ, zero, suc, String, Bool, true, false, not, ◌&&◌, Option, none, some, List, [], ◌∷◌, ◌++◌, map,
  ltb, leb, length, if◌then◌else◌, select, str_eq,
}
use Prim.Native.String.{[], ◌∷◌}
use exoclaw_plugins.Cron.{CronSchedule, CronPayload, CronJob, WakeMode, agent_turn}
use exoclaw_plugins.Cron.Schedule.{compute_next_run, is_valid_for_add}
use exoclaw_plugins.Cron.Service.{
  Service, jobs_of, write, alloc, load_store, save_store, now_ms, arm_timer,
}
use exoclaw_plugins.Cron.Run.{Outcome, execute_job}

-- `key_a <= key_b` of the sort in `list_jobs`: a job without a next run comes last.
abbrev pub key_le : Option ℕ → Option ℕ → Bool
key_le a none = true
key_le a (some zero) = true
key_le none (some (suc n)) = false
key_le (some zero) (some (suc n)) = false
key_le (some (suc m)) (some (suc n)) = leb (suc m) (suc n)

-- `sorted(jobs, key=...)`, which keeps the order of equal keys.
unfoldable pub insert_job : CronJob → List CronJob → List CronJob
insert_job job [] = job ∷ []
insert_job job (other ∷ jobs) =
    let rest = insert_job job jobs in
    if key_le job.state.next_run_at_ms other.state.next_run_at_ms
    then job ∷ other ∷ jobs
    else other ∷ rest

unfoldable pub sorted_jobs : List CronJob → List CronJob
sorted_jobs [] = []
sorted_jobs (job ∷ jobs) = insert_job job (sorted_jobs jobs)

-- The loop `for job in store.jobs: if job.id == job_id`.
unfoldable pub find_ref : String → (ℕ → CronJob) → List ℕ → Option ℕ
find_ref job_id heap [] = none
find_ref job_id heap (ref ∷ refs) =
    if str_eq (heap ref).id job_id then some ref else find_ref job_id heap refs

-- `message[:n]`
unfoldable pub prefix : ℕ → String → String
prefix zero s = ""
prefix (suc n) [] = ""
prefix (suc n) (c ∷ s) = c ∷ prefix n s

-- The arguments of `update_job` that are given.
pub record Update : Type 0 where
  pub message : Option String
  pub deliver : Option Bool
  pub channel : Option String
  pub to : Option String
  pub skills : Option (List String)
  pub stateless : Option Bool
  pub model : Option String
  pub schedule : Option CronSchedule
  pub wake_mode : Option WakeMode

-- What an operation on a job that may be missing or be refused answers.
pub data Reply : Type 0 where
  not_found : Reply
  value_error : Reply
  done : ℕ → Reply

abbrev pub or_else : {A : Type 0} → Option A → A → A
or_else none old = old
or_else (some new) old = new

abbrev pub some_if_given : Option String → Option String → Option String
some_if_given none old = old
some_if_given (some new) old = some new

-- The fields that `update_job` sets before it looks at the schedule.
unfoldable pub set_fields : Update → CronJob → CronJob
set_fields u job = record job {
  name = elim u.message [ none ↦ job.name | some message ↦ prefix 30 message ];
  payload = record job.payload {
    message = or_else u.message job.payload.message;
    deliver = or_else u.deliver job.payload.deliver;
    channel = some_if_given u.channel job.payload.channel;
    to = some_if_given u.to job.payload.to;
    skills = or_else u.skills job.payload.skills;
    stateless = or_else u.stateless job.payload.stateless;
    model = some_if_given u.model job.payload.model;
  };
}

unfoldable pub list_jobs : Bool → Service → Service × List CronJob
list_jobs include_disabled s =
    let s1 = load_store s in
    let jobs = map s1.heap (jobs_of s1.store) in
    (s1, sorted_jobs (if include_disabled then jobs else select (λ job. job.enabled) jobs))

unfoldable pub get_job : String → Service → Service × Option ℕ
get_job job_id s = let s1 = load_store s in (s1, find_ref job_id s1.heap (jobs_of s1.store))

module _ (clock : ℕ → ℕ) where
  unfoldable pub remove_job : String → Service → Service × Bool
  remove_job job_id s =
      let s1 = load_store s in
      let refs = jobs_of s1.store in
      let kept = select (λ r. not (str_eq (s1.heap r).id job_id)) refs in
      let s2 = record s1 { store = some kept } in
      let removed = ltb (length kept) (length refs) in
      if removed then (arm_timer clock (save_store s2), true) else (s2, false)

module _ (clock : ℕ → ℕ) (next_cron : String → Option String → ℕ → Option ℕ) where
  -- The schedule of an update that was found valid.
  unfoldable pub set_schedule : ℕ → Option CronSchedule → Service → Service
  set_schedule ref none s = s
  set_schedule ref (some schedule) s =
      let (s1, now) = now_ms clock s in
      let job = s1.heap ref in
      write ref
        (record job {
          schedule = schedule;
          state = record job.state { next_run_at_ms = compute_next_run next_cron schedule now };
        })
        s1

  -- The end of `update_job`.
  unfoldable pub touch : ℕ → Option WakeMode → Service → Service
  touch ref wake_mode s =
      let (s1, now) = now_ms clock s in
      let job = s1.heap ref in
      arm_timer clock (
        save_store (
          write ref
            (record job { wake_mode = or_else wake_mode job.wake_mode; updated_at_ms = now }) s1))

  unfoldable pub update_job : (String → Bool) → String → Update → Service → Service × Reply
  update_job known_tz job_id u s =
      let s1 = load_store s in
      elim (find_ref job_id s1.heap (jobs_of s1.store)) [
        | none ↦ (s1, not_found)
        | some ref ↦
            let s2 = write ref (set_fields u (s1.heap ref)) s1 in
            if elim u.schedule [ none ↦ true | some schedule ↦ is_valid_for_add known_tz schedule ]
            then (touch ref u.wake_mode (set_schedule ref u.schedule s2), done ref)
            else (s2, value_error)
      ]

  -- The job that `add_job` builds at the time `now`.
  abbrev pub new_job : String → String → CronSchedule → CronPayload → Bool → WakeMode → ℕ → CronJob
  new_job id name schedule payload delete_after_run wake_mode now = record {
    id = id;
    name = name;
    enabled = true;
    schedule = schedule;
    payload = record payload { kind = agent_turn };
    state = record {
      next_run_at_ms = compute_next_run next_cron schedule now;
      last_run_at_ms = none;
      last_status = none;
      last_error = none;
    };
    created_at_ms = now;
    updated_at_ms = now;
    delete_after_run = delete_after_run;
    wake_mode = wake_mode;
  }

  -- `store.jobs.append(job)`
  unfoldable pub append_job : CronJob → Service → Service × ℕ
  append_job job s =
      let (s1, ref) = alloc job s in
      (record s1 { store = some (jobs_of s1.store ++ (ref ∷ [])) }, ref)

  -- `add_job`; `id` is what `_short_id` draws, and `none` is the `ValueError`.
  unfoldable pub add_job :
      (String → Bool)
      → String
      → String
      → CronSchedule
      → CronPayload
      → Bool
      → WakeMode
      → Service
      → Service × Option ℕ
  add_job known_tz id name schedule payload delete_after_run wake_mode s =
      let s1 = load_store s in
      if is_valid_for_add known_tz schedule
      then (let (s2, now) = now_ms clock s1 in
          let (s3, ref) =
            append_job (new_job id name schedule payload delete_after_run wake_mode now) s2 in
          (arm_timer clock (save_store s3), some ref))
      else (s1, none)

  -- What `enable_job` sets; it reads the clock once more to enable.
  unfoldable pub set_enabled : ℕ → Bool → Service → Service
  set_enabled ref enabled s =
      let (s1, updated) = now_ms clock s in
      let job = record (s1.heap ref) { enabled = enabled; updated_at_ms = updated } in
      if enabled
      then (let (s2, now) = now_ms clock s1 in
          write ref
            (record job {
              state = record job.state {
                next_run_at_ms = compute_next_run next_cron job.schedule now;
              };
            })
            s2)
      else write ref (record job { state = record job.state { next_run_at_ms = none } }) s1

  unfoldable pub enable_job : String → Bool → Service → Service × Option ℕ
  enable_job job_id enabled s =
      let s1 = load_store s in
      elim (find_ref job_id s1.heap (jobs_of s1.store)) [
        | none ↦ (s1, none)
        | some ref ↦ (arm_timer clock (save_store (set_enabled ref enabled s1)), some ref)
      ]

  -- `run_job`; `none` if it was cancelled.
  unfoldable pub run_job :
      Option (ℕ → Service → Service × Outcome) → String → Bool → Service → Service × Option Bool
  run_job on_job job_id force s =
      let s1 = load_store s in
      elim (find_ref job_id s1.heap (jobs_of s1.store)) [
        | none ↦ (s1, some false)
        | some ref ↦
            if not force && not (s1.heap ref).enabled
            then (s1, some false)
            else (let (s2, ran) = execute_job clock next_cron on_job ref s1 in
                if ran then (arm_timer clock (save_store s2), some true) else (s2, none))
      ]
