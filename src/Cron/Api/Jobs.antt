-- ===== src/Cron/Api/Jobs.antt =====
-- What the public operations of service.py mean for the jobs that `get_job` finds by their ids.
use exoclaw_plugins.Prelude.{
  ℕ, suc, ◌≤◌, ◌<◌, ◌≡◌, refl, sym, ap, ◌∙◌, String, Bool, true, false, not, Option, none, some,
  List, [], ◌∷◌, ◌++◌, arith, ltb, length, if◌then◌else◌, ◌==◌, select, str_eq, str_eq_iff, subst,
  All,
}
use exoclaw_plugins.Cron.{CronSchedule, CronPayload, CronJob, WakeMode}
use exoclaw_plugins.Cron.Schedule.{is_valid_for_add}
use exoclaw_plugins.Cron.Service.{
  Service, jobs_of, write, alloc, load_store, save_store, now_ms, arm_timer,
}
use exoclaw_plugins.Cron.Service.Saved.{save_store-jobs, arm_timer-jobs, load_store-fields}
use exoclaw_plugins.Cron.Api.{
  find_ref, remove_job, append_job, new_job, add_job, Update, Reply, value_error, update_job,
  set_fields, or_else,
}
use exoclaw_plugins.Cron.Run.Affects.{write-heap}

-- The job that the store of a service has under an id.
abbrev pub job_ref : String → Service → Option ℕ
job_ref id s = find_ref id s.heap (jobs_of s.store)

abbrev pub is_found : Option ℕ → Bool
is_found none = false
is_found (some ref) = true

find_ref-select :
    (id other : String) (heap : ℕ → CronJob) (refs : List ℕ)
    → find_ref other heap (select (λ r. not (str_eq (heap r).id id)) refs)
      ≡ (if str_eq other id then none else find_ref other heap refs)
unfolding find_ref select
find_ref-select id other heap [] = ground arith
find_ref-select id other heap (r ∷ refs) = ground (
  arith,
  find_ref-select id other heap refs,
  str_eq_iff (heap r).id id,
  str_eq_iff other id,
  str_eq_iff (heap r).id other,
)

length-select : (p : ℕ → Bool) (refs : List ℕ) → length (select p refs) ≤ length refs
unfolding select
length-select p [] = omega arith
length-select p (r ∷ refs) = ground (arith, length-select p refs)

removed-is_found :
    (id : String) (heap : ℕ → CronJob) (refs : List ℕ)
    → ltb (length (select (λ r. not (str_eq (heap r).id id)) refs)) (length refs)
      ≡ is_found (find_ref id heap refs)
unfolding find_ref select
removed-is_found id heap [] = refl
removed-is_found id heap (r ∷ refs) =
    ground
      (arith, removed-is_found id heap refs, length-select (λ r. not (str_eq (heap r).id id)) refs)

saved_and_armed :
    (clock : ℕ → ℕ) (id : String) (s : Service)
    → job_ref id (arm_timer clock (save_store s)) ≡ job_ref id s
saved_and_armed clock id s =
    let (heap, store) = save_store-jobs s in
    let (heap', store') = arm_timer-jobs clock (save_store s) in cc

-- remove_job removes every job with the id and no other, and answers whether there was one.
pub remove_job_lem :
    (clock : ℕ → ℕ) (id other : String) (s : Service)
    → (job_ref other (remove_job clock id s).0
        ≡ (if str_eq other id then none else job_ref other (load_store s)))
      × ((remove_job clock id s).1 ≡ is_found (job_ref id (load_store s)))
unfolding remove_job
remove_job_lem clock id other s =
    let loaded = load_store s in
    let refs = jobs_of loaded.store in
    let kept = select (λ r. not (str_eq (loaded.heap r).id id)) refs in
    let s2 = record loaded { store = some kept } in
    let removed = ltb (length kept) (length refs) in
    let found = find_ref-select id other loaded.heap refs in
    let outcome : Bool → Service × Bool =
      λ b. if b then (arm_timer clock (save_store s2), true) else (s2, false) in
    let (left, answer) =
      elim removed
        as (λ (b : Bool).
          (job_ref other (outcome b).0 ≡ (if str_eq other id then none else job_ref other loaded))
          × ((outcome b).1 ≡ b)) [
            | true ↦ (saved_and_armed clock other s2 ∙ found, refl)
            | false ↦ (found, refl)
          ] in
    (left, answer ∙ removed-is_found id loaded.heap refs)

find_ref-same :
    (id : String) (heap heap' : ℕ → CronJob) (n : ℕ) (refs : List ℕ)
    → ((r : ℕ) → r < n → heap' r ≡ heap r)
    → All (λ r. r < n) refs
    → find_ref id heap' refs ≡ find_ref id heap refs
unfolding find_ref
find_ref-same id heap heap' n [] same below = refl
find_ref-same id heap heap' n (r ∷ refs) same (b, below) =
    rw (same r b) (ground (arith, find_ref-same id heap heap' n refs same below))

find_ref-snoc :
    (id : String) (heap : ℕ → CronJob) (refs : List ℕ) (ref : ℕ)
    → find_ref id heap (refs ++ (ref ∷ [])) ≡ (
        if is_found (find_ref id heap refs)
        then find_ref id heap refs
        else if str_eq (heap ref).id id
        then some ref
        else none)
unfolding find_ref
find_ref-snoc id heap [] ref = ground arith
find_ref-snoc id heap (r ∷ refs) ref = ground (arith, find_ref-snoc id heap refs ref)

-- The references in the store are to objects that exist.
abbrev pub IsAllocated : Service → Type 0
IsAllocated s = All (λ r. r < s.next_ref) (jobs_of s.store)

or_new :
    (found : Option ℕ) (n : ℕ) (hit : Bool)
    → (hit ≡ true → found ≡ none)
    → (if is_found found then found else if hit then some n else none)
      ≡ (if hit then some n else found)
or_new none n hit h = refl
or_new (some r) n true h = absurd (cc (h refl))
or_new (some r) n false h = refl

append_job-job_ref :
    (clock : ℕ → ℕ) (next_cron : String → Option String → ℕ → Option ℕ) (job : CronJob)
    (other : String) (s : Service)
    → IsAllocated s
    → job_ref job.id s ≡ none
    → job_ref other (append_job clock next_cron job s).0
      ≡ (if str_eq job.id other then some s.next_ref else job_ref other s)
unfolding append_job alloc
append_job-job_ref clock next_cron job other s allocated fresh =
    let n = s.next_ref in
    let refs = jobs_of s.store in
    let heap : ℕ → CronJob = λ r. if r == n then job else s.heap r in
    let old = find_ref-same other s.heap heap n refs (λ r below. ground arith) allocated in
    let new : heap n ≡ job = ground arith in
    let eq = str_eq_iff job.id other in
    find_ref-snoc other heap refs n
    ∙ rw (old, new)
        (or_new (job_ref other s) n (str_eq job.id other)
          (λ hit. subst (λ (i : String). job_ref i s ≡ none) (eq.0 hit) fresh))

-- A job that add_job accepts is found under its id afterwards, if the id is new, and every other id
-- finds what it found before.
pub add_job_lem :
    (clock : ℕ → ℕ) (next_cron : String → Option String → ℕ → Option ℕ) (known_tz : String → Bool)
    (id name : String) (schedule : CronSchedule) (payload : CronPayload) (delete_after_run : Bool)
    (wake_mode : WakeMode) (other : String) (s : Service)
    → is_valid_for_add known_tz schedule ≡ true
    → IsAllocated (load_store s)
    → job_ref id (load_store s) ≡ none
    → let (s', ref) =
        add_job clock next_cron known_tz id name schedule payload delete_after_run wake_mode s in
      (ref ≡ some (load_store s).next_ref)
      × (job_ref other s' ≡ (if str_eq id other then ref else job_ref other (load_store s)))
unfolding add_job append_job alloc now_ms
add_job_lem clock next_cron known_tz id name schedule payload delete_after_run wake_mode other s
      valid allocated fresh =
    let loaded = load_store s in
    let s2 = record loaded { readings = suc loaded.readings } in
    let job =
      new_job clock next_cron id name schedule payload delete_after_run wake_mode
        (clock loaded.readings) in
    rw valid (
      refl,
      saved_and_armed clock other (append_job clock next_cron job s2).0
          ∙ append_job-job_ref clock next_cron job other s2 allocated fresh,
    )

set_fields-message :
    (u : Update) (job : CronJob) (message : String)
    → u.message ≡ some message
    → (set_fields u job).payload.message ≡ message
unfolding set_fields
set_fields-message u job message e = ap (λ (m : Option String). or_else m job.payload.message) e

-- An update with a schedule that is refused answers with the error and leaves the file alone, yet the
-- job that is in memory has the new message already.
pub update_job-value_error :
    (clock : ℕ → ℕ) (next_cron : String → Option String → ℕ → Option ℕ) (known_tz : String → Bool)
    (id message : String) (u : Update) (schedule : CronSchedule) (ref : ℕ) (s : Service)
    → job_ref id (load_store s) ≡ some ref
    → u.message ≡ some message
    → u.schedule ≡ some schedule
    → is_valid_for_add known_tz schedule ≡ false
    → let (s', reply) = update_job clock next_cron known_tz id u s in
      (reply ≡ value_error) × (s'.file ≡ s.file) × ((s'.heap ref).payload.message ≡ message)
unfolding update_job write
update_job-value_error clock next_cron known_tz id message u schedule ref s found given refused
      invalid =
    let loaded = load_store s in
    let job = set_fields u (loaded.heap ref) in
    let outcome : update_job clock next_cron known_tz id u s ≡ (write ref job loaded, value_error) =
      rw (update_job, found, refused, invalid) refl in
    subst
      (λ (r : Service × Reply).
        (r.1 ≡ value_error) × (r.0.file ≡ s.file) × ((r.0.heap ref).payload.message ≡ message))
      (sym outcome)
      (
        refl,
        (load_store-fields s).1,
        ap (λ (j : CronJob). j.payload.message) (write-heap ref job loaded)
            ∙ set_fields-message u (loaded.heap ref) message given,
      )
