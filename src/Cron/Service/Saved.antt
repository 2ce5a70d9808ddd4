-- ===== src/Cron/Service/Saved.antt =====
-- `_save_store` against `_load_store` of service.py.
use exoclaw_plugins.Prelude.{
  ℕ, ◌≤◌, ◌<◌, ◌≡◌, refl, sym, ap, ◌∙◌, false, not, ◌||◌, some, List, [], ◌∷◌, map, arith, ◌==◌,
  Bool-cases, Option-cases, inl, inr, subst, All,
}
use exoclaw_plugins.Cron.{CronJob}
use exoclaw_plugins.Cron.Codec.{encode_store}
use exoclaw_plugins.Cron.Codec.Trip.{decode_store-encode_store}
use exoclaw_plugins.Cron.Service.{
  holds, version, or_empty, file_jobs, Service, jobs_of, alloc, alloc_all, read_file, load_store,
  save_store, init, is_stale, now_ms, arm_timer, get_next_wake_ms,
}

-- Allocation leaves the objects that are there alone.
pub alloc_all-heap :
    (jobs : List CronJob) (s : Service) (r : ℕ)
    → r < s.next_ref
    → (alloc_all jobs s).0.heap r ≡ s.heap r
unfolding alloc_all alloc
alloc_all-heap [] s r below = refl
alloc_all-heap (job ∷ jobs) s r below =
    alloc_all-heap jobs (alloc job s).0 r (omega arith) ∙ ground arith

-- The new references hold the jobs, in order.
pub alloc_all-map :
    (jobs : List CronJob) (s : Service) → map (alloc_all jobs s).0.heap (alloc_all jobs s).1 ≡ jobs
unfolding alloc_all alloc
alloc_all-map [] s = refl
alloc_all-map (job ∷ jobs) s =
    let first : (alloc_all (job ∷ jobs) s).0.heap s.next_ref ≡ job =
      alloc_all-heap jobs (alloc job s).0 s.next_ref (omega arith) ∙ ground arith in
    rw first (ap (λ rest. job ∷ rest) (alloc_all-map jobs (alloc job s).0))

-- The new references are all below the next one.
pub alloc_all-below :
    (jobs : List CronJob) (s : Service)
    → (s.next_ref ≤ (alloc_all jobs s).0.next_ref)
      × All (λ r. r < (alloc_all jobs s).0.next_ref) (alloc_all jobs s).1
unfolding alloc_all alloc
alloc_all-below [] s = (omega arith, tt)
alloc_all-below (job ∷ jobs) s =
    let (le, rest) = alloc_all-below jobs (alloc job s).0 in (omega arith, (omega arith, rest))

load_store-fresh :
    (s : Service) (refs : List ℕ) → s.store ≡ some refs → is_stale s ≡ false → load_store s ≡ s
unfolding load_store
load_store-fresh s refs e fresh = ground arith

-- The jobs of a document that was written for them.
file_jobs-encode_store :
    (jobs : List CronJob) → file_jobs (holds (encode_store version jobs)) ≡ jobs
unfolding file_jobs
file_jobs-encode_store jobs = ap or_empty (decode_store-encode_store version jobs)

pub save_store-fields :
    (s : Service) (refs : List ℕ)
    → s.store ≡ some refs
    → (is_stale (save_store s) ≡ false)
      × ((save_store s).store ≡ some refs)
      × (file_jobs (save_store s).file ≡ map s.heap refs)
unfolding save_store
save_store-fields s refs e =
    rw (save_store, e) (ground arith, e, file_jobs-encode_store (map s.heap refs))

-- A store that was just saved is not read again.
pub load_store-save_store :
    (s : Service) (refs : List ℕ) → s.store ≡ some refs → load_store (save_store s) ≡ save_store s
load_store-save_store s refs e =
    let (fresh, stored, _) = save_store-fields s refs e in
    load_store-fresh (save_store s) refs stored fresh

-- A service that starts over the document that another one with a loaded store has saved loads from it
-- exactly its jobs, every field of them, in order, whatever memory it starts with.
pub save_store-load_store :
    (s : Service) (refs : List ℕ) (heap : ℕ → CronJob) (mtime : ℕ)
    → s.store ≡ some refs
    → map
        (load_store (init heap (save_store s).file mtime)).heap
        (jobs_of (load_store (init heap (save_store s).file mtime)).store)
      ≡ map s.heap refs
unfolding load_store read_file init
save_store-load_store s refs heap mtime e =
    alloc_all-map (file_jobs (save_store s).file) (init heap (save_store s).file mtime)
    ∙ (save_store-fields s refs e).2

-- Neither saving nor arming the timer touches the jobs.
pub save_store-jobs :
    (s : Service) → ((save_store s).heap ≡ s.heap) × ((save_store s).store ≡ s.store)
unfolding save_store
save_store-jobs s = elim (Option-cases s.store) [
  | inl e ↦ rw (save_store, e) (refl, e)
  | inr (refs, e) ↦ rw (save_store, e) (refl, e)
]

pub arm_timer-jobs :
    (clock : ℕ → ℕ) (s : Service)
    → ((arm_timer clock s).heap ≡ s.heap) × ((arm_timer clock s).store ≡ s.store)
unfolding arm_timer now_ms
arm_timer-jobs clock s = elim (Option-cases (get_next_wake_ms s)) [
  | inl e ↦ rw (arm_timer, e) (refl, refl)
  | inr (next_wake, e) ↦ elim (Bool-cases (not s.running || next_wake == 0)) [
    | inl off ↦ rw (arm_timer, e, off) (refl, refl)
    | inr on ↦ rw (arm_timer, e, on) (refl, refl)
  ]
]

-- Reading the file touches neither it nor the deferred jobs.
alloc_all-fields :
    (jobs : List CronJob) (s : Service)
    → ((alloc_all jobs s).0.deferred ≡ s.deferred) × ((alloc_all jobs s).0.file ≡ s.file)
unfolding alloc_all alloc
alloc_all-fields [] s = (refl, refl)
alloc_all-fields (job ∷ jobs) s = alloc_all-fields jobs (alloc job s).0

pub load_store-fields :
    (s : Service) → ((load_store s).deferred ≡ s.deferred) × ((load_store s).file ≡ s.file)
unfolding load_store read_file
load_store-fields s =
    let read = alloc_all-fields (file_jobs s.file) s in
    elim (Option-cases s.store) [
      | inl e ↦ rw (load_store, e) read
      | inr (refs, e) ↦ elim (Bool-cases (is_stale s)) [
        | inl stale ↦ rw (load_store, e, stale) read
        | inr fresh ↦
            subst (λ (s' : Service). (s'.deferred ≡ s.deferred) × (s'.file ≡ s.file))
              (sym (load_store-fresh s refs e fresh)) (refl, refl)
      ]
    ]
