-- ===== src/Cron/Service.antt =====
-- The state of `CronService` of service.py, its file and its timer. A job is an object that the store,
-- the deferred list and the callbacks share, so it is reached by a reference into a heap. The clock
-- is a parameter: `clock n` is what `_now_ms` answers the n-th time. The file holds the document that
-- `_save_store` writes; two writes of it never have the same modification time.
pub mod Saved
pub mod Wake
use exoclaw_plugins.Prelude.{
  ℕ, zero, suc, ◌-◌, String, Bool, true, false, not, ◌&&◌, ◌||◌, Option, none, some, List, [], ◌∷◌,
  ◌++◌, map, leb, ◌==◌, if◌then◌else◌,
}
use exoclaw_plugins.Cron.{CronJob, CronJobState}
use exoclaw_plugins.Cron.Codec.{Json, encode_store}
use exoclaw_plugins.Cron.Codec.Load.{decode_store}
use exoclaw_plugins.Cron.Schedule.{compute_next_run}

pub data File : Type 0 where
  absent : File
  -- What is there is no JSON document.
  corrupt : File
  holds : Json → File

pub record Service : Type 0 where
  pub heap : ℕ → CronJob
  pub next_ref : ℕ
  -- `_store.jobs`, or no `_store`
  pub store : Option (List ℕ)
  pub deferred : List ℕ
  -- The delay of the timer that is armed.
  pub timer : Option ℕ
  pub running : Bool
  pub file : File
  pub mtime : ℕ
  pub last_mtime : ℕ
  -- How often the clock has been read.
  pub readings : ℕ

abbrev pub jobs_of : Option (List ℕ) → List ℕ
jobs_of none = []
jobs_of (some refs) = refs

-- Assigning to the fields of the object at a reference.
unfoldable pub write : ℕ → CronJob → Service → Service
write ref job s = record s { heap = λ r. if r == ref then job else s.heap r }

unfoldable pub set_state : ℕ → CronJobState → Service → Service
set_state ref state s = write ref (record (s.heap ref) { state = state }) s

-- `CronJob(...)`
unfoldable pub alloc : CronJob → Service → Service × ℕ
alloc job s = (
  record s { heap = λ r. if r == s.next_ref then job else s.heap r; next_ref = suc s.next_ref },
  s.next_ref,
)

unfoldable pub alloc_all : List CronJob → Service → Service × List ℕ
alloc_all [] s = (s, [])
alloc_all (job ∷ jobs) s =
    let (s1, ref) = alloc job s in let (s2, refs) = alloc_all jobs s1 in (s2, ref ∷ refs)

abbrev pub is_absent : File → Bool
is_absent absent = true
is_absent _ = false

-- An exception leaves the store empty.
abbrev pub or_empty : Option (List CronJob) → List CronJob
or_empty none = []
or_empty (some jobs) = jobs

-- The jobs of a document, and none of a file that is not there or does not parse.
unfoldable pub file_jobs : File → List CronJob
file_jobs absent = []
file_jobs corrupt = []
file_jobs (holds document) = or_empty (decode_store document)

-- The version of a `CronStore` is its default.
abbrev pub version : ℕ
version = 1

abbrev pub is_stale : Service → Bool
is_stale s = not (is_absent s.file) && not (s.mtime == s.last_mtime)

unfoldable pub read_file : Service → Service
read_file s = let (s1, refs) = alloc_all (file_jobs s.file) s in record s1 { store = some refs }

-- `_load_store`: the file is read if nothing is loaded, or if its time is not that of the last save.
unfoldable pub load_store : Service → Service
load_store s = elim s.store [
  | none ↦ read_file s
  | some refs ↦ if is_stale s then read_file s else s
]

-- `_save_store`
unfoldable pub save_store : Service → Service
save_store s = elim s.store [
  | none ↦ s
  | some refs ↦ record s {
    file = holds (encode_store version (map s.heap refs));
    mtime = suc s.mtime;
    last_mtime = suc s.mtime;
  }
]

-- Another process writes the file.
unfoldable pub edit_file : File → Service → Service
edit_file file s = record s { file = file; mtime = suc s.mtime }

-- `__init__` over what the file holds.
unfoldable pub init : (ℕ → CronJob) → File → ℕ → Service
init heap file mtime = record {
  heap = heap;
  next_ref = 0;
  store = none;
  deferred = [];
  timer = none;
  running = false;
  file = file;
  mtime = mtime;
  last_mtime = 0;
  readings = 0;
}

-- `min(times)`
unfoldable pub min_of : List ℕ → Option ℕ
min_of [] = none
min_of (t ∷ ts) = elim (min_of ts) [ none ↦ some t | some u ↦ some (if leb t u then t else u) ]

-- `[t]`, if the job is enabled and its next run is set.
abbrev pub run_time : CronJob → List ℕ
run_time job =
    if job.enabled
    then (elim job.state.next_run_at_ms [ none ↦ [] | some zero ↦ [] | some (suc n) ↦ suc n ∷ [] ])
    else []

unfoldable pub run_times : List CronJob → List ℕ
run_times [] = []
run_times (job ∷ jobs) = run_time job ++ run_times jobs

-- `_get_next_wake_ms`
unfoldable pub get_next_wake_ms : Service → Option ℕ
get_next_wake_ms s = min_of (run_times (map s.heap (jobs_of s.store)))

module _ (clock : ℕ → ℕ) where
  -- `_now_ms()`
  unfoldable pub now_ms : Service → Service × ℕ
  now_ms s = (record s { readings = suc s.readings }, clock s.readings)

  -- `_arm_timer`
  unfoldable pub arm_timer : Service → Service
  arm_timer s =
      let disarmed = record s { timer = none } in
      elim (get_next_wake_ms s) [
        | none ↦ disarmed
        | some next_wake ↦
            if not s.running || next_wake == 0
            then disarmed
            else (let (s1, now) = now_ms s in record s1 { timer = some (next_wake - now) })
      ]

  unfoldable pub stop : Service → Service
  stop s = record s { running = false; timer = none }

  module _ (next_cron : String → Option String → ℕ → Option ℕ) where
    -- The loop of `_recompute_next_runs`.
    unfoldable pub recompute : ℕ → List ℕ → Service → Service
    recompute now [] s = s
    recompute now (ref ∷ refs) s =
        let job = s.heap ref in
        let state = record job.state {
          next_run_at_ms = compute_next_run next_cron job.schedule now;
        } in
        recompute now refs (if job.enabled then set_state ref state s else s)

    unfoldable pub recompute_next_runs : Service → Service
    recompute_next_runs s = elim s.store [
      | none ↦ s
      | some refs ↦ let (s1, now) = now_ms s in recompute now refs s1
    ]

    -- `start`, but for the heartbeat task.
    unfoldable pub start : Service → Service
    start s =
        arm_timer (save_store (recompute_next_runs (load_store (record s { running = true }))))
