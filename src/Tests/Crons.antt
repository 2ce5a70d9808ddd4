-- ===== src/Tests/Crons.antt =====
-- The cron service at small runs: a clock that starts at 1000 and moves by one at each reading.
use exoclaw_plugins.Prelude.{
  map, length, any, ℕ, ◌+◌, ◌≡◌, refl, String, true, false, Option, none, some, [], ◌∷◌, arith,
  select,
}
use exoclaw_plugins.Cron.{
  CronSchedule, CronPayload, CronJob, at, every, agent_turn, now, next_heartbeat,
}
use exoclaw_plugins.Cron.Schedule.{next_at, next_every, compute_next_run, is_valid_for_add}
use exoclaw_plugins.Cron.Codec.{
  get, texts, encode_schedule, encode_payload, encode_state, encode_job, encode_jobs, encode_store,
}
use exoclaw_plugins.Cron.Codec.Load.{
  read_texts, decode_schedule, decode_payload, decode_state, decode_job, decode_jobs, decode_store,
}
use exoclaw_plugins.Cron.Service.{
  Service, jobs_of, holds, file_jobs, write, set_state, alloc, alloc_all, read_file, load_store,
  save_store, edit_file, init, min_of, run_times, get_next_wake_ms, now_ms, arm_timer, recompute,
  recompute_next_runs, start,
}
use exoclaw_plugins.Cron.Run.{
  Outcome, returned, is_due, drop_id, drop_flushed, defer_job, record_run, finish_job, run_callback,
  execute_job, run_due, due_refs, on_timer, flush_all, flush_batch, flush_deferred,
}
use exoclaw_plugins.Cron.Run.Affects.{mem}
use exoclaw_plugins.Cron.Run.Quiet.{IsQuiet}
use exoclaw_plugins.Cron.Run.Flush.{flush_deferred_lem, execute_job-once}
use exoclaw_plugins.Cron.Run.Lost.{defer_job-restart}
use exoclaw_plugins.Cron.Service.Saved.{save_store-load_store}
use exoclaw_plugins.Cron.Service.Wake.{get_next_wake_ms-due}
use exoclaw_plugins.Cron.Api.{
  find_ref, prefix, Update, value_error, set_fields, remove_job, append_job, add_job, update_job,
}
use exoclaw_plugins.Cron.Api.Jobs.{job_ref, add_job_lem, update_job-value_error}

abbrev clock : ℕ → ℕ
clock n = 1000 + n

abbrev next_cron : String → Option String → ℕ → Option ℕ
next_cron expr tz t = some (t + 60000)

abbrev callback : ℕ → Service → Service × Outcome
callback ref s = (s, returned)

abbrev payload : CronPayload
payload = record {
  kind = agent_turn;
  message = "hello";
  deliver = false;
  channel = none;
  to = none;
  skills = [];
  stateless = false;
  model = none;
}

-- Every five seconds, due at 900.
abbrev job : CronJob
job = record {
  id = "a";
  name = "a";
  enabled = true;
  schedule = record { kind = every; at_ms = none; every_ms = some 5000; expr = none; tz = none };
  payload = payload;
  state = record {
    next_run_at_ms = some 900;
    last_run_at_ms = none;
    last_status = none;
    last_error = none;
  };
  created_at_ms = 0;
  updated_at_ms = 0;
  delete_after_run = false;
  wake_mode = now;
}

-- Once, at 950, on the next heartbeat.
abbrev reminder : CronJob
reminder = record job {
  id = "b";
  schedule = record { kind = at; at_ms = some 950; every_ms = none; expr = none; tz = none };
  state = record {
    next_run_at_ms = some 950;
    last_run_at_ms = none;
    last_status = none;
    last_error = none;
  };
  delete_after_run = true;
  wake_mode = next_heartbeat;
}

program : Unit {0}
unfolding get texts encode_schedule encode_payload encode_state encode_job encode_jobs encode_store
    read_texts decode_schedule decode_payload decode_state decode_job decode_jobs decode_store
    file_jobs select next_at next_every compute_next_run write set_state alloc alloc_all read_file
    load_store save_store edit_file init min_of run_times get_next_wake_ms now_ms arm_timer
    recompute recompute_next_runs start drop_id drop_flushed defer_job record_run finish_job
    run_callback execute_job run_due due_refs on_timer flush_all flush_batch flush_deferred mem
    is_valid_for_add find_ref prefix set_fields remove_job append_job add_job update_job
program = tt

abbrev service : Service
service = init (λ r. job) (holds (encode_store 1 (job ∷ reminder ∷ []))) 7

abbrev after : Service
after = (on_timer clock next_cron (some callback) service).0

after_timer :
    (after.deferred ≡ 1 ∷ [])
    × (get_next_wake_ms after ≡ some 6003)
    × ((after.heap 1).enabled ≡ false)
unfolding program
after_timer = (refl, refl, refl)

after_flush :
    ((flush_deferred clock next_cron (some callback) after).1 ≡ some 1)
    × ((flush_deferred clock next_cron (some callback) after).0.store ≡ some (0 ∷ []))
unfolding program
after_flush = (refl, refl)

quiet : IsQuiet callback
quiet = record {
  heap = λ ref s. refl;
  store = λ ref s. refl;
  deferred = λ ref s. refl;
  readings = λ ref s. omega arith;
}

flush_deferred_example :
    let flushed = (flush_deferred clock next_cron (some callback) after).0 in
    (1 ≡ length after.deferred)
    × (flushed.deferred ≡ [])
    × (flush_deferred clock next_cron (some callback) flushed ≡ (flushed, some 0))
unfolding program
flush_deferred_example = flush_deferred_lem clock next_cron callback quiet after 1 refl

abbrev loaded : Service
loaded = load_store service

execute_job-once_example :
    is_due 5000 (
      (execute_job clock next_cron
          (some callback)
          1
          (write 1 (record reminder { delete_after_run = false }) loaded)).0.heap
        1)
    ≡ false
unfolding program
execute_job-once_example =
    execute_job-once clock next_cron callback quiet 1 5000
      (write 1 (record reminder { delete_after_run = false }) loaded) refl refl refl

save_store-load_store_example :
    let restarted = load_store (init (λ r. reminder) (save_store loaded).file 3) in
    map restarted.heap (jobs_of restarted.store) ≡ job ∷ reminder ∷ []
unfolding program
save_store-load_store_example = save_store-load_store loaded (0 ∷ 1 ∷ []) (λ r. reminder) 3 refl

get_next_wake_ms-due_example : any (is_due 920) (job ∷ reminder ∷ []) ≡ true
unfolding program
get_next_wake_ms-due_example = get_next_wake_ms-due 920 loaded

defer_job-restart_example :
    let deferred = defer_job clock next_cron 1 loaded in
    let restarted = load_store (init (λ r. job) (save_store deferred).file 3) in
    (restarted.deferred ≡ [])
    × (map restarted.heap (jobs_of restarted.store) ≡ map deferred.heap (0 ∷ 1 ∷ []))
    × ((deferred.heap 1).enabled ≡ false)
unfolding program
defer_job-restart_example =
    defer_job-restart clock next_cron 1 (0 ∷ 1 ∷ []) loaded (λ r. job) 3 refl refl

add_job_example :
    let (s, ref) =
      add_job clock next_cron (λ tz. true) "c" "c" job.schedule payload false now service in
    (ref ≡ some 2) × (job_ref "c" s ≡ some 2)
unfolding program
add_job_example =
    add_job_lem clock next_cron (λ tz. true) "c" "c" job.schedule payload false now "c" service refl
      (omega arith, (omega arith, tt)) refl

-- A time zone on a schedule that is no cron expression.
abbrev bad_schedule : CronSchedule
bad_schedule = record job.schedule { tz = some "UTC" }

abbrev update : Update
update = record {
  message = some "changed";
  deliver = none;
  channel = none;
  to = none;
  skills = none;
  stateless = none;
  model = none;
  schedule = some bad_schedule;
  wake_mode = none;
}

update_job-value_error_example :
    let (s, reply) = update_job clock next_cron (λ tz. true) "a" update service in
    (reply ≡ value_error) × (s.file ≡ service.file) × ((s.heap 0).payload.message ≡ "changed")
unfolding program
update_job-value_error_example =
    update_job-value_error clock next_cron (λ tz. true) "a" "changed" update bad_schedule 0 service
      refl refl refl refl

-- A callback that looks at the jobs after the file was edited: they are read again while the job runs,
-- and the one that is then saved is still due.
abbrev looking : ℕ → Service → Service × Outcome
looking ref s = (load_store s, returned)

edited_runs_twice :
    let edited = edit_file (holds (encode_store 1 (job ∷ []))) (save_store loaded) in
    let s = (on_timer clock next_cron (some looking) edited).0 in
    any (is_due 1000) (map s.heap (jobs_of s.store)) ≡ true
unfolding program
edited_runs_twice = refl
