-- ===== src/Cron/Codec/Trip.antt =====
-- `_load_store` reads back what `_save_store` of service.py wrote.
use exoclaw_plugins.Prelude.{ℕ, ◌≡◌, refl, String, Option, none, some, List, [], ◌∷◌}
use exoclaw_plugins.Cron.{
  CronSchedule, CronPayload, CronJobState, CronJob, ScheduleKind, at, every, cron, PayloadKind,
  system_event, agent_turn, Status, ok, error, skipped, WakeMode, now, next_heartbeat,
}
use exoclaw_plugins.Cron.Codec.{
  number, text, get, of_option, texts, schedule_kind, payload_kind, status_text, wake_mode_text,
  encode_schedule, encode_payload, encode_state, encode_job, encode_jobs, encode_store,
}
use exoclaw_plugins.Cron.Codec.Load.{
  nullable_number, nullable_text, nullable_status, read_schedule_kind, read_payload_kind,
  read_wake_mode, as_fields, read_texts, decode_schedule, decode_payload, decode_state, decode_job,
  decode_jobs, decode_store, ◌>>=◌,
}

number_back : (o : Option ℕ) → nullable_number (some (of_option number o)) ≡ some o
number_back none = refl
number_back (some n) = refl

text_back : (o : Option String) → nullable_text (some (of_option text o)) ≡ some o
text_back none = refl
text_back (some s) = refl

status_back :
    (o : Option Status)
    → nullable_status (some (of_option (λ status. text (status_text status)) o)) ≡ some o
status_back none = refl
status_back (some ok) = refl
status_back (some error) = refl
status_back (some skipped) = refl

schedule_kind_back : (k : ScheduleKind) → read_schedule_kind (schedule_kind k) ≡ some k
schedule_kind_back at = refl
schedule_kind_back every = refl
schedule_kind_back cron = refl

payload_kind_back : (k : PayloadKind) → read_payload_kind (text (payload_kind k)) ≡ some k
payload_kind_back system_event = refl
payload_kind_back agent_turn = refl

wake_mode_back : (w : WakeMode) → read_wake_mode (some (text (wake_mode_text w))) ≡ w
wake_mode_back now = refl
wake_mode_back next_heartbeat = refl

texts_back : (ss : List String) → read_texts (texts ss) ≡ some ss
unfolding read_texts texts
texts_back [] = refl
texts_back (s ∷ ss) = rw (texts_back ss) refl

schedule_back : (s : CronSchedule) → (as_fields (encode_schedule s) >>= decode_schedule) ≡ some s
unfolding encode_schedule decode_schedule get
schedule_back s =
    rw
      (
        schedule_kind_back s.kind,
        number_back s.at_ms,
        number_back s.every_ms,
        text_back s.expr,
        text_back s.tz,
      )
      refl

payload_back : (p : CronPayload) → (as_fields (encode_payload p) >>= decode_payload) ≡ some p
unfolding encode_payload decode_payload get
payload_back p =
    rw
      (
        payload_kind_back p.kind,
        text_back p.channel,
        text_back p.to,
        texts_back p.skills,
        text_back p.model,
      )
      refl

state_back : (s : CronJobState) → (as_fields (encode_state s) >>= decode_state) ≡ some s
unfolding encode_state decode_state get
state_back s =
    rw
      (
        number_back s.next_run_at_ms,
        number_back s.last_run_at_ms,
        status_back s.last_status,
        text_back s.last_error,
      )
      refl

job_back : (j : CronJob) → decode_job (encode_job j) ≡ some j
unfolding encode_job decode_job get
job_back j =
    rw
      (
        schedule_back j.schedule,
        payload_back j.payload,
        state_back j.state,
        wake_mode_back j.wake_mode,
      )
      refl

jobs_back : (js : List CronJob) → decode_jobs (encode_jobs js) ≡ some js
unfolding encode_jobs decode_jobs
jobs_back [] = refl
jobs_back (j ∷ js) = rw (job_back j, jobs_back js) refl

-- The document that is written for any jobs and any version is read back as these jobs, in order.
pub decode_store-encode_store :
    (version : ℕ) (jobs : List CronJob) → decode_store (encode_store version jobs) ≡ some jobs
unfolding encode_store decode_store get
decode_store-encode_store version jobs = jobs_back jobs
