-- ===== src/Cron/Codec/Load.antt =====
-- What `_load_store` of service.py makes of the document, and that it reads back what was saved.
use exoclaw_plugins.Prelude.{
  ℕ, String, Bool, true, false, Option, none, some, List, [], ◌∷◌, if◌then◌else◌, str_eq,
}
use exoclaw_plugins.Cron.{
  CronSchedule, CronPayload, CronJobState, CronJob, ScheduleKind, at, every, cron, PayloadKind,
  system_event, agent_turn, Status, ok, error, skipped, WakeMode, now, next_heartbeat,
}
use exoclaw_plugins.Cron.Codec.{
  Json, null, boolean, number, text, array, object, Items, empty, item, Fields, nil, get,
}

infixl 3 ◌>>=◌
abbrev pub ◌>>=◌ : {A B : Type 0} → Option A → (A → Option B) → Option B
none >>= f = none
(some a) >>= f = f a

abbrev pub as_text : Json → Option String
as_text (text s) = some s
as_text _ = none

abbrev pub as_number : Json → Option ℕ
as_number (number n) = some n
as_number _ = none

abbrev pub as_boolean : Json → Option Bool
as_boolean (boolean b) = some b
as_boolean _ = none

abbrev pub as_fields : Json → Option Fields
as_fields (object d) = some d
as_fields _ = none

unfoldable pub read_texts : Items → Option (List String)
read_texts empty = some []
read_texts (item v vs) = do s ← as_text v; ss ← read_texts vs; some (s ∷ ss)

abbrev pub as_texts : Json → Option (List String)
as_texts (array vs) = read_texts vs
as_texts _ = none

-- `d.get(key)` of a value that may be `None`.
abbrev pub nullable_number : Option Json → Option (Option ℕ)
nullable_number none = some none
nullable_number (some null) = some none
nullable_number (some v) = do n ← as_number v; some (some n)

abbrev pub nullable_text : Option Json → Option (Option String)
nullable_text none = some none
nullable_text (some null) = some none
nullable_text (some v) = do s ← as_text v; some (some s)

-- `d.get(key, default)`
abbrev pub or_default : {A : Type 0} → (Json → Option A) → A → Option Json → Option A
or_default read default none = some default
or_default read default (some v) = read v

abbrev pub read_schedule_kind : String → Option ScheduleKind
read_schedule_kind s =
    if str_eq s "at"
    then some at
    else if str_eq s "every"
    then some every
    else if str_eq s "cron"
    then some cron
    else none

abbrev pub read_payload_kind : Json → Option PayloadKind
read_payload_kind (text s) =
    if str_eq s "system_event"
    then some system_event
    else if str_eq s "agent_turn"
    then some agent_turn
    else none
read_payload_kind _ = none

abbrev pub read_status : String → Option Status
read_status s =
    if str_eq s "ok"
    then some ok
    else if str_eq s "error"
    then some error
    else if str_eq s "skipped"
    then some skipped
    else none

abbrev pub nullable_status : Option Json → Option (Option Status)
nullable_status v = do
  s ← nullable_text v
  elim s [ none ↦ some none | some s ↦ read_status s >>= λ status. some (some status) ]

-- Whatever is not the other mode is "now".
abbrev pub read_wake_mode : Option Json → WakeMode
read_wake_mode (some (text s)) = if str_eq s "next-heartbeat" then next_heartbeat else now
read_wake_mode _ = now

unfoldable pub decode_schedule : Fields → Option CronSchedule
decode_schedule d = do
  kind ← get "kind" d >>= as_text >>= read_schedule_kind
  at_ms ← nullable_number (get "atMs" d)
  every_ms ← nullable_number (get "everyMs" d)
  expr ← nullable_text (get "expr" d)
  tz ← nullable_text (get "tz" d)
  some (record { kind = kind; at_ms = at_ms; every_ms = every_ms; expr = expr; tz = tz })

unfoldable pub decode_payload : Fields → Option CronPayload
decode_payload d = do
  kind ← or_default read_payload_kind agent_turn (get "kind" d)
  message ← or_default as_text "" (get "message" d)
  deliver ← or_default as_boolean false (get "deliver" d)
  channel ← nullable_text (get "channel" d)
  to ← nullable_text (get "to" d)
  skills ← or_default as_texts [] (get "skills" d)
  stateless ← or_default as_boolean false (get "stateless" d)
  model ← nullable_text (get "model" d)
  some (record {
    kind = kind;
    message = message;
    deliver = deliver;
    channel = channel;
    to = to;
    skills = skills;
    stateless = stateless;
    model = model;
  })

unfoldable pub decode_state : Fields → Option CronJobState
decode_state d = do
  next_run_at_ms ← nullable_number (get "nextRunAtMs" d)
  last_run_at_ms ← nullable_number (get "lastRunAtMs" d)
  last_status ← nullable_status (get "lastStatus" d)
  last_error ← nullable_text (get "lastError" d)
  some (record {
    next_run_at_ms = next_run_at_ms;
    last_run_at_ms = last_run_at_ms;
    last_status = last_status;
    last_error = last_error;
  })

unfoldable pub decode_job : Json → Option CronJob
decode_job v = do
  j ← as_fields v
  id ← get "id" j >>= as_text
  name ← get "name" j >>= as_text
  enabled ← or_default as_boolean true (get "enabled" j)
  schedule ← get "schedule" j >>= as_fields >>= decode_schedule
  payload ← get "payload" j >>= as_fields >>= decode_payload
  state ← or_default as_fields nil (get "state" j) >>= decode_state
  created_at_ms ← or_default as_number 0 (get "createdAtMs" j)
  updated_at_ms ← or_default as_number 0 (get "updatedAtMs" j)
  delete_after_run ← or_default as_boolean false (get "deleteAfterRun" j)
  some (record {
    id = id;
    name = name;
    enabled = enabled;
    schedule = schedule;
    payload = payload;
    state = state;
    created_at_ms = created_at_ms;
    updated_at_ms = updated_at_ms;
    delete_after_run = delete_after_run;
    wake_mode = read_wake_mode (get "wakeMode" j);
  })

unfoldable pub decode_jobs : Items → Option (List CronJob)
decode_jobs empty = some []
decode_jobs (item v vs) = do job ← decode_job v; jobs ← decode_jobs vs; some (job ∷ jobs)

abbrev pub as_jobs : Json → Option (List CronJob)
as_jobs (array vs) = decode_jobs vs
as_jobs _ = none

-- The jobs of a document; `none` is the exception that leaves the store empty.
unfoldable pub decode_store : Json → Option (List CronJob)
decode_store v = do d ← as_fields v; or_default as_jobs [] (get "jobs" d)
