-- ===== src/Cron/Codec.antt =====
-- The document of `_save_store` and `_load_store` in service.py, as the value that json.dumps takes and
-- json.loads gives. A value of another kind than `_save_store` writes in its place, which the code
-- would carry along, makes a document here that does not load.
pub mod Load
pub mod Trip
use exoclaw_plugins.Prelude.{
  ℕ, ◌≡◌, refl, ap, ◌∙◌, String, Bool, true, false, Option, none, some, List, [], ◌∷◌, map,
  if◌then◌else◌, str_eq,
}
use exoclaw_plugins.Cron.{
  CronSchedule, CronPayload, CronJobState, CronJob, ScheduleKind, at, every, cron, PayloadKind,
  system_event, agent_turn, Status, ok, error, skipped, WakeMode, now, next_heartbeat,
}

mutual
  pub data Json : Type 0 where
    null : Json
    boolean : Bool → Json
    number : ℕ → Json
    text : String → Json
    array : Items → Json
    object : Fields → Json

  pub data Items : Type 0 where
    empty : Items
    item : Json → Items → Items

  pub data Fields : Type 0 where
    nil : Fields
    field : String → Json → Fields → Fields

-- `d.get(key)`; the later of two equal keys does not occur in what is written.
unfoldable pub get : String → Fields → Option Json
get key nil = none
get key (field k v rest) = if str_eq k key then some v else get key rest

abbrev pub of_option : {A : Type 0} → (A → Json) → Option A → Json
of_option f none = null
of_option f (some a) = f a

unfoldable pub texts : List String → Items
texts [] = empty
texts (s ∷ ss) = item (text s) (texts ss)

abbrev pub schedule_kind : ScheduleKind → String
schedule_kind at = "at"
schedule_kind every = "every"
schedule_kind cron = "cron"

abbrev pub payload_kind : PayloadKind → String
payload_kind system_event = "system_event"
payload_kind agent_turn = "agent_turn"

abbrev pub status_text : Status → String
status_text ok = "ok"
status_text error = "error"
status_text skipped = "skipped"

abbrev pub wake_mode_text : WakeMode → String
wake_mode_text now = "now"
wake_mode_text next_heartbeat = "next-heartbeat"

unfoldable pub encode_schedule : CronSchedule → Json
encode_schedule s = object (
    field "kind" (text (schedule_kind s.kind)) (
      field "atMs" (of_option number s.at_ms) (
        field "everyMs" (of_option number s.every_ms)
          (field "expr" (of_option text s.expr) (field "tz" (of_option text s.tz) nil)))))

unfoldable pub encode_payload : CronPayload → Json
encode_payload p = object (
    field "kind" (text (payload_kind p.kind)) (
      field "message" (text p.message) (
        field "deliver" (boolean p.deliver) (
          field "channel" (of_option text p.channel) (
            field "to" (of_option text p.to) (
              field "skills" (array (texts p.skills)) (
                field "stateless" (boolean p.stateless)
                  (field "model" (of_option text p.model) nil))))))))

unfoldable pub encode_state : CronJobState → Json
encode_state s = object (
    field "nextRunAtMs" (of_option number s.next_run_at_ms) (
      field "lastRunAtMs" (of_option number s.last_run_at_ms) (
        field "lastStatus" (of_option (λ status. text (status_text status)) s.last_status)
          (field "lastError" (of_option text s.last_error) nil))))

unfoldable pub encode_job : CronJob → Json
encode_job j = object (
    field "id" (text j.id) (
      field "name" (text j.name) (
        field "enabled" (boolean j.enabled) (
          field "schedule" (encode_schedule j.schedule) (
            field "payload" (encode_payload j.payload) (
              field "state" (encode_state j.state) (
                field "createdAtMs" (number j.created_at_ms) (
                  field "updatedAtMs" (number j.updated_at_ms) (
                    field "deleteAfterRun" (boolean j.delete_after_run)
                      (field "wakeMode" (text (wake_mode_text j.wake_mode)) nil))))))))))

unfoldable pub encode_jobs : List CronJob → Items
encode_jobs [] = empty
encode_jobs (j ∷ js) = item (encode_job j) (encode_jobs js)

-- The document, with the version of the store.
unfoldable pub encode_store : ℕ → List CronJob → Json
encode_store version jobs =
    object (field "version" (number version) (field "jobs" (array (encode_jobs jobs)) nil))
