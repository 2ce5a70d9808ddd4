-- ===== src/Tests/Documents.antt =====
-- The saved document of the cron service, at a job of each kind and at one that an older version wrote.
use exoclaw_plugins.Prelude.{◌≡◌, refl, true, false, none, some, [], ◌∷◌}
use exoclaw_plugins.Cron.{CronJob, at, cron, agent_turn, system_event, error, now, next_heartbeat}
use exoclaw_plugins.Cron.Codec.{
  Json, text, number, object, array, empty, item, nil, field, get, encode_store,
}
use exoclaw_plugins.Cron.Codec.Load.{
  read_texts, decode_schedule, decode_payload, decode_state, decode_job, decode_jobs, decode_store,
}
use exoclaw_plugins.Cron.Codec.Trip.{decode_store-encode_store}

abbrev job : CronJob
job = record {
  id = "a";
  name = "daily";
  enabled = true;
  schedule = record {
    kind = cron;
    at_ms = none;
    every_ms = none;
    expr = some "0 9 * * *";
    tz = some "UTC";
  };
  payload = record {
    kind = system_event;
    message = "hello";
    deliver = true;
    channel = some "cli";
    to = none;
    skills = "email" ∷ "news" ∷ [];
    stateless = false;
    model = none;
  };
  state = record {
    next_run_at_ms = some 900;
    last_run_at_ms = none;
    last_status = some error;
    last_error = some "no network";
  };
  created_at_ms = 5;
  updated_at_ms = 6;
  delete_after_run = false;
  wake_mode = next_heartbeat;
}

decode_store-encode_store_example :
    decode_store (encode_store 1 (job ∷ job ∷ [])) ≡ some (job ∷ job ∷ [])
decode_store-encode_store_example = decode_store-encode_store 1 (job ∷ job ∷ [])

-- Only the keys that the code requires, and a wake mode that it does not know.
abbrev old_job : Json
old_job = object (
    field "id" (text "b") (
      field "name" (text "once") (
        field "schedule" (object (field "kind" (text "at") (field "atMs" (number 950) nil)))
          (field "payload" (object nil) (field "wakeMode" (text "later") nil)))))

old_job_read :
    decode_store (object (field "jobs" (array (item old_job empty)) nil))
    ≡ some (
        record {
          id = "b";
          name = "once";
          enabled = true;
          schedule = record {
            kind = at;
            at_ms = some 950;
            every_ms = none;
            expr = none;
            tz = none;
          };
          payload = record {
            kind = agent_turn;
            message = "";
            deliver = false;
            channel = none;
            to = none;
            skills = [];
            stateless = false;
            model = none;
          };
          state = record {
            next_run_at_ms = none;
            last_run_at_ms = none;
            last_status = none;
            last_error = none;
          };
          created_at_ms = 0;
          updated_at_ms = 0;
          delete_after_run = false;
          wake_mode = now;
        }
        ∷ [])
unfolding get read_texts decode_schedule decode_payload decode_state decode_job decode_jobs
    decode_store
old_job_read = refl
