-- ===== src/Cron.antt =====
-- types.py of exoclaw_tools_cron: the records of a job. Times are milliseconds since the epoch; a
-- negative one would count as 0 does, since the code takes 0 for "not set".
pub mod Schedule
pub mod Service
pub mod Run
pub mod Api
pub mod Codec
use exoclaw_plugins.Prelude.{ℕ, String, Bool, Option, none, List, true, false, []}

pub data ScheduleKind : Type 0 where
  at every cron : ScheduleKind

pub record CronSchedule : Type 0 where
  pub kind : ScheduleKind
  pub at_ms : Option ℕ
  pub every_ms : Option ℕ
  pub expr : Option String
  pub tz : Option String

pub data PayloadKind : Type 0 where
  system_event agent_turn : PayloadKind

pub record CronPayload : Type 0 where
  pub kind : PayloadKind
  pub message : String
  pub deliver : Bool
  pub channel : Option String
  pub to : Option String
  pub skills : List String
  pub stateless : Bool
  pub model : Option String

pub data Status : Type 0 where
  ok error skipped : Status

pub record CronJobState : Type 0 where
  pub next_run_at_ms : Option ℕ
  pub last_run_at_ms : Option ℕ
  pub last_status : Option Status
  pub last_error : Option String

pub data WakeMode : Type 0 where
  now next_heartbeat : WakeMode

pub record CronJob : Type 0 where
  pub id : String
  pub name : String
  pub enabled : Bool
  pub schedule : CronSchedule
  pub payload : CronPayload
  pub state : CronJobState
  pub created_at_ms : ℕ
  pub updated_at_ms : ℕ
  pub delete_after_run : Bool
  pub wake_mode : WakeMode
