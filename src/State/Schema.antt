-- ===== src/State/Schema.antt =====
-- The rows of internal/state/schema.sql, kept.sql and home.sql, as the structs of internal/state
-- hold them, and the database of one fleet. A time is its nanoseconds since 1970 and a text column
-- that holds '' before it holds a time is an option; NULL and 0 task ids are 0, as COALESCE reads
-- them. A table is the list of its rows in the order of its integer key.
use hand.Base.{Bool, List, Option, Text, [], none, ℕ}

pub data TaskStatus : Type 0 where
  inbox active done abandoned : TaskStatus

pub data AttemptStatus : Type 0 where
  launching running exited stopped interrupted failed : AttemptStatus

pub data DecisionStatus : Type 0 where
  opened answered withdrawn : DecisionStatus

pub data ReportStatus : Type 0 where
  progress done stuck : ReportStatus

pub data TimerStatus : Type 0 where
  armed fired cancelled : TimerStatus

pub data Approve : Type 0 where
  never ask : Approve

pub data Access : Type 0 where
  open_access readonly : Access

pub record Project : Type 0 where
  pub name : Text
  pub repo : Text
  pub settings : Text
  pub created_at : ℕ

pub record Task : Type 0 where
  pub id : ℕ
  pub project : Text
  pub title : Text
  pub goal : Text
  pub status : TaskStatus
  pub created_at : ℕ
  pub updated_at : ℕ

pub record Plan : Type 0 where
  pub task_id : ℕ
  pub revision : ℕ
  pub body : Text
  pub created_at : ℕ

pub record Decision : Type 0 where
  pub id : ℕ
  pub task_id : ℕ
  pub question : Text
  pub status : DecisionStatus
  pub answer : Text
  pub answered_by : Text
  pub created_at : ℕ
  pub closed_at : Option ℕ

pub record Event : Type 0 where
  pub seq : ℕ
  pub at : ℕ
  pub kind : Text
  pub task_id : ℕ
  pub detail : Text

pub record Terminal : Type 0 where
  pub server_generation : Text
  pub terminal_id : Text
  pub pane_id : Text
  pub pid : ℕ
  pub start_marker : Text

pub record Attempt : Type 0 where
  pub id : ℕ
  pub task_id : ℕ
  pub harness : Text
  pub model : Text
  pub effort : Text
  pub argv : List Text
  pub worktree : Text
  pub branch : Text
  pub status : AttemptStatus
  pub terminal : Terminal
  pub reason : Text
  pub continues : ℕ
  pub created_at : ℕ
  pub ended_at : Option ℕ
  pub cleaned_at : Option ℕ
  pub approve : Approve
  pub access : Access
  pub kept : Text
  pub screen : Option Text

pub record Report : Type 0 where
  pub id : ℕ
  pub attempt_id : ℕ
  pub task_id : ℕ
  pub status : ReportStatus
  pub body : Text
  pub created_at : ℕ
  pub acked_at : Option ℕ
  pub acked_by : Text

pub record Fleet : Type 0 where
  pub id : Text
  pub name : Text
  pub home : Text

pub record Supervisor : Type 0 where
  pub id : ℕ
  pub harness : Text
  pub model : Text
  pub effort : Text
  pub argv : List Text
  pub session : Text
  pub status : AttemptStatus
  pub terminal : Terminal
  pub wake_cursor : ℕ
  pub reason : Text
  pub created_at : ℕ
  pub ended_at : Option ℕ
  pub switch_model : Text
  pub switch_effort : Text

pub record SupervisorInput : Type 0 where
  pub id : ℕ
  pub body : Text
  pub created_at : ℕ
  pub delivered_at : Option ℕ

-- `every` is in seconds, as the column is.
pub record Timer : Type 0 where
  pub id : ℕ
  pub due : ℕ
  pub every : ℕ
  pub task_id : ℕ
  pub note : Text
  pub status : TimerStatus
  pub created_at : ℕ
  pub ended_at : Option ℕ
  pub waits : Bool

pub record Device : Type 0 where
  pub id : ℕ
  pub name : Text
  pub login : Text
  pub secret_hash : Text
  pub paired_at : ℕ
  pub phone : Text

pub record Grant : Type 0 where
  pub id : ℕ
  pub project : Text
  pub harness : Text
  pub pattern : Text
  pub created_at : ℕ

-- The tables that tasks tie together, then the others. `event_seq` and `device_seq` are the
-- counters of the two AUTOINCREMENT keys.
pub record Db : Type 0 where
  pub tasks : List Task
  pub attempts : List Attempt
  pub decisions : List Decision
  pub reports : List Report
  pub timers : List Timer
  pub plans : List Plan
  pub events : List Event
  pub event_seq : ℕ
  pub projects : List Project
  pub grants : List Grant
  pub fleet : Option Fleet
  pub supervisors : List Supervisor
  pub inputs : List SupervisorInput
  pub devices : List Device
  pub device_seq : ℕ

abbrev pub no_terminal : Terminal
no_terminal = record {
  server_generation = [];
  terminal_id = [];
  pane_id = [];
  pid = 0;
  start_marker = [];
}

abbrev pub empty_db : Db
empty_db = record {
  tasks = [];
  attempts = [];
  decisions = [];
  reports = [];
  timers = [];
  plans = [];
  events = [];
  event_seq = 0;
  projects = [];
  grants = [];
  fleet = none;
  supervisors = [];
  inputs = [];
  devices = [];
  device_seq = 0;
}
