-- ===== src/State/Scenarios.antt =====
-- One fleet with one task, on which the theorems of internal/state are tried, and small runs.
pub mod Runs
pub mod Endings
pub mod Rows
use hand.Base.{Text, [], arith, codes, false, none, refl, some, ◌*◌, ◌++◌, ◌∷◌, ◌≡◌}
use hand.State.Schema.{
  Access, Approve, Attempt, AttemptStatus, Db, Decision, DecisionStatus, Device, Event, Project,
  Report, ReportStatus, Supervisor, Task, TaskStatus, Timer, TimerStatus, no_terminal,
}
use hand.State.Clock.{rfc3339, second, span}
use hand.State.Screens.{screen_tail}
use hand.State.Launches.{AttemptSpec}
use hand.State.Decisions.{answer, body}
use hand.State.Supervisors.{SupervisorSpec}
use hand.State.Consistency.{Consistent}

rfc3339_sample : rfc3339 (951782400 * second) ≡ codes "2000-02-29T00:00:00Z"
unfolding rfc3339
rfc3339_sample = refl

span_samples :
    (span 7200 ≡ codes "2h")
    × (span 5400 ≡ codes "1h30m")
    × (span 60 ≡ codes "1m")
    × (span 3605 ≡ codes "1h0m5s")
    × (span 36000 ≡ codes "10h")
    × (span 0 ≡ codes "0s")
unfolding span
span_samples = (refl, refl, refl, refl, refl, refl)

-- A colour is stripped, and a tab is a space.
screen_sample : screen_tail (27 ∷ codes "[31mred" ++ 9 ∷ 27 ∷ codes "[0m done ") ≡ codes "red  done"
unfolding screen_tail
screen_sample = refl

abbrev pub clean_path : Text → Text
clean_path p = p

-- A fleet in the middle of its work.
abbrev pub web : Project
web = record { name = codes "web"; repo = codes "/srv/web"; settings = codes "{}"; created_at = 1 }

abbrev pub task : Task
task = record {
  id = 1;
  project = codes "web";
  title = codes "Fix it";
  goal = [];
  status = TaskStatus.active;
  created_at = 2;
  updated_at = 3;
}

abbrev pub worker : Attempt
worker = record {
  id = 1;
  task_id = 1;
  harness = codes "claude";
  model = [];
  effort = [];
  argv = codes "claude" ∷ [];
  worktree = codes "/w/t1-a1";
  branch = codes "hand/f/t1-a1";
  status = AttemptStatus.running;
  terminal = no_terminal;
  reason = [];
  continues = 0;
  created_at = 4;
  ended_at = none;
  cleaned_at = none;
  approve = Approve.never;
  access = Access.open_access;
  kept = [];
  screen = none;
}

abbrev pub question : Decision
question = record {
  id = 1;
  task_id = 1;
  question = codes "Now?";
  status = DecisionStatus.opened;
  answer = [];
  answered_by = [];
  created_at = 5;
  closed_at = none;
}

abbrev pub news : Report
news = record {
  id = 1;
  attempt_id = 1;
  task_id = 1;
  status = ReportStatus.done;
  body = codes "Done.";
  created_at = 6;
  acked_at = none;
  acked_by = [];
}

abbrev pub alarm : Timer
alarm = record {
  id = 1;
  due = 100;
  every = 60;
  task_id = 0;
  note = [];
  status = TimerStatus.armed;
  created_at = 7;
  ended_at = none;
  waits = false;
}

abbrev pub boss : Supervisor
boss = record {
  id = 1;
  harness = codes "claude";
  model = [];
  effort = [];
  argv = codes "claude" ∷ [];
  session = [];
  status = AttemptStatus.running;
  terminal = no_terminal;
  wake_cursor = 3;
  reason = [];
  created_at = 8;
  ended_at = none;
  switch_model = [];
  switch_effort = [];
}

abbrev pub label : Text
label = codes "0123456789abcdef"

abbrev pub secret : Text
secret = codes "0123456789abcdef0123456789abcdef0123456789abcdef0123456789abcdef"

abbrev pub phone : Device
phone = record {
  id = 1;
  name = codes "Phone";
  login = [];
  secret_hash = [];
  paired_at = 9;
  phone = label;
}

abbrev pub busy : Db
busy = record {
  tasks = task ∷ [];
  attempts = worker ∷ [];
  decisions = question ∷ [];
  reports = news ∷ [];
  timers = alarm ∷ [];
  plans = [];
  events = [];
  event_seq = 0;
  projects = web ∷ [];
  grants = [];
  fleet = some (record { id = codes "f"; name = codes "F"; home = codes "/h" });
  supervisors = boss ∷ [];
  inputs = record { id = 1; body = codes "Hi"; created_at = 9; delivered_at = none } ∷ [];
  devices = phone ∷ [];
  device_seq = 1;
}

-- The same once the worker has ended and its report was read.
abbrev pub calm : Db
calm = record busy {
  attempts = record worker { status = AttemptStatus.exited } ∷ [];
  reports = record news { acked_at = some 10 } ∷ [];
}

pub calm-Consistent : Consistent calm
calm-Consistent = record {
  task_ids = (omega arith, tt);
  tasks_unique = (tt, tt);
  attempt_ids = (omega arith, tt);
  attempts_unique = (tt, tt);
  live_active = ((λ _. refl), tt);
  one_live = λ task_id. ground arith;
  open_unfinished = ((λ _. refl), tt);
  armed_unfinished = ((λ _. refl), tt);
  armed_capped = omega arith;
  unread_not_done = ((λ _. refl), tt);
}

abbrev pub wanted : AttemptSpec
wanted = record {
  task_id = 1;
  harness = codes "claude";
  model = [];
  effort = [];
  argv = codes "claude" ∷ [];
  argv_for = none;
  continues = 0;
  approve = [];
  access = [];
}

abbrev pub next_boss : SupervisorSpec
next_boss = record {
  harness = codes "claude";
  model = [];
  effort = [];
  argv = codes "claude" ∷ [];
  session = [];
  wake_cursor = 0;
}

abbrev pub logged : Event
logged = record {
  seq = 1;
  at = 4;
  kind = codes "attempt.running";
  task_id = 1;
  detail = codes "a12: pane 3";
}
