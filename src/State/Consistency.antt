-- ===== src/State/Consistency.antt =====
-- What ties the tables of internal/state together: what may hang on a task, by the task's status.
pub mod Statuses
pub mod Events
pub mod Moves
pub mod Tasks
pub mod Attempts
pub mod Launches
pub mod Decisions
pub mod Timers
pub mod Rest
pub mod Settings
pub mod Supervisors
pub mod Calls
use hand.Base.{
  All, Bool, List, Option, UniqueKeys, arith, count_where, false, none, not, refl, some, true, ℕ,
  ◌<◌, ◌==◌, ◌||◌, ◌∙◌, ◌≡◌, ◌≤◌,
}
use hand.State.Schema.{Attempt, Db, Decision, Report, Task, TaskStatus, Timer, empty_db}
use hand.State.Statuses.{is_armed, is_finished, is_live, is_none, is_opened, task_status_eq}
use hand.State.Tasks.{is_live_of, status_of}
use hand.State.Timers.{max_timers}

-- A task that a decision, a timer or a plan may hang on.
abbrev pub is_unfinished : Option TaskStatus → Bool
is_unfinished none = false
is_unfinished (some s) = not (is_finished s)

abbrev pub is_not_done : Option TaskStatus → Bool
is_not_done none = false
is_not_done (some s) = not (task_status_eq s TaskStatus.done)

abbrev pub LiveActive : List Task → Attempt → Type 0
LiveActive ts a = is_live a.status ≡ true → status_of a.task_id ts ≡ some TaskStatus.active

abbrev pub OpenUnfinished : List Task → Decision → Type 0
OpenUnfinished ts d = is_opened d.status ≡ true → is_unfinished (status_of d.task_id ts) ≡ true

abbrev pub ArmedUnfinished : List Task → Timer → Type 0
ArmedUnfinished ts t =
    is_armed t.status ≡ true → (t.task_id == 0 || is_unfinished (status_of t.task_id ts)) ≡ true

abbrev pub UnreadNotDone : List Task → Report → Type 0
UnreadNotDone ts r = is_none r.acked_at ≡ true → is_not_done (status_of r.task_id ts) ≡ true

abbrev pub AtMostOneLive : List Attempt → Type 0
AtMostOneLive attempts = (task_id : ℕ) → count_where (is_live_of task_id) attempts ≤ 1

abbrev pub task_id_of : Task → ℕ
task_id_of t = t.id

abbrev pub attempt_id_of : Attempt → ℕ
attempt_id_of a = a.id

abbrev pub is_armed_timer : Timer → Bool
is_armed_timer t = is_armed t.status

-- The invariant of the store.
pub record Consistent (db : Db) : Type 0 where
  pub task_ids : All (λ t. 0 < task_id_of t) db.tasks
  pub tasks_unique : UniqueKeys task_id_of db.tasks
  pub attempt_ids : All (λ a. 0 < attempt_id_of a) db.attempts
  pub attempts_unique : UniqueKeys attempt_id_of db.attempts
  pub live_active : All (LiveActive db.tasks) db.attempts
  pub one_live : AtMostOneLive db.attempts
  pub open_unfinished : All (OpenUnfinished db.tasks) db.decisions
  pub armed_unfinished : All (ArmedUnfinished db.tasks) db.timers
  pub armed_capped : count_where is_armed_timer db.timers ≤ max_timers
  pub unread_not_done : All (UnreadNotDone db.tasks) db.reports

pub empty-Consistent : Consistent empty_db
empty-Consistent = record {
  task_ids = tt;
  tasks_unique = tt;
  attempt_ids = tt;
  attempts_unique = tt;
  live_active = tt;
  one_live = λ _. omega arith;
  open_unfinished = tt;
  armed_unfinished = tt;
  armed_capped = omega arith;
  unread_not_done = tt;
}

-- The tables that the invariant reads.
pub record SameCore (db db' : Db) : Type 0 where
  pub tasks : db'.tasks ≡ db.tasks
  pub attempts : db'.attempts ≡ db.attempts
  pub decisions : db'.decisions ≡ db.decisions
  pub reports : db'.reports ≡ db.reports
  pub timers : db'.timers ≡ db.timers

pub SameCore-refl : (db : Db) → SameCore db db
SameCore-refl db = record {
  tasks = refl;
  attempts = refl;
  decisions = refl;
  reports = refl;
  timers = refl;
}

pub SameCore-trans : {a b c : Db} → SameCore a b → SameCore b c → SameCore a c
SameCore-trans p q = record {
  tasks = q.tasks ∙ p.tasks;
  attempts = q.attempts ∙ p.attempts;
  decisions = q.decisions ∙ p.decisions;
  reports = q.reports ∙ p.reports;
  timers = q.timers ∙ p.timers;
}

module _ (db db' : Db) (same : SameCore db db') (c : Consistent db) where
  pub SameCore-Consistent : Consistent db'
  SameCore-Consistent = record {
    task_ids = rw same.tasks c.task_ids;
    tasks_unique = rw same.tasks c.tasks_unique;
    attempt_ids = rw same.attempts c.attempt_ids;
    attempts_unique = rw same.attempts c.attempts_unique;
    live_active = rw (same.attempts, same.tasks) c.live_active;
    one_live = λ task_id. rw same.attempts (c.one_live task_id);
    open_unfinished = rw (same.decisions, same.tasks) c.open_unfinished;
    armed_unfinished = rw (same.timers, same.tasks) c.armed_unfinished;
    armed_capped = rw same.timers c.armed_capped;
    unread_not_done = rw (same.reports, same.tasks) c.unread_not_done;
  }
