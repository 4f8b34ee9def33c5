-- ===== src/State/Tasks.antt =====
-- internal/state/task.go: adding, listing, finishing and delivering a task.
use hand.Base.{
  Bool, List, Option, Result, Text, [], codes, conflict, count_where, err, exists_where, find,
  has_line_break, if◌then◌else◌, invalid, is_empty, length, ltb, map, max_of, none, not, not_found,
  ok, select, some, take, text_eq, trim_space, true, update_where, ℕ, ◌&&◌, ◌++◌, ◌+◌, ◌==◌, ◌||◌,
  ◌∷◌,
}
use hand.State.Schema.{
  Attempt, Db, Decision, DecisionStatus, Event, Project, Report, Task, TaskStatus, Timer,
  TimerStatus,
}
use hand.State.Transactions.{M, exec, pure, query, query_row, refuse, require, ◌>>=◌, ◌>>◌}
use hand.State.Statuses.{
  contains_status, is_armed, is_finished, is_live, is_none, is_opened, read_task_status,
  task_status_eq, task_status_text, transitions,
}
use hand.State.Events.{append_closed, append_event, emit}
use hand.State.Refs.{decision_ref, timer_ref}

abbrev pub task_of : ℕ → Db → Option Task
task_of id db = find (λ (t : Task). t.id == id) db.tasks

-- `SELECT status FROM task WHERE id = ?` on the table.
abbrev pub status_of : ℕ → List Task → Option TaskStatus
status_of id [] = none
status_of id (t ∷ ts) = if t.id == id then some t.status else status_of id ts

abbrev pub project_of : Text → Db → Option Project
project_of name db = find (λ (p : Project). text_eq p.name name) db.projects

abbrev pub max_title : ℕ
max_title = 200

unfoldable pub insert_task : Task → Db → Db
insert_task t db = record db { tasks = db.tasks ++ t ∷ [] }

-- The key that the next row of the table gets, one past the largest.
abbrev pub next_task_id : Db → ℕ
next_task_id db = max_of (λ (t : Task). t.id) db.tasks + 1

unfoldable pub new_task : Text → Text → Text → ℕ → ℕ → Task
new_task project title goal now id = record {
  id = id;
  project = project;
  title = title;
  goal = goal;
  status = TaskStatus.inbox;
  created_at = now;
  updated_at = now;
}

unfoldable pub add_task_tx : Text → Text → Text → ℕ → M Task
unfolding new_task insert_task append_event
add_task_tx project title goal now = do
  _ ← query_row (project_of project) not_found
  id ← query next_task_id
  exec (insert_task (new_task project title goal now id))
  emit now (codes "task.added") id []
  pure (new_task project title goal now id)

-- Store.AddTask.
unfoldable pub add_task : Text → Text → Text → ℕ → M Task
unfolding trim_space has_line_break add_task_tx
add_task project title goal now = do
  let title' = trim_space title
  refuse (is_empty title' || ltb max_title (length title') || has_line_break title') invalid
  add_task_tx project title' goal now

-- `liveAttempt`: the id of the task's live attempt, 0 if it has none.
abbrev pub is_live_of : ℕ → Attempt → Bool
is_live_of task_id a = a.task_id == task_id && is_live a.status

abbrev pub live_attempt : ℕ → Db → ℕ
live_attempt task_id db = elim (find (is_live_of task_id) db.attempts) [ none ↦ 0 | some a ↦ a.id ]

abbrev pub is_unread_of : ℕ → Report → Bool
is_unread_of task_id r = r.task_id == task_id && is_none r.acked_at

abbrev pub has_unread_report : ℕ → Db → Bool
has_unread_report task_id db = exists_where (is_unread_of task_id) db.reports

abbrev pub set_task_status : ℕ → TaskStatus → TaskStatus → ℕ → Db → Db
set_task_status id from to now db = record db {
  tasks =
      update_where (λ (t : Task). t.id == id && task_status_eq t.status from)
        (λ (t : Task). record t { status = to; updated_at = now }) db.tasks;
}

-- RowsAffected of that update.
abbrev pub count_moved : ℕ → TaskStatus → Db → ℕ
count_moved id from db =
    count_where (λ (t : Task). t.id == id && task_status_eq t.status from) db.tasks

-- `withdrawOpen`: an open decision of the task is withdrawn.
abbrev pub is_open_of : ℕ → Decision → Bool
is_open_of task_id d = d.task_id == task_id && is_opened d.status

unfoldable pub withdraw_open : ℕ → ℕ → Db → Db
unfolding append_closed decision_ref
withdraw_open task_id now db =
    append_closed task_id now (codes "decision.withdrawn") decision_ref
      (map (λ (d : Decision). d.id) (select (is_open_of task_id) db.decisions))
      (record db {
        decisions =
            update_where (is_open_of task_id)
              (λ (d : Decision). record d {
                status = DecisionStatus.withdrawn;
                closed_at = some now;
              })
              db.decisions;
      })

-- `cancelTimers` and `cancelWaits`: the armed timers of the task, or its waits, are cancelled.
abbrev pub is_armed_of : ℕ → Timer → Bool
is_armed_of task_id t = t.task_id == task_id && is_armed t.status

abbrev pub is_wait_of : ℕ → Timer → Bool
is_wait_of task_id t = is_armed_of task_id t && t.waits

unfoldable pub cancel_where : (Timer → Bool) → ℕ → ℕ → Db → Db
unfolding append_closed timer_ref
cancel_where p task_id now db =
    append_closed task_id now (codes "timer.cancelled") timer_ref
      (map (λ (t : Timer). t.id) (select p db.timers))
      (record db {
        timers =
            update_where p
              (λ (t : Timer). record t { status = TimerStatus.cancelled; ended_at = some now })
              db.timers;
      })

unfoldable pub cancel_timers : ℕ → ℕ → Db → Db
unfolding cancel_where
cancel_timers task_id = cancel_where (is_armed_of task_id) task_id

unfoldable pub cancel_waits : ℕ → ℕ → Db → Db
unfolding cancel_where
cancel_waits task_id = cancel_where (is_wait_of task_id) task_id

-- One `task.delivered` event for each reference.
unfoldable pub append_delivered : ℕ → ℕ → List Text → Db → Db
unfolding append_event
append_delivered id now [] db = db
append_delivered id now (ref ∷ refs) db =
    append_delivered id now refs (append_event now (codes "task.delivered") id ref db)

-- The checks of Transition inside its transaction.
unfoldable pub check_transition : ℕ → TaskStatus → TaskStatus → M (Unit {0})
check_transition id from to = do
  refuse (not (contains_status (transitions from) to)) conflict
  live ← query (live_attempt id)
  refuse (is_finished to && not (live == 0)) conflict
  unread ← query (has_unread_report id)
  refuse (task_status_eq to TaskStatus.done && unread) conflict

-- What Transition writes once its checks have passed.
unfoldable pub apply_transition : ℕ → TaskStatus → TaskStatus → List Text → ℕ → Db → Db
unfolding append_event append_delivered withdraw_open cancel_timers
apply_transition id from to delivered now db =
    let moved = append_delivered id now delivered (
      append_event now (codes "task." ++ task_status_text to) id
        (task_status_text from ++ codes "->" ++ task_status_text to)
        (set_task_status id from to now db)) in
    if is_finished to then cancel_timers id now (withdraw_open id now moved) else moved

unfoldable pub transition_tx : ℕ → TaskStatus → List Text → ℕ → M Task
unfolding check_transition apply_transition
transition_tx id to delivered now = do
  t ← query_row (task_of id) not_found
  check_transition id t.status to
  affected ← query (count_moved id t.status)
  refuse (not (affected == 1)) conflict
  exec (apply_transition id t.status to delivered now)
  pure (record t { status = to; updated_at = now })

-- Store.Transition. `to` is the word that the caller gave.
unfoldable pub transition : ℕ → Text → List Text → ℕ → M Task
unfolding read_task_status transition_tx
transition id to delivered now = do
  s ← require (read_task_status to) invalid
  refuse (not (length delivered == 0) && not (task_status_eq s TaskStatus.done)) invalid
  transition_tx id s delivered now

-- The references that Deliver adds: one that the task has already is skipped, and so is a repeat.
unfoldable pub is_delivery : ℕ → Text → Event → Bool
is_delivery id ref e =
    text_eq e.kind (codes "task.delivered") && e.task_id == id && text_eq e.detail ref

unfoldable pub deliver_refs : ℕ → ℕ → List Text → M (List Text)
unfolding is_delivery append_event
deliver_refs id now [] = pure []
deliver_refs id now (ref ∷ refs) =
    let rest = deliver_refs id now refs in
    do
      have ← query (λ db. exists_where (is_delivery id ref) db.events)
      if have
          then rest
          else do emit now (codes "task.delivered") id ref; added ← rest; pure (ref ∷ added)

-- Store.Deliver.
unfoldable pub deliver : ℕ → List Text → ℕ → M (Task × List Text)
unfolding deliver_refs
deliver id refs now = do
  t ← query_row (task_of id) not_found
  refuse
      (not (task_status_eq t.status TaskStatus.active)
        && not (task_status_eq t.status TaskStatus.done))
      conflict
  added ← deliver_refs id now refs
  pure (t, added)

-- Store.Tasks: the first `limit` tasks with one of the wanted statuses.
read_statuses : List Text → Option (List TaskStatus)
unfolding read_task_status
read_statuses [] = some []
read_statuses (w ∷ ws) = elim (read_task_status w) [
  | none ↦ none
  | some s ↦ elim (read_statuses ws) [ none ↦ none | some ss ↦ some (s ∷ ss) ]
]

abbrev has_status : List TaskStatus → Task → Bool
has_status [] t = true
has_status (s ∷ ss) t = contains_status (s ∷ ss) t.status

unfoldable pub list_tasks : List Text → ℕ → Db → Result (List Task)
unfolding read_statuses
list_tasks want limit db = if ltb limit 1 then err invalid else (elim (read_statuses want) [
  | none ↦ err invalid
  | some ss ↦ ok (take limit (select (has_status ss) db.tasks))
])

-- Store.CountTasks.
unfoldable pub count_tasks : TaskStatus → Db → ℕ
count_tasks s db = count_where (λ (t : Task). task_status_eq t.status s) db.tasks
