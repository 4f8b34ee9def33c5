-- ===== src/State/Moving.antt =====
-- internal/state/task.go, Transition: what the move of a task leaves.
use hand.Base.{Bool-cases, List, Text, if◌then◌else◌, inl, inr, refl, some, sym, ℕ, ◌∙◌, ◌≡◌, ◌≢◌}
use hand.State.Schema.{Db, TaskStatus}
use hand.State.Transactions.{
  Holds, bind-Holds, exec-Holds, pure-Holds, query-Holds, refuse-Holds, require-Holds, row-Holds,
}
use hand.State.Statuses.{is_finished, task_status_text}
use hand.State.Tasks.{apply_transition, is_armed_of, status_of, transition}
use hand.State.Consistency.Statuses.{find-status, status_of-moved_ne, status_of-moved_self}
use hand.State.Consistency.Events.{cancelled_rows, withdrawn_rows}
use hand.State.Consistency.Tasks.{finished-SameCore, moved, moved-SameCore}
use hand.State.Transition.{check_guards, read-text, some_status_inj}

-- The tables before and after the task `id` became `to`.
pub record Moved (db : Db) (id : ℕ) (to : TaskStatus) (now : ℕ) (db' : Db) : Type 0 where
  pub moved_to : status_of id db'.tasks ≡ some to
  pub others : (k : ℕ) → k ≢ id → status_of k db'.tasks ≡ status_of k db.tasks
  pub same_attempts : db'.attempts ≡ db.attempts
  pub same_reports : db'.reports ≡ db.reports
  pub closed_decisions :
      db'.decisions ≡ (if is_finished to then withdrawn_rows id now db.decisions else db.decisions)
  pub closed_timers :
      db'.timers
      ≡ (if is_finished to then cancelled_rows (is_armed_of id) now db.timers else db.timers)

apply_transition-Moved :
    (id : ℕ) (from to : TaskStatus) (delivered : List Text) (now : ℕ) (db : Db)
    → status_of id db.tasks ≡ some from
    → Moved db id to now (apply_transition id from to delivered now db)
unfolding apply_transition moved
apply_transition-Moved id from to delivered now db at_from = elim (Bool-cases (is_finished to)) [
  | inl fin ↦ rw fin (
      let same = finished-SameCore id from to delivered now db in
      record {
        moved_to = rw same.tasks (status_of-moved_self id from to now db.tasks at_from);
        others = λ k n. rw same.tasks (status_of-moved_ne id from to now k db.tasks n);
        same_attempts = same.attempts;
        same_reports = same.reports;
        closed_decisions = rw fin same.decisions;
        closed_timers = rw fin same.timers;
      })
  | inr unfinished ↦ rw unfinished (
      let same = moved-SameCore id from to delivered now db in
      record {
        moved_to = rw same.tasks (status_of-moved_self id from to now db.tasks at_from);
        others = λ k n. rw same.tasks (status_of-moved_ne id from to now k db.tasks n);
        same_attempts = same.attempts;
        same_reports = same.reports;
        closed_decisions = rw unfinished same.decisions;
        closed_timers = rw unfinished same.timers;
      })
]

-- Where Transition succeeds, the task has the new status and no other task has another; the attempts
-- and the reports are what they were; and if the task is finished by it, its open decisions are
-- withdrawn and its armed timers cancelled, while otherwise these tables are what they were.
pub transition-Moved :
    (id : ℕ) (s : TaskStatus) (delivered : List Text) (now : ℕ) (db : Db)
    → Holds
        (λ t db'. (t.status ≡ s) × Moved db id s now db')
        (transition id (task_status_text s) delivered now db)
unfolding transition
transition-Moved id s delivered now db = require-Holds _ _ _ _ λ s' read. refuse-Holds _ _ _ _ λ _.
    row-Holds _ _ _ _ λ t found. bind-Holds _ _ _ _ (check_guards id t.status s' db) λ _ db' g.
      query-Holds _ _ _ (
        refuse-Holds _ _ _ _ λ _. exec-Holds _ _ _ (
          pure-Holds _ _ (
            let same : s ≡ s' = some_status_inj s s' (sym (read-text s) ∙ read) in
            rw (g.0, same)
              (
                refl,
                apply_transition-Moved id t.status s' delivered now db
                    (find-status id db.tasks found),
              ))))
