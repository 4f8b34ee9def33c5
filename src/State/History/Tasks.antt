-- ===== src/State/History/Tasks.antt =====
-- AddTask, Transition and AddAttempt keep what is finished, closed, read or ended as it is.
use hand.Base.{
  Bool, Bool-cases, List, Text, [], arith, false, if◌then◌else◌, inl, inr, refl, true, ℕ, ◌∷◌, ◌≡◌,
}
use hand.State.Schema.{Access, Approve, Attempt, Db, Task, TaskStatus}
use hand.State.Transactions.{
  Holds, bind-Holds, exec-Holds, pure-Holds, query-Holds, refuse-Holds, refuse_last-Holds,
  require-Holds, row-Holds,
}
use hand.State.Statuses.{contains_status, is_finished, transitions}
use hand.State.Events.{append_event}
use hand.State.Tasks.{
  add_task, apply_transition, cancel_waits, check_transition, insert_task, is_armed_of, is_wait_of,
  transition,
}
use hand.State.Launches.{
  AttemptSpec, add_attempt, announce_attempt, insert_attempt, new_attempt, next_attempt_id,
}
use hand.State.Consistency.{SameCore-refl, task_id_of}
use hand.State.Consistency.Events.{
  append_event-SameCore, cancel_where-SameCore, cancelled_rows, withdrawn_rows,
}
use hand.State.Consistency.Tasks.{closed, finished-SameCore, moved, moved-SameCore}
use hand.State.Consistency.Launches.{continued_branch-Holds, launch_argv-Holds}
use hand.State.History.{KeptEnds-refl, SameCore-Since, Since, Since-trans, is_finished_task}
use hand.State.History.Writes.{
  KeptEnds-append, KeptRows-append, set_task_status-Since, timers-Since, withdrawn-Since,
}

-- An event after it.
pub announced :
    {before db : Db} (s : Since before db) (at : ℕ) (kind : Text) (task_id : ℕ) (detail : Text)
    → Since before (append_event at kind task_id detail db)
announced {db = db} s at kind task_id detail =
    Since-trans s (SameCore-Since _ _ (append_event-SameCore at kind task_id detail db))

pub optional :
    {before : Db} (test : Bool) (now : ℕ) (kind : Text) (task_id : ℕ) (detail : Text) (db : Db)
    → Since before db
    → Since before (if test then append_event now kind task_id detail db else db)
optional true now kind task_id detail db s = announced s now kind task_id detail
optional false now kind task_id detail db s = s

pub itself : (db : Db) → Since db db
itself db = SameCore-Since db db (SameCore-refl db)

insert_task-Since : (t : Task) (db : Db) → Since db (insert_task t db)
unfolding insert_task
insert_task-Since t db = record {
  tasks = KeptRows-append task_id_of is_finished_task db.tasks (t ∷ []);
  decisions = λ id d there fin. there;
  reports = λ id r there fin. there;
  attempts = KeptEnds-refl db.attempts;
}

pub add_task-Since :
    (project title goal : Text) (now : ℕ) (db : Db)
    → Holds (λ _ db'. Since db db') (add_task project title goal now db)
unfolding add_task
add_task-Since project title goal now db = refuse-Holds _ _ _ _ λ _. row-Holds _ _ _ _ λ _ _.
    query-Holds _ _ _ (
      exec-Holds _ _ _
        (exec-Holds _ _ _ (pure-Holds _ _ (announced (insert_task-Since _ db) _ _ _ _))))

apply_transition-Since :
    (id : ℕ) (from to : TaskStatus) (delivered : List Text) (now : ℕ) (db : Db)
    → contains_status (transitions from) to ≡ true
    → Since db (apply_transition id from to delivered now db)
unfolding apply_transition moved
apply_transition-Since id from to delivered now db allowed = elim (Bool-cases (is_finished to)) [
  | inl fin ↦ rw fin (
      Since-trans (withdrawn-Since id now db) (
        Since-trans
          (timers-Since (cancelled_rows (is_armed_of id) now db.timers)
            (record db { decisions = withdrawn_rows id now db.decisions }))
          (Since-trans (set_task_status-Since id from to now (closed id now db) allowed)
            (SameCore-Since _ _ (finished-SameCore id from to delivered now db)))))
  | inr unfinished ↦ rw unfinished (
      Since-trans (set_task_status-Since id from to now db allowed)
        (SameCore-Since _ _ (moved-SameCore id from to delivered now db)))
]

check_follows :
    (id : ℕ) (from to : TaskStatus) (db : Db)
    → Holds
        (λ _ db'. (db' ≡ db) × (contains_status (transitions from) to ≡ true))
        (check_transition id from to db)
unfolding check_transition
check_follows id from to db = refuse-Holds _ _ _ _ λ follows. query-Holds _ _ _ (
    refuse-Holds _ _ _ _ λ _. query-Holds _ _ _ (refuse_last-Holds _ _ _ λ _. (refl, ground arith)))

pub transition-Since :
    (id : ℕ) (to : Text) (delivered : List Text) (now : ℕ) (db : Db)
    → Holds (λ _ db'. Since db db') (transition id to delivered now db)
unfolding transition
transition-Since id to delivered now db = require-Holds _ _ _ _ λ s _. refuse-Holds _ _ _ _ λ _.
    row-Holds _ _ _ _ λ t _. bind-Holds _ _ _ _ (check_follows id t.status s db) λ _ db' h.
      query-Holds _ _ _ (
        refuse-Holds _ _ _ _ λ _.
          exec-Holds _ _ _
            (pure-Holds _ _ (rw h.0 (apply_transition-Since id t.status s delivered now db h.1))))

announce_attempt-Since :
    {before : Db} (a : Attempt) (now : ℕ) (db : Db)
    → Since before db
    → Since before (announce_attempt a now db)
unfolding announce_attempt cancel_waits
announce_attempt-Since a now db s = optional _ now _ _ _ _ (
    announced
      (Since-trans s (
        Since-trans (timers-Since (cancelled_rows (is_wait_of a.task_id) now db.timers) db)
          (SameCore-Since _ _ (cancel_where-SameCore (is_wait_of a.task_id) a.task_id now db))))
      _ _ _ _)

launched-Since :
    (spec : AttemptSpec) (approve : Approve) (access : Access) (now : ℕ) (argv : List Text)
    (worktree branch : Text) (db : Db)
    → (let a = new_attempt spec approve access now (next_attempt_id db) argv worktree branch in
        Since db (announce_attempt a now (insert_attempt a db)))
unfolding insert_attempt
launched-Since spec approve access now argv worktree branch db =
    announce_attempt-Since _ now _ (record {
      tasks = λ id t there fin. there;
      decisions = λ id d there fin. there;
      reports = λ id r there fin. there;
      attempts = KeptEnds-append db.attempts _;
    })

pub add_attempt-Since :
    (spec : AttemptSpec) (root : Text) (now : ℕ) (db : Db)
    → Holds (λ _ db'. Since db db') (add_attempt spec root now db)
unfolding add_attempt
add_attempt-Since spec root now db = refuse-Holds _ _ _ _ λ _. require-Holds _ _ _ _ λ approve _.
    require-Holds _ _ _ _ λ access _. row-Holds _ _ _ _ λ t _. refuse-Holds _ _ _ _ λ _.
      bind-Holds _ _ _ _ (continued_branch-Holds spec.task_id spec.continues db) λ branch db₁ e₁.
        rw e₁ (
          query-Holds _ _ _ (
            refuse-Holds _ _ _ _ λ _. row-Holds _ _ _ _ λ fleet _. query-Holds _ _ _ (
              bind-Holds _ _ _ _ (launch_argv-Holds _ _ _ db) λ argv db₂ e₂. rw e₂ (
                refuse-Holds _ _ _ _ λ _. exec-Holds _ _ _ (
                  exec-Holds _ _ _
                    (pure-Holds _ _ (launched-Since spec approve access now _ _ _ db)))))))
