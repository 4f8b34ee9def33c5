-- ===== src/State/Consistency/Decisions.antt =====
-- Ask, Answer, Withdraw, AddReport and AckReport keep the store consistent.
use hand.Base.{
  All-append, All-update, Text, [], ap, arith, false, find-All, refl, some, true, ℕ, ◌==◌, ◌∙◌, ◌≡◌,
}
use hand.State.Schema.{Attempt, Db, DecisionStatus, Report, ReportStatus, TaskStatus}
use hand.State.Transactions.{
  Holds, bind-Holds, exec-Holds, pure-Holds, query-Holds, refuse-Holds, refuse_last-Holds,
  require-Holds, row-Holds,
}
use hand.State.Statuses.{is_live, is_opened}
use hand.State.Tasks.{status_of}
use hand.State.Attempts.{attempt_of}
use hand.State.Decisions.{
  answer, ask, body, close_decision, insert_decision, is_open_with, new_decision, require_open_task,
  withdraw,
}
use hand.State.Reports.{ack_report, add_report, insert_report, new_report}
use hand.State.Consistency.{
  Consistent, LiveActive, OpenUnfinished, UnreadNotDone, is_not_done, is_unfinished,
}
use hand.State.Consistency.Statuses.{find-status}
use hand.State.Consistency.Attempts.{emitted}

-- requireOpenTask reads, and lets through only a task that is not finished.
pub require_open_task-Holds :
    (id : ℕ) (db : Db)
    → Holds
        (λ _ db'. (db' ≡ db) × (is_unfinished (status_of id db.tasks) ≡ true))
        (require_open_task id db)
unfolding require_open_task
require_open_task-Holds id db = row-Holds _ _ _ _ λ t found.
    refuse_last-Holds _ _ _
      λ unfinished. (refl, ap is_unfinished (find-status id db.tasks found) ∙ ground arith)

module _ (task_id : ℕ) (question : Text) (now id : ℕ) (db : Db) where
  insert_decision-Consistent :
      is_unfinished (status_of task_id db.tasks) ≡ true
      → Consistent db
      → Consistent (insert_decision (new_decision task_id question now id) db)
  unfolding insert_decision new_decision
  insert_decision-Consistent unfinished c = record {
    task_ids = c.task_ids;
    tasks_unique = c.tasks_unique;
    attempt_ids = c.attempt_ids;
    attempts_unique = c.attempts_unique;
    live_active = c.live_active;
    one_live = c.one_live;
    open_unfinished =
        All-append (OpenUnfinished db.tasks) db.decisions _ c.open_unfinished
          ((λ _. unfinished), tt);
    armed_unfinished = c.armed_unfinished;
    armed_capped = c.armed_capped;
    unread_not_done = c.unread_not_done;
  }

pub ask-Consistent :
    (task_id : ℕ) (question : Text) (now : ℕ) (db : Db)
    → Consistent db
    → Holds (λ _ db'. Consistent db') (ask task_id question now db)
unfolding ask
ask-Consistent task_id question now db c = refuse-Holds _ _ _ _ λ _. refuse-Holds _ _ _ _ λ _.
    bind-Holds _ _ _ _ (require_open_task-Holds task_id db) λ _ db' h. rw h.0 (
      query-Holds _ _ _ (
        exec-Holds _ _ _ (
          exec-Holds _ _ _ (
            pure-Holds _ _
              (emitted now _ _ _ _ (insert_decision-Consistent task_id _ now _ db h.1 c))))))

pub close_decision-Consistent :
    (id : ℕ) (to : DecisionStatus) (text by : Text) (now : ℕ) (db : Db)
    → is_opened to ≡ false
    → Consistent db
    → Holds (λ _ db'. Consistent db') (close_decision id to text by now db)
unfolding close_decision
close_decision-Consistent id to text by now db closes c = row-Holds _ _ _ _ λ d _.
    refuse-Holds _ _ _ _ λ _. query-Holds _ _ _ (
      exec-Holds _ _ _ (
        refuse-Holds _ _ _ _ λ _. exec-Holds _ _ _ (
          pure-Holds _ _ (
            emitted now _ _ _ _ (record {
              task_ids = c.task_ids;
              tasks_unique = c.tasks_unique;
              attempt_ids = c.attempt_ids;
              attempts_unique = c.attempts_unique;
              live_active = c.live_active;
              one_live = c.one_live;
              open_unfinished =
                  All-update (OpenUnfinished db.tasks) (OpenUnfinished db.tasks) (is_open_with id) _
                    db.decisions (λ x h e. λ q. cc) (λ x h e. h) c.open_unfinished;
              armed_unfinished = c.armed_unfinished;
              armed_capped = c.armed_capped;
              unread_not_done = c.unread_not_done;
            })))))

pub answer-Consistent :
    (id : ℕ) (text by : Text) (now : ℕ) (db : Db)
    → Consistent db
    → Holds (λ _ db'. Consistent db') (answer id text by now db)
unfolding answer
answer-Consistent id text by now db c = refuse-Holds _ _ _ _ λ _.
    refuse-Holds _ _ _ _
      λ _. close_decision-Consistent id DecisionStatus.answered text by now db refl c

pub withdraw-Consistent :
    (id now : ℕ) (db : Db) → Consistent db → Holds (λ _ db'. Consistent db') (withdraw id now db)
unfolding withdraw
withdraw-Consistent id now db c =
    close_decision-Consistent id DecisionStatus.withdrawn [] [] now db refl c

module _ (attempt_id : ℕ) (status : ReportStatus) (body : Text) (now id : ℕ) (a : Attempt)
    (db : Db) where
  insert_report-Consistent :
      status_of a.task_id db.tasks ≡ some TaskStatus.active
      → Consistent db
      → Consistent (insert_report (new_report attempt_id a.task_id status body now id) db)
  unfolding insert_report new_report
  insert_report-Consistent on_active c = record {
    task_ids = c.task_ids;
    tasks_unique = c.tasks_unique;
    attempt_ids = c.attempt_ids;
    attempts_unique = c.attempts_unique;
    live_active = c.live_active;
    one_live = c.one_live;
    open_unfinished = c.open_unfinished;
    armed_unfinished = c.armed_unfinished;
    armed_capped = c.armed_capped;
    unread_not_done =
        All-append (UnreadNotDone db.tasks) db.reports _ c.unread_not_done
          ((λ _. ap is_not_done on_active), tt);
  }

-- The task of a live attempt is active.
pub live_on_active :
    (id : ℕ) (db : Db) {a : Attempt}
    → Consistent db
    → attempt_of id db ≡ some a
    → is_live a.status ≡ true
    → status_of a.task_id db.tasks ≡ some TaskStatus.active
live_on_active id db c found live =
    find-All (LiveActive db.tasks) (λ (x : Attempt). x.id == id) db.attempts found c.live_active
      live

pub add_report-Consistent :
    (attempt_id : ℕ) (status body : Text) (now : ℕ) (db : Db)
    → Consistent db
    → Holds (λ _ db'. Consistent db') (add_report attempt_id status body now db)
unfolding add_report
add_report-Consistent attempt_id status body now db c = require-Holds _ _ _ _ λ s _.
    refuse-Holds _ _ _ _ λ _. row-Holds _ _ _ _ λ a found. refuse-Holds _ _ _ _ λ running.
      query-Holds _ _ _ (
        exec-Holds _ _ _ (
          exec-Holds _ _ _ (
            pure-Holds _ _ (
              emitted now _ _ _ _ (
                insert_report-Consistent attempt_id s body now _ a db
                  (live_on_active attempt_id db c found (ground arith)) c)))))

pub ack_report-Consistent :
    (id : ℕ) (by : Text) (now : ℕ) (db : Db)
    → Consistent db
    → Holds (λ _ db'. Consistent db') (ack_report id by now db)
unfolding ack_report
ack_report-Consistent id by now db c = refuse-Holds _ _ _ _ λ _. row-Holds _ _ _ _ λ r _.
    refuse-Holds _ _ _ _ λ _. exec-Holds _ _ _ (
      exec-Holds _ _ _ (
        pure-Holds _ _ (
          emitted now _ _ _ _ (record {
            task_ids = c.task_ids;
            tasks_unique = c.tasks_unique;
            attempt_ids = c.attempt_ids;
            attempts_unique = c.attempts_unique;
            live_active = c.live_active;
            one_live = c.one_live;
            open_unfinished = c.open_unfinished;
            armed_unfinished = c.armed_unfinished;
            armed_capped = c.armed_capped;
            unread_not_done =
                All-update (UnreadNotDone db.tasks) (UnreadNotDone db.tasks)
                  (λ (x : Report). x.id == id)
                  (λ (x : Report). record x { acked_at = some now; acked_by = by }) db.reports
                  (λ x h e. λ q. cc) (λ x h e. h) c.unread_not_done;
          }))))
