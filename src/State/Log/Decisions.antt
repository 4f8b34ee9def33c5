-- ===== src/State/Log/Decisions.antt =====
-- The operations of decision.go, plan.go and report.go append to the log.
use hand.Base.{Text, [], ℕ}
use hand.State.Schema.{Db, DecisionStatus}
use hand.State.Transactions.{
  Holds, bind-Holds, exec-Holds, pure-Holds, query-Holds, refuse-Holds, require-Holds, row-Holds,
}
use hand.State.Decisions.{answer, ask, body, close_decision, set_plan, withdraw}
use hand.State.Reports.{ack_report, add_report, record_quiet}
use hand.State.Log.{Sound, emitted_Sound, write_Sound}
use hand.State.Consistency.Decisions.{require_open_task-Holds}

pub ask-Sound :
    {before : Db} (task_id : ℕ) (question : Text) (now : ℕ) (db : Db)
    → Sound before db
    → Holds (λ _ db'. Sound before db') (ask task_id question now db)
unfolding ask
ask-Sound task_id question now db l = refuse-Holds _ _ _ _ λ _. refuse-Holds _ _ _ _ λ _.
    bind-Holds _ _ _ _ (require_open_task-Holds task_id db) λ _ db' h. rw h.0 (
      query-Holds _ _ _ (
        exec-Holds _ _ _
          (exec-Holds _ _ _ (pure-Holds _ _ (emitted_Sound (write_Sound l) _ _ _ _)))))

close_decision-Sound :
    {before : Db} (id : ℕ) (to : DecisionStatus) (text by : Text) (now : ℕ) (db : Db)
    → Sound before db
    → Holds (λ _ db'. Sound before db') (close_decision id to text by now db)
unfolding close_decision
close_decision-Sound id to text by now db l = row-Holds _ _ _ _ λ d _. refuse-Holds _ _ _ _ λ _.
    query-Holds _ _ _ (
      exec-Holds _ _ _ (
        refuse-Holds _ _ _ _
          λ _. exec-Holds _ _ _ (pure-Holds _ _ (emitted_Sound (write_Sound l) _ _ _ _))))

pub answer-Sound :
    {before : Db} (id : ℕ) (text by : Text) (now : ℕ) (db : Db)
    → Sound before db
    → Holds (λ _ db'. Sound before db') (answer id text by now db)
unfolding answer
answer-Sound id text by now db l =
    refuse-Holds _ _ _ _ λ _. refuse-Holds _ _ _ _ λ _. close_decision-Sound id _ text by now db l

pub withdraw-Sound :
    {before : Db} (id now : ℕ) (db : Db)
    → Sound before db
    → Holds (λ _ db'. Sound before db') (withdraw id now db)
unfolding withdraw
withdraw-Sound id now db l = close_decision-Sound id _ [] [] now db l

pub set_plan-Sound :
    {before : Db} (task_id : ℕ) (text : Text) (now : ℕ) (db : Db)
    → Sound before db
    → Holds (λ _ db'. Sound before db') (set_plan task_id text now db)
unfolding set_plan
set_plan-Sound task_id text now db l = refuse-Holds _ _ _ _ λ _.
    bind-Holds _ _ _ _ (require_open_task-Holds task_id db) λ _ db' h. rw h.0 (
      query-Holds _ _ _ (
        exec-Holds _ _ _
          (exec-Holds _ _ _ (pure-Holds _ _ (emitted_Sound (write_Sound l) _ _ _ _)))))

pub add_report-Sound :
    {before : Db} (attempt_id : ℕ) (status body : Text) (now : ℕ) (db : Db)
    → Sound before db
    → Holds (λ _ db'. Sound before db') (add_report attempt_id status body now db)
unfolding add_report
add_report-Sound attempt_id status body now db l = require-Holds _ _ _ _ λ s _.
    refuse-Holds _ _ _ _ λ _. row-Holds _ _ _ _ λ a found. refuse-Holds _ _ _ _ λ running.
      query-Holds _ _ _ (
        exec-Holds _ _ _
          (exec-Holds _ _ _ (pure-Holds _ _ (emitted_Sound (write_Sound l) _ _ _ _))))

pub ack_report-Sound :
    {before : Db} (id : ℕ) (by : Text) (now : ℕ) (db : Db)
    → Sound before db
    → Holds (λ _ db'. Sound before db') (ack_report id by now db)
unfolding ack_report
ack_report-Sound id by now db l = refuse-Holds _ _ _ _ λ _. row-Holds _ _ _ _ λ r _.
    refuse-Holds _ _ _ _ λ _.
      exec-Holds _ _ _ (exec-Holds _ _ _ (pure-Holds _ _ (emitted_Sound (write_Sound l) _ _ _ _)))

pub record_quiet-Sound :
    {before : Db} (id : ℕ) (api_error : Text) (now : ℕ) (db : Db)
    → Sound before db
    → Holds (λ _ db'. Sound before db') (record_quiet id api_error now db)
unfolding record_quiet
record_quiet-Sound id api_error now db l = row-Holds _ _ _ _ λ a _. refuse-Holds _ _ _ _ λ _.
    query-Holds _ _ _
      (query-Holds _ _ _ (exec-Holds _ _ _ (pure-Holds _ _ (emitted_Sound l _ _ _ _))))
