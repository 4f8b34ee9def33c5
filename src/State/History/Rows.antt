-- ===== src/State/History/Rows.antt =====
-- The operations on decisions, reports and timers keep what is finished, closed, read or
-- ended as it is.
use hand.Base.{Bool-cases, List, Text, [], arith, exists_where, inl, inr, refl, ℕ, ◌∷◌}
use hand.State.Schema.{Db, DecisionStatus, Timer}
use hand.State.Transactions.{
  Holds, bind-Holds, exec-Holds, pure-Holds, query-Holds, refuse-Holds, require-Holds, row-Holds,
}
use hand.State.Decisions.{
  answer, ask, body, close_decision, insert_decision, is_open_with, set_decision, withdraw,
}
use hand.State.Reports.{ack_report, add_report, insert_report, set_acked}
use hand.State.Timers.{
  TimerSpec, add_timer, armed_timers, cancel_timer, fire_all, fire_one, fire_timers, insert_timer,
  is_due, set_cancelled,
}
use hand.State.Consistency.Timers.{require_unfinished-Holds}
use hand.State.Consistency.Rest.{require_open_task-keeps}
use hand.State.History.{
  KeptEnds-refl, Since, Since-trans, decision_id_of, is_closed, is_read, report_id_of,
}
use hand.State.History.Writes.{KeptRows-append, KeptRows-update, KeptRows-update_key, timers-Since}
use hand.State.History.Tasks.{announced, itself}

pub ask-Since :
    (task_id : ℕ) (question : Text) (now : ℕ) (db : Db)
    → Holds (λ _ db'. Since db db') (ask task_id question now db)
unfolding ask insert_decision
ask-Since task_id question now db = refuse-Holds _ _ _ _ λ _. refuse-Holds _ _ _ _ λ _.
    bind-Holds _ _ _ _ (require_open_task-keeps task_id db) λ _ db' e. rw e (
      query-Holds _ _ _ (
        exec-Holds _ _ _ (
          exec-Holds _ _ _ (
            pure-Holds _ _ (
              announced
                (record {
                  tasks = λ id t there fin. there;
                  decisions = KeptRows-append decision_id_of is_closed db.decisions _;
                  reports = λ id r there fin. there;
                  attempts = KeptEnds-refl db.attempts;
                })
                _ _ _ _)))))

close_decision-Since :
    (id : ℕ) (to : DecisionStatus) (text by : Text) (now : ℕ) (db : Db)
    → Holds (λ _ db'. Since db db') (close_decision id to text by now db)
unfolding close_decision set_decision
close_decision-Since id to text by now db = row-Holds _ _ _ _ λ d _. refuse-Holds _ _ _ _ λ _.
    query-Holds _ _ _ (
      exec-Holds _ _ _ (
        refuse-Holds _ _ _ _ λ _. exec-Holds _ _ _ (
          pure-Holds _ _ (
            announced
              (record {
                tasks = λ id t there fin. there;
                decisions =
                    KeptRows-update decision_id_of is_closed (is_open_with id) _ db.decisions
                      (λ d. refl) (λ d closed. ground arith);
                reports = λ id r there fin. there;
                attempts = KeptEnds-refl db.attempts;
              })
              _ _ _ _))))

pub answer-Since :
    (id : ℕ) (text by : Text) (now : ℕ) (db : Db)
    → Holds (λ _ db'. Since db db') (answer id text by now db)
unfolding answer
answer-Since id text by now db =
    refuse-Holds _ _ _ _
      λ _. refuse-Holds _ _ _ _ λ _. close_decision-Since id DecisionStatus.answered text by now db

pub withdraw-Since : (id now : ℕ) (db : Db) → Holds (λ _ db'. Since db db') (withdraw id now db)
unfolding withdraw
withdraw-Since id now db = close_decision-Since id DecisionStatus.withdrawn [] [] now db

pub add_report-Since :
    (attempt_id : ℕ) (status body : Text) (now : ℕ) (db : Db)
    → Holds (λ _ db'. Since db db') (add_report attempt_id status body now db)
unfolding add_report insert_report
add_report-Since attempt_id status body now db = require-Holds _ _ _ _ λ s _.
    refuse-Holds _ _ _ _ λ _. row-Holds _ _ _ _ λ a _. refuse-Holds _ _ _ _ λ _. query-Holds _ _ _ (
      exec-Holds _ _ _ (
        exec-Holds _ _ _ (
          pure-Holds _ _ (
            announced
              (record {
                tasks = λ id t there fin. there;
                decisions = λ id d there fin. there;
                reports = KeptRows-append report_id_of is_read db.reports _;
                attempts = KeptEnds-refl db.attempts;
              })
              _ _ _ _))))

pub ack_report-Since :
    (id : ℕ) (by : Text) (now : ℕ) (db : Db)
    → Holds (λ _ db'. Since db db') (ack_report id by now db)
unfolding ack_report set_acked
ack_report-Since id by now db = refuse-Holds _ _ _ _ λ _. row-Holds _ _ _ _ λ r found.
    refuse-Holds _ _ _ _ λ unread. exec-Holds _ _ _ (
      exec-Holds _ _ _ (
        pure-Holds _ _ (
          announced
            (record {
              tasks = λ id t there fin. there;
              decisions = λ id d there fin. there;
              reports =
                  KeptRows-update_key report_id_of is_read id _ db.reports r (λ x. refl) found
                    unread;
              attempts = KeptEnds-refl db.attempts;
            })
            _ _ _ _)))

pub add_timer-Since :
    (spec : TimerSpec) (now at : ℕ) (db : Db)
    → Holds (λ _ db'. Since db db') (add_timer spec now at db)
unfolding add_timer insert_timer
add_timer-Since spec now at db = refuse-Holds _ _ _ _ λ _.
    bind-Holds _ _ _ _ (require_unfinished-Holds spec.task_id db) λ _ db' h. rw h.0 (
      query-Holds _ _ _ (
        refuse-Holds _ _ _ _ λ _. query-Holds _ _ _ (
          refuse-Holds _ _ _ _ λ _. query-Holds _ _ _ (
            exec-Holds _ _ _
              (exec-Holds _ _ _ (pure-Holds _ _ (announced (timers-Since _ db) _ _ _ _)))))))

fire_all-Since :
    {before : Db} (now : ℕ) (ts : List Timer) (db : Db)
    → Since before db
    → Holds (λ _ db'. Since before db') (fire_all now ts db)
unfolding fire_all fire_one
fire_all-Since now [] db s = pure-Holds _ _ s
fire_all-Since now (t ∷ ts) db s = exec-Holds _ _ _ (
    bind-Holds _ _ _ _
      (fire_all-Since now ts _ (announced (Since-trans s (timers-Since _ db)) _ _ _ _))
      λ fired db' h. pure-Holds _ _ h)

pub fire_timers-Since : (now : ℕ) (db : Db) → Holds (λ _ db'. Since db db') (fire_timers now db)
unfolding fire_timers
fire_timers-Since now db =
    query-Holds _ _ _ (elim (Bool-cases (exists_where (is_due now) (armed_timers db))) [
      | inl e ↦ rw e (fire_all-Since now _ db (itself db))
      | inr e ↦ rw e (pure-Holds _ _ (itself db))
    ])

pub cancel_timer-Since :
    (id at : ℕ) (db : Db) → Holds (λ _ db'. Since db db') (cancel_timer id at db)
unfolding cancel_timer set_cancelled
cancel_timer-Since id at db = row-Holds _ _ _ _ λ t _. refuse-Holds _ _ _ _ λ _.
    exec-Holds _ _ _ (exec-Holds _ _ _ (pure-Holds _ _ (announced (timers-Since _ db) _ _ _ _)))
