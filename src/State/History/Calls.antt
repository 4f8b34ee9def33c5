-- ===== src/State/History/Calls.antt =====
-- Call by call: what is finished, closed, read or ended stays as it is.
use hand.Base.{Error, Option, Result}
use hand.State.Schema.{Db}
use hand.State.Transactions.{Holds, imp-Holds, tx-keeps}
use hand.State.Calls.{Call, Later, perform, step}
use hand.State.Consistency.{SameCore}
use hand.State.Consistency.Rest.{
  deliver-SameCore, gc_removed-SameCore, inbox_pruned-SameCore, note_attempt-SameCore,
  note_luvus-SameCore, record_quiet-SameCore, set_plan-SameCore,
}
use hand.State.Consistency.Settings.{
  add_device-SameCore, add_grant-SameCore, add_project-SameCore, adopt_project-SameCore,
  create_fleet-SameCore, remove_grant-SameCore, rename_fleet-SameCore, revoke_device-SameCore,
  revoke_phone-SameCore, trust_project-SameCore,
}
use hand.State.Consistency.Supervisors.{
  add_supervisor-SameCore, add_supervisor_input-SameCore, advance_wake_cursor-SameCore,
  cancel_supervisor_switch-SameCore, deliver_supervisor_input-SameCore, end_supervisor-SameCore,
  note_supervisor-SameCore, set_supervisor_model-SameCore, set_supervisor_session-SameCore,
  set_supervisor_switch-SameCore, supervisor_running-SameCore,
}
use hand.State.Consistency.Calls.{forget-Holds}
use hand.State.History.{SameCore-Since, Since, Since-trans}
use hand.State.History.Attempts.{
  attempt_running-Since, attempt_switched-Since, clean_attempt-Since, end_attempt-Since,
  keep_attempt-Since, set_attempt_model-Since,
}
use hand.State.History.Tasks.{add_attempt-Since, add_task-Since, itself, transition-Since}
use hand.State.History.Rows.{
  ack_report-Since, add_report-Since, add_timer-Since, answer-Since, ask-Since, cancel_timer-Since,
  fire_timers-Since, withdraw-Since,
}

same_Since :
    {A : Type 0} (r : Result (A × Db)) (db : Db)
    → Holds (λ _ db'. SameCore db db') r
    → Holds (λ _ db'. Since db db') r
same_Since r db h =
    imp-Holds (λ _ db'. SameCore db db') (λ _ db'. Since db db') r
      (λ _ db' same. SameCore-Since db db' same) h

perform-Since : (call : Call) (db : Db) → Holds (λ _ db'. Since db db') (perform call db)
unfolding perform
perform-Since (Call.call_add_task project title goal now) db =
    forget-Holds _ _ db (add_task-Since project title goal now db)
perform-Since (Call.call_transition id to delivered now) db =
    forget-Holds _ _ db (transition-Since id to delivered now db)
perform-Since (Call.call_deliver id refs now) db =
    forget-Holds _ _ db (same_Since _ db (deliver-SameCore id refs now db))
perform-Since (Call.call_add_attempt spec root now) db =
    forget-Holds _ _ db (add_attempt-Since spec root now db)
perform-Since (Call.call_attempt_running id t now) db =
    forget-Holds _ _ db (attempt_running-Since id t now db)
perform-Since (Call.call_attempt_switched id t to model effort requested now) db =
    forget-Holds _ _ db (attempt_switched-Since id t to model effort requested now db)
perform-Since (Call.call_end_attempt id to reason screen now) db =
    forget-Holds _ _ db (end_attempt-Since id to reason screen now db)
perform-Since (Call.call_clean_attempt id why now) db =
    forget-Holds _ _ db (clean_attempt-Since id why now db)
perform-Since (Call.call_keep_attempt id reason now) db = keep_attempt-Since id reason now db
perform-Since (Call.call_note_attempt id kind detail now) db =
    same_Since _ db (note_attempt-SameCore id kind detail now db)
perform-Since (Call.call_set_attempt_model id model effort now) db =
    set_attempt_model-Since id model effort now db
perform-Since (Call.call_ask task_id question now) db =
    forget-Holds _ _ db (ask-Since task_id question now db)
perform-Since (Call.call_answer id text by now) db =
    forget-Holds _ _ db (answer-Since id text by now db)
perform-Since (Call.call_withdraw id now) db = forget-Holds _ _ db (withdraw-Since id now db)
perform-Since (Call.call_set_plan task_id text now) db =
    forget-Holds _ _ db (same_Since _ db (set_plan-SameCore task_id text now db))
perform-Since (Call.call_add_report attempt_id status body now) db =
    forget-Holds _ _ db (add_report-Since attempt_id status body now db)
perform-Since (Call.call_ack_report id by now) db =
    forget-Holds _ _ db (ack_report-Since id by now db)
perform-Since (Call.call_record_quiet id api_error now) db =
    forget-Holds _ _ db (same_Since _ db (record_quiet-SameCore id api_error now db))
perform-Since (Call.call_add_timer spec now at) db =
    forget-Holds _ _ db (add_timer-Since spec now at db)
perform-Since (Call.call_fire_timers now) db = forget-Holds _ _ db (fire_timers-Since now db)
perform-Since (Call.call_cancel_timer id at) db = forget-Holds _ _ db (cancel_timer-Since id at db)
perform-Since (Call.call_add_supervisor spec now) db =
    forget-Holds _ _ db (same_Since _ db (add_supervisor-SameCore spec now db))
perform-Since (Call.call_supervisor_running id t now) db =
    forget-Holds _ _ db (same_Since _ db (supervisor_running-SameCore id t now db))
perform-Since (Call.call_end_supervisor id to reason now) db =
    forget-Holds _ _ db (same_Since _ db (end_supervisor-SameCore id to reason now db))
perform-Since (Call.call_set_supervisor_switch id model effort now) db =
    forget-Holds _ _ db (same_Since _ db (set_supervisor_switch-SameCore id model effort now db))
perform-Since (Call.call_cancel_supervisor_switch id now) db =
    forget-Holds _ _ db (same_Since _ db (cancel_supervisor_switch-SameCore id now db))
perform-Since (Call.call_set_supervisor_session id session now) db =
    same_Since _ db (set_supervisor_session-SameCore id session now db)
perform-Since (Call.call_set_supervisor_model id model effort now) db =
    same_Since _ db (set_supervisor_model-SameCore id model effort now db)
perform-Since (Call.call_advance_wake_cursor id seq now) db =
    same_Since _ db (advance_wake_cursor-SameCore id seq now db)
perform-Since (Call.call_note_supervisor id kind detail now) db =
    same_Since _ db (note_supervisor-SameCore id kind detail now db)
perform-Since (Call.call_add_supervisor_input text now) db =
    forget-Holds _ _ db (same_Since _ db (add_supervisor_input-SameCore text now db))
perform-Since (Call.call_deliver_supervisor_input id typed now) db =
    same_Since _ db (deliver_supervisor_input-SameCore id typed now db)
perform-Since (Call.call_add_project clean stored name repo settings now) db =
    forget-Holds _ _ db
      (same_Since _ db (add_project-SameCore clean stored name repo settings now db))
perform-Since (Call.call_adopt_project name settings now) db =
    forget-Holds _ _ db (same_Since _ db (adopt_project-SameCore name settings now db))
perform-Since (Call.call_trust_project name settings now) db =
    same_Since _ db (trust_project-SameCore name settings now db)
perform-Since (Call.call_add_grant project harness pattern now) db =
    forget-Holds _ _ db (same_Since _ db (add_grant-SameCore project harness pattern now db))
perform-Since (Call.call_remove_grant project id now) db =
    forget-Holds _ _ db (same_Since _ db (remove_grant-SameCore project id now db))
perform-Since (Call.call_create_fleet random_id home name now) db =
    forget-Holds _ _ db (same_Since _ db (create_fleet-SameCore random_id home name now db))
perform-Since (Call.call_rename_fleet name now) db =
    forget-Holds _ _ db (same_Since _ db (rename_fleet-SameCore name now db))
perform-Since (Call.call_add_device name login secret_hash phone now) db =
    forget-Holds _ _ db (same_Since _ db (add_device-SameCore name login secret_hash phone now db))
perform-Since (Call.call_revoke_device id now) db =
    forget-Holds _ _ db (same_Since _ db (revoke_device-SameCore id now db))
perform-Since (Call.call_revoke_phone label now) db =
    forget-Holds _ _ db (same_Since _ db (revoke_phone-SameCore label now db))
perform-Since (Call.call_note_luvus now kind detail) db =
    same_Since _ db (note_luvus-SameCore now kind detail db)
perform-Since (Call.call_inbox_pruned now detail) db =
    same_Since _ db (inbox_pruned-SameCore now detail db)
perform-Since (Call.call_gc_removed now detail) db =
    same_Since _ db (gc_removed-SameCore now detail db)

step-Since :
    (commit_error : Option Error) (call : Call) (db : Db) → Since db (step commit_error call db)
unfolding step
step-Since commit_error call db =
    tx-keeps (λ db'. Since db db') commit_error (perform call) db (itself db)
      (perform-Since call db)

-- Whatever calls of State/Calls follow, in any order, rolled back or not: the row of a task that is
-- done or abandoned, of a decision that is closed and of a report that was read is found unchanged,
-- and of an attempt that has ended the status, the reason, the time of the end, the screen, the
-- terminal, the model and effort, the task, the worktree and the branch are what they were. A move of
-- the fleet, which rewrites the old home in all texts, is none of these calls, and neither are an
-- import and RebaseProjects.
pub settled_stays : (before db : Db) → Later before db → Since before db
settled_stays before db Later.at_once = itself before
settled_stays before db (Later.next {db = earlier} l commit_error call) =
    Since-trans (settled_stays before earlier l) (step-Since commit_error call earlier)
