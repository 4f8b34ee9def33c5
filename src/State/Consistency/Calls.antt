-- ===== src/State/Consistency/Calls.antt =====
-- No call breaks the invariant, so it holds of every database that calls lead to.
use hand.Base.{Error, Option, Result}
use hand.State.Schema.{Db}
use hand.State.Transactions.{Holds, M, bind-Holds, imp-Holds, pure-Holds, tx-keeps}
use hand.State.Calls.{Call, Reachable, forget, perform, step}
use hand.State.Consistency.Tasks.{add_task-Consistent, transition-Consistent}
use hand.State.Consistency.Attempts.{
  attempt_running-Consistent, attempt_switched-Consistent, clean_attempt-Consistent,
  end_attempt-Consistent, keep_attempt-Consistent, set_attempt_model-Consistent,
}
use hand.State.Consistency.Launches.{add_attempt-Consistent}
use hand.State.Consistency.Decisions.{
  ack_report-Consistent, add_report-Consistent, answer-Consistent, ask-Consistent,
  withdraw-Consistent,
}
use hand.State.Consistency.Timers.{
  add_timer-Consistent, cancel_timer-Consistent, fire_timers-Consistent,
}
use hand.State.Consistency.Rest.{
  deliver-SameCore, gc_removed-SameCore, inbox_pruned-SameCore, note_attempt-SameCore,
  note_luvus-SameCore, record_quiet-SameCore, set_plan-SameCore,
}
use hand.State.Consistency.Settings.{
  add_device-SameCore, add_grant-SameCore, add_project-SameCore, adopt_project-SameCore,
  create_fleet-SameCore, remove_grant-SameCore, rename_fleet-SameCore, revoke_device-SameCore,
  revoke_phone-SameCore, trust_project-SameCore,
}
use hand.State.Consistency.Supervisors.{
  add_supervisor-SameCore, add_supervisor_input-SameCore, advance_wake_cursor-SameCore,
  cancel_supervisor_switch-SameCore, deliver_supervisor_input-SameCore, end_supervisor-SameCore,
  note_supervisor-SameCore, set_supervisor_model-SameCore, set_supervisor_session-SameCore,
  set_supervisor_switch-SameCore, supervisor_running-SameCore,
}
use hand.State.Consistency.{Consistent, SameCore, SameCore-Consistent, empty-Consistent}

pub forget-Holds :
    {A : Type 0} (P : Db → Type 0) (m : M A) (db : Db)
    → Holds (λ _ db'. P db') (m db)
    → Holds (λ _ db'. P db') (forget m db)
forget-Holds P m db h = bind-Holds (λ _ db'. P db') m _ db h λ a db' k. pure-Holds tt db' k

same_core :
    {A : Type 0} (r : Result (A × Db)) (db : Db)
    → Consistent db
    → Holds (λ _ db'. SameCore db db') r
    → Holds (λ _ db'. Consistent db') r
same_core r db c h =
    imp-Holds (λ _ db'. SameCore db db') (λ _ db'. Consistent db') r
      (λ _ db' same. SameCore-Consistent db db' same c) h

perform-Consistent :
    (call : Call) (db : Db) → Consistent db → Holds (λ _ db'. Consistent db') (perform call db)
unfolding perform
perform-Consistent (Call.call_add_task project title goal now) db c =
    forget-Holds _ _ db (add_task-Consistent project title goal now db c)
perform-Consistent (Call.call_transition id to delivered now) db c =
    forget-Holds _ _ db (transition-Consistent id to delivered now db c)
perform-Consistent (Call.call_deliver id refs now) db c =
    forget-Holds _ _ db (same_core _ db c (deliver-SameCore id refs now db))
perform-Consistent (Call.call_add_attempt spec root now) db c =
    forget-Holds _ _ db (add_attempt-Consistent spec root now db c)
perform-Consistent (Call.call_attempt_running id t now) db c =
    forget-Holds _ _ db (attempt_running-Consistent id t now db c)
perform-Consistent (Call.call_attempt_switched id t to model effort requested now) db c =
    forget-Holds _ _ db (attempt_switched-Consistent id t to model effort requested now db c)
perform-Consistent (Call.call_end_attempt id to reason screen now) db c =
    forget-Holds _ _ db (end_attempt-Consistent id to reason screen now db c)
perform-Consistent (Call.call_clean_attempt id why now) db c =
    forget-Holds _ _ db (clean_attempt-Consistent id why now db c)
perform-Consistent (Call.call_keep_attempt id reason now) db c =
    keep_attempt-Consistent id reason now db c
perform-Consistent (Call.call_note_attempt id kind detail now) db c =
    same_core _ db c (note_attempt-SameCore id kind detail now db)
perform-Consistent (Call.call_set_attempt_model id model effort now) db c =
    set_attempt_model-Consistent id model effort now db c
perform-Consistent (Call.call_ask task_id question now) db c =
    forget-Holds _ _ db (ask-Consistent task_id question now db c)
perform-Consistent (Call.call_answer id text by now) db c =
    forget-Holds _ _ db (answer-Consistent id text by now db c)
perform-Consistent (Call.call_withdraw id now) db c =
    forget-Holds _ _ db (withdraw-Consistent id now db c)
perform-Consistent (Call.call_set_plan task_id text now) db c =
    forget-Holds _ _ db (same_core _ db c (set_plan-SameCore task_id text now db))
perform-Consistent (Call.call_add_report attempt_id status body now) db c =
    forget-Holds _ _ db (add_report-Consistent attempt_id status body now db c)
perform-Consistent (Call.call_ack_report id by now) db c =
    forget-Holds _ _ db (ack_report-Consistent id by now db c)
perform-Consistent (Call.call_record_quiet id api_error now) db c =
    forget-Holds _ _ db (same_core _ db c (record_quiet-SameCore id api_error now db))
perform-Consistent (Call.call_add_timer spec now at) db c =
    forget-Holds _ _ db (add_timer-Consistent spec now at db c)
perform-Consistent (Call.call_fire_timers now) db c =
    forget-Holds _ _ db (fire_timers-Consistent now db c)
perform-Consistent (Call.call_cancel_timer id at) db c =
    forget-Holds _ _ db (cancel_timer-Consistent id at db c)
perform-Consistent (Call.call_add_supervisor spec now) db c =
    forget-Holds _ _ db (same_core _ db c (add_supervisor-SameCore spec now db))
perform-Consistent (Call.call_supervisor_running id t now) db c =
    forget-Holds _ _ db (same_core _ db c (supervisor_running-SameCore id t now db))
perform-Consistent (Call.call_end_supervisor id to reason now) db c =
    forget-Holds _ _ db (same_core _ db c (end_supervisor-SameCore id to reason now db))
perform-Consistent (Call.call_set_supervisor_switch id model effort now) db c =
    forget-Holds _ _ db (same_core _ db c (set_supervisor_switch-SameCore id model effort now db))
perform-Consistent (Call.call_cancel_supervisor_switch id now) db c =
    forget-Holds _ _ db (same_core _ db c (cancel_supervisor_switch-SameCore id now db))
perform-Consistent (Call.call_set_supervisor_session id session now) db c =
    same_core _ db c (set_supervisor_session-SameCore id session now db)
perform-Consistent (Call.call_set_supervisor_model id model effort now) db c =
    same_core _ db c (set_supervisor_model-SameCore id model effort now db)
perform-Consistent (Call.call_advance_wake_cursor id seq now) db c =
    same_core _ db c (advance_wake_cursor-SameCore id seq now db)
perform-Consistent (Call.call_note_supervisor id kind detail now) db c =
    same_core _ db c (note_supervisor-SameCore id kind detail now db)
perform-Consistent (Call.call_add_supervisor_input text now) db c =
    forget-Holds _ _ db (same_core _ db c (add_supervisor_input-SameCore text now db))
perform-Consistent (Call.call_deliver_supervisor_input id typed now) db c =
    same_core _ db c (deliver_supervisor_input-SameCore id typed now db)
perform-Consistent (Call.call_add_project clean stored name repo settings now) db c =
    forget-Holds _ _ db
      (same_core _ db c (add_project-SameCore clean stored name repo settings now db))
perform-Consistent (Call.call_adopt_project name settings now) db c =
    forget-Holds _ _ db (same_core _ db c (adopt_project-SameCore name settings now db))
perform-Consistent (Call.call_trust_project name settings now) db c =
    same_core _ db c (trust_project-SameCore name settings now db)
perform-Consistent (Call.call_add_grant project harness pattern now) db c =
    forget-Holds _ _ db (same_core _ db c (add_grant-SameCore project harness pattern now db))
perform-Consistent (Call.call_remove_grant project id now) db c =
    forget-Holds _ _ db (same_core _ db c (remove_grant-SameCore project id now db))
perform-Consistent (Call.call_create_fleet random_id home name now) db c =
    forget-Holds _ _ db (same_core _ db c (create_fleet-SameCore random_id home name now db))
perform-Consistent (Call.call_rename_fleet name now) db c =
    forget-Holds _ _ db (same_core _ db c (rename_fleet-SameCore name now db))
perform-Consistent (Call.call_add_device name login secret_hash phone now) db c =
    forget-Holds _ _ db (same_core _ db c (add_device-SameCore name login secret_hash phone now db))
perform-Consistent (Call.call_revoke_device id now) db c =
    forget-Holds _ _ db (same_core _ db c (revoke_device-SameCore id now db))
perform-Consistent (Call.call_revoke_phone label now) db c =
    forget-Holds _ _ db (same_core _ db c (revoke_phone-SameCore label now db))
perform-Consistent (Call.call_note_luvus now kind detail) db c =
    same_core _ db c (note_luvus-SameCore now kind detail db)
perform-Consistent (Call.call_inbox_pruned now detail) db c =
    same_core _ db c (inbox_pruned-SameCore now detail db)
perform-Consistent (Call.call_gc_removed now detail) db c =
    same_core _ db c (gc_removed-SameCore now detail db)

-- One call, rolled back or not.
pub step-Consistent :
    (commit_error : Option Error) (call : Call) (db : Db)
    → Consistent db
    → Consistent (step commit_error call db)
unfolding step
step-Consistent commit_error call db c =
    tx-keeps Consistent commit_error (perform call) db c (perform-Consistent call db c)

-- In every database that calls lead to from an empty one: the keys of tasks and attempts are
-- positive and no two rows share one; an attempt that is live hangs on an active task, and no task has
-- two; an open decision hangs on a task that is not finished, and so does an armed timer that names a
-- task; at most 20 timers are armed; and a report that nobody has read hangs on a task that is not done.
pub Reachable-Consistent : (db : Db) → Reachable db → Consistent db
Reachable-Consistent db Reachable.start = empty-Consistent
Reachable-Consistent db (Reachable.after {db = before} r commit_error call) =
    step-Consistent commit_error call before (Reachable-Consistent before r)
