-- ===== src/State/Log/Calls.antt =====
-- Every call appends to the log, what was logged stays, and ids of devices are not used again.
use hand.Base.{Error, Option, [], append_nil, arith, refl, sym}
use hand.State.Schema.{Db, empty_db}
use hand.State.Transactions.{Holds, tx-keeps}
use hand.State.Calls.{Call, Later, Reachable, perform, step}
use hand.State.Log.Tasks.{
  add_task-Sound, deliver-Sound, gc_removed-Sound, inbox_pruned-Sound, note_luvus-Sound,
  transition-Sound,
}
use hand.State.Log.Attempts.{
  add_attempt-Sound, attempt_running-Sound, attempt_switched-Sound, clean_attempt-Sound,
  end_attempt-Sound, keep_attempt-Sound, note_attempt-Sound, set_attempt_model-Sound,
}
use hand.State.Log.Decisions.{
  ack_report-Sound, add_report-Sound, answer-Sound, ask-Sound, record_quiet-Sound, set_plan-Sound,
  withdraw-Sound,
}
use hand.State.Log.Timers.{add_timer-Sound, cancel_timer-Sound, fire_timers-Sound}
use hand.State.Log.Settings.{
  add_device-Sound, add_grant-Sound, add_project-Sound, adopt_project-Sound, create_fleet-Sound,
  remove_grant-Sound, rename_fleet-Sound, revoke_device-Sound, revoke_phone-Sound,
  trust_project-Sound,
}
use hand.State.Log.Supervisors.{
  add_supervisor-Sound, add_supervisor_input-Sound, advance_wake_cursor-Sound,
  cancel_supervisor_switch-Sound, deliver_supervisor_input-Sound, end_supervisor-Sound,
  note_supervisor-Sound, set_supervisor_model-Sound, set_supervisor_session-Sound,
  set_supervisor_switch-Sound, supervisor_running-Sound,
}
use hand.State.Consistency.Calls.{forget-Holds}
use hand.State.Log.{Logs, Sound}

perform-Sound :
    {before : Db} (call : Call) (db : Db)
    → Sound before db
    → Holds (λ _ db'. Sound before db') (perform call db)
unfolding perform
perform-Sound (Call.call_add_task project title goal now) db l =
    forget-Holds _ _ db (add_task-Sound project title goal now db l)
perform-Sound (Call.call_transition id to delivered now) db l =
    forget-Holds _ _ db (transition-Sound id to delivered now db l)
perform-Sound (Call.call_deliver id refs now) db l =
    forget-Holds _ _ db (deliver-Sound id refs now db l)
perform-Sound (Call.call_add_attempt spec root now) db l =
    forget-Holds _ _ db (add_attempt-Sound spec root now db l)
perform-Sound (Call.call_attempt_running id t now) db l =
    forget-Holds _ _ db (attempt_running-Sound id t now db l)
perform-Sound (Call.call_attempt_switched id t to model effort requested now) db l =
    forget-Holds _ _ db (attempt_switched-Sound id t to model effort requested now db l)
perform-Sound (Call.call_end_attempt id to reason screen now) db l =
    forget-Holds _ _ db (end_attempt-Sound id to reason screen now db l)
perform-Sound (Call.call_clean_attempt id why now) db l =
    forget-Holds _ _ db (clean_attempt-Sound id why now db l)
perform-Sound (Call.call_keep_attempt id reason now) db l = keep_attempt-Sound id reason now db l
perform-Sound (Call.call_note_attempt id kind detail now) db l =
    note_attempt-Sound id kind detail now db l
perform-Sound (Call.call_set_attempt_model id model effort now) db l =
    set_attempt_model-Sound id model effort now db l
perform-Sound (Call.call_ask task_id question now) db l =
    forget-Holds _ _ db (ask-Sound task_id question now db l)
perform-Sound (Call.call_answer id text by now) db l =
    forget-Holds _ _ db (answer-Sound id text by now db l)
perform-Sound (Call.call_withdraw id now) db l = forget-Holds _ _ db (withdraw-Sound id now db l)
perform-Sound (Call.call_set_plan task_id text now) db l =
    forget-Holds _ _ db (set_plan-Sound task_id text now db l)
perform-Sound (Call.call_add_report attempt_id status body now) db l =
    forget-Holds _ _ db (add_report-Sound attempt_id status body now db l)
perform-Sound (Call.call_ack_report id by now) db l =
    forget-Holds _ _ db (ack_report-Sound id by now db l)
perform-Sound (Call.call_record_quiet id api_error now) db l =
    forget-Holds _ _ db (record_quiet-Sound id api_error now db l)
perform-Sound (Call.call_add_timer spec now at) db l =
    forget-Holds _ _ db (add_timer-Sound spec now at db l)
perform-Sound (Call.call_fire_timers now) db l = forget-Holds _ _ db (fire_timers-Sound now db l)
perform-Sound (Call.call_cancel_timer id at) db l =
    forget-Holds _ _ db (cancel_timer-Sound id at db l)
perform-Sound (Call.call_add_supervisor spec now) db l =
    forget-Holds _ _ db (add_supervisor-Sound spec now db l)
perform-Sound (Call.call_supervisor_running id t now) db l =
    forget-Holds _ _ db (supervisor_running-Sound id t now db l)
perform-Sound (Call.call_end_supervisor id to reason now) db l =
    forget-Holds _ _ db (end_supervisor-Sound id to reason now db l)
perform-Sound (Call.call_set_supervisor_switch id model effort now) db l =
    forget-Holds _ _ db (set_supervisor_switch-Sound id model effort now db l)
perform-Sound (Call.call_cancel_supervisor_switch id now) db l =
    forget-Holds _ _ db (cancel_supervisor_switch-Sound id now db l)
perform-Sound (Call.call_set_supervisor_session id session now) db l =
    set_supervisor_session-Sound id session now db l
perform-Sound (Call.call_set_supervisor_model id model effort now) db l =
    set_supervisor_model-Sound id model effort now db l
perform-Sound (Call.call_advance_wake_cursor id seq now) db l =
    advance_wake_cursor-Sound id seq now db l
perform-Sound (Call.call_note_supervisor id kind detail now) db l =
    note_supervisor-Sound id kind detail now db l
perform-Sound (Call.call_add_supervisor_input text now) db l =
    forget-Holds _ _ db (add_supervisor_input-Sound text now db l)
perform-Sound (Call.call_deliver_supervisor_input id typed now) db l =
    deliver_supervisor_input-Sound id typed now db l
perform-Sound (Call.call_add_project clean stored name repo settings now) db l =
    forget-Holds _ _ db (add_project-Sound clean stored name repo settings now db l)
perform-Sound (Call.call_adopt_project name settings now) db l =
    forget-Holds _ _ db (adopt_project-Sound name settings now db l)
perform-Sound (Call.call_trust_project name settings now) db l =
    trust_project-Sound name settings now db l
perform-Sound (Call.call_add_grant project harness pattern now) db l =
    forget-Holds _ _ db (add_grant-Sound project harness pattern now db l)
perform-Sound (Call.call_remove_grant project id now) db l =
    forget-Holds _ _ db (remove_grant-Sound project id now db l)
perform-Sound (Call.call_create_fleet random_id home name now) db l =
    forget-Holds _ _ db (create_fleet-Sound random_id home name now db l)
perform-Sound (Call.call_rename_fleet name now) db l =
    forget-Holds _ _ db (rename_fleet-Sound name now db l)
perform-Sound (Call.call_add_device name login secret_hash phone now) db l =
    forget-Holds _ _ db (add_device-Sound name login secret_hash phone now db l)
perform-Sound (Call.call_revoke_device id now) db l =
    forget-Holds _ _ db (revoke_device-Sound id now db l)
perform-Sound (Call.call_revoke_phone label now) db l =
    forget-Holds _ _ db (revoke_phone-Sound label now db l)
perform-Sound (Call.call_note_luvus now kind detail) db l = note_luvus-Sound now kind detail db l
perform-Sound (Call.call_inbox_pruned now detail) db l = inbox_pruned-Sound now detail db l
perform-Sound (Call.call_gc_removed now detail) db l = gc_removed-Sound now detail db l

pub step-Sound :
    {before : Db} (commit_error : Option Error) (call : Call) (db : Db)
    → Sound before db
    → Sound before (step commit_error call db)
unfolding step
step-Sound {before} commit_error call db l =
    tx-keeps (λ db'. Sound before db') commit_error (perform call) db l (perform-Sound call db l)

pub Reachable-Sound : (db : Db) → Reachable db → Sound empty_db db
Reachable-Sound db Reachable.start = record {
  log = record { numbered = tt; counted = refl; extends = ([], refl) };
  grows = omega arith;
  bounded = tt;
}
Reachable-Sound db (Reachable.after {db = earlier} r commit_error call) =
    step-Sound commit_error call earlier (Reachable-Sound earlier r)

-- The same, seen from itself.
pub from_itself : {before : Db} (db : Db) → Sound before db → Sound db db
from_itself db c = record {
  log = record {
    numbered = c.log.numbered;
    counted = c.log.counted;
    extends = ([], sym (append_nil db.events));
  };
  grows = omega arith;
  bounded = c.bounded;
}

pub Later-Sound : (before db : Db) → Sound before before → Later before db → Sound before db
Later-Sound before db c Later.at_once = c
Later-Sound before db c (Later.next {db = earlier} l commit_error call) =
    step-Sound commit_error call earlier (Later-Sound before earlier c l)

-- In every database that the calls of State/Calls lead to, from an empty one, the events are numbered
-- 1, 2, 3, ... without a gap, the counter is their number, and one more of these calls, rolled back
-- or not, leaves such a log in which every event that was there stands where it stood, unchanged, with
-- any new ones behind. A move of the fleet, which rewrites the old home in the events' details, is none
-- of these calls, and neither are an import and RebaseProjects.
pub log_appends :
    (db : Db)
    → Reachable db
    → (commit_error : Option Error) (call : Call) → Logs db (step commit_error call db)
log_appends db r commit_error call =
    (step-Sound commit_error call db (from_itself db (Reachable-Sound db r))).log
