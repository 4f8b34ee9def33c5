-- ===== src/State/Calls.antt =====
-- The calls that a store gets, and the databases that they lead to: the methods that write, but for
-- MoveHome, RewriteHome and ConfirmMove (move.go), the import of a fleet (fleet_import.go) and
-- RebaseProjects (project.go). Every call runs in a transaction of its own (state.go, `tx`), and the
-- calls of all processes come one after another, since SQLite lets one writer in at a time.
use hand.Base.{Bool, Error, List, Option, Text, ℕ}
use hand.State.Schema.{AttemptStatus, Db, Terminal, empty_db}
use hand.State.Transactions.{M, pure, tx, ◌>>=◌}
use hand.State.Tasks.{add_task, deliver, transition}
use hand.State.Events.{gc_removed, inbox_pruned, note_luvus}
use hand.State.Launches.{AttemptSpec, add_attempt}
use hand.State.Inputs.{add_supervisor_input, deliver_supervisor_input}
use hand.State.Attempts.{
  attempt_running, attempt_switched, clean_attempt, end_attempt, keep_attempt, note_attempt,
  set_attempt_model,
}
use hand.State.Decisions.{answer, ask, body, set_plan, withdraw}
use hand.State.Reports.{ack_report, add_report, record_quiet}
use hand.State.Timers.{TimerSpec, add_timer, cancel_timer, fire_timers}
use hand.State.Supervisors.{
  SupervisorSpec, add_supervisor, advance_wake_cursor, cancel_supervisor_switch, end_supervisor,
  note_supervisor, set_supervisor_model, set_supervisor_session, set_supervisor_switch,
  supervisor_running,
}
use hand.State.Projects.{
  add_grant, add_project, adopt_project, create_fleet, remove_grant, rename_fleet, trust_project,
}
use hand.State.Devices.{add_device, revoke_device, revoke_phone}

-- The methods of Store that write, but those named above, with their arguments; `now` is the clock that the call reads.
pub data Call : Type 0 where
  call_add_task : (project title goal : Text) (now : ℕ) → Call
  call_transition : (id : ℕ) (to : Text) (delivered : List Text) (now : ℕ) → Call
  call_deliver : (id : ℕ) (refs : List Text) (now : ℕ) → Call
  call_add_attempt : (spec : AttemptSpec) (root : Text) (now : ℕ) → Call
  call_attempt_running : (id : ℕ) (t : Terminal) (now : ℕ) → Call
  call_attempt_switched :
      (id : ℕ) (t : Terminal) (to model effort : Text) (requested : Bool) (now : ℕ) → Call
  call_end_attempt : (id : ℕ) (to : AttemptStatus) (reason screen : Text) (now : ℕ) → Call
  call_clean_attempt : (id : ℕ) (why : Text) (now : ℕ) → Call
  call_keep_attempt : (id : ℕ) (reason : Text) (now : ℕ) → Call
  call_note_attempt : (id : ℕ) (kind detail : Text) (now : ℕ) → Call
  call_set_attempt_model : (id : ℕ) (model effort : Text) (now : ℕ) → Call
  call_ask : (task_id : ℕ) (question : Text) (now : ℕ) → Call
  call_answer : (id : ℕ) (text by : Text) (now : ℕ) → Call
  call_withdraw : (id now : ℕ) → Call
  call_set_plan : (task_id : ℕ) (text : Text) (now : ℕ) → Call
  call_add_report : (attempt_id : ℕ) (status body : Text) (now : ℕ) → Call
  call_ack_report : (id : ℕ) (by : Text) (now : ℕ) → Call
  call_record_quiet : (id : ℕ) (api_error : Text) (now : ℕ) → Call
  call_add_timer : (spec : TimerSpec) (now at : ℕ) → Call
  call_fire_timers : (now : ℕ) → Call
  call_cancel_timer : (id at : ℕ) → Call
  call_add_supervisor : (spec : SupervisorSpec) (now : ℕ) → Call
  call_supervisor_running : (id : ℕ) (t : Terminal) (now : ℕ) → Call
  call_end_supervisor : (id : ℕ) (to : AttemptStatus) (reason : Text) (now : ℕ) → Call
  call_set_supervisor_switch : (id : ℕ) (model effort : Text) (now : ℕ) → Call
  call_cancel_supervisor_switch : (id now : ℕ) → Call
  call_set_supervisor_session : (id : ℕ) (session : Text) (now : ℕ) → Call
  call_set_supervisor_model : (id : ℕ) (model effort : Text) (now : ℕ) → Call
  call_advance_wake_cursor : (id seq now : ℕ) → Call
  call_note_supervisor : (id : ℕ) (kind detail : Text) (now : ℕ) → Call
  call_add_supervisor_input : (text : Text) (now : ℕ) → Call
  call_deliver_supervisor_input : (id : ℕ) (typed : Bool) (now : ℕ) → Call
  call_add_project : (clean stored : Text → Text) (name repo settings : Text) (now : ℕ) → Call
  call_adopt_project : (name settings : Text) (now : ℕ) → Call
  call_trust_project : (name settings : Text) (now : ℕ) → Call
  call_add_grant : (project harness pattern : Text) (now : ℕ) → Call
  call_remove_grant : (project : Text) (id now : ℕ) → Call
  call_create_fleet : (random_id home name : Text) (now : ℕ) → Call
  call_rename_fleet : (name : Text) (now : ℕ) → Call
  call_add_device : (name login secret_hash phone : Text) (now : ℕ) → Call
  call_revoke_device : (id now : ℕ) → Call
  call_revoke_phone : (label : Text) (now : ℕ) → Call
  call_note_luvus : (now : ℕ) (kind detail : Text) → Call
  call_inbox_pruned : (now : ℕ) (detail : Text) → Call
  call_gc_removed : (now : ℕ) (detail : Text) → Call

-- The result of a method is its own affair; whether it failed is not.
abbrev pub forget : {A : Type 0} → M A → M (Unit {0})
forget m = m >>= λ _. pure tt

unfoldable pub perform : Call → M (Unit {0})
perform (Call.call_add_task project title goal now) = forget (add_task project title goal now)
perform (Call.call_transition id to delivered now) = forget (transition id to delivered now)
perform (Call.call_deliver id refs now) = forget (deliver id refs now)
perform (Call.call_add_attempt spec root now) = forget (add_attempt spec root now)
perform (Call.call_attempt_running id t now) = forget (attempt_running id t now)
perform (Call.call_attempt_switched id t to model effort requested now) =
    forget (attempt_switched id t to model effort requested now)
perform (Call.call_end_attempt id to reason screen now) =
    forget (end_attempt id to reason screen now)
perform (Call.call_clean_attempt id why now) = forget (clean_attempt id why now)
perform (Call.call_keep_attempt id reason now) = keep_attempt id reason now
perform (Call.call_note_attempt id kind detail now) = note_attempt id kind detail now
perform (Call.call_set_attempt_model id model effort now) = set_attempt_model id model effort now
perform (Call.call_ask task_id question now) = forget (ask task_id question now)
perform (Call.call_answer id text by now) = forget (answer id text by now)
perform (Call.call_withdraw id now) = forget (withdraw id now)
perform (Call.call_set_plan task_id text now) = forget (set_plan task_id text now)
perform (Call.call_add_report attempt_id status body now) =
    forget (add_report attempt_id status body now)
perform (Call.call_ack_report id by now) = forget (ack_report id by now)
perform (Call.call_record_quiet id api_error now) = forget (record_quiet id api_error now)
perform (Call.call_add_timer spec now at) = forget (add_timer spec now at)
perform (Call.call_fire_timers now) = forget (fire_timers now)
perform (Call.call_cancel_timer id at) = forget (cancel_timer id at)
perform (Call.call_add_supervisor spec now) = forget (add_supervisor spec now)
perform (Call.call_supervisor_running id t now) = forget (supervisor_running id t now)
perform (Call.call_end_supervisor id to reason now) = forget (end_supervisor id to reason now)
perform (Call.call_set_supervisor_switch id model effort now) =
    forget (set_supervisor_switch id model effort now)
perform (Call.call_cancel_supervisor_switch id now) = forget (cancel_supervisor_switch id now)
perform (Call.call_set_supervisor_session id session now) = set_supervisor_session id session now
perform (Call.call_set_supervisor_model id model effort now) =
    set_supervisor_model id model effort now
perform (Call.call_advance_wake_cursor id seq now) = advance_wake_cursor id seq now
perform (Call.call_note_supervisor id kind detail now) = note_supervisor id kind detail now
perform (Call.call_add_supervisor_input text now) = forget (add_supervisor_input text now)
perform (Call.call_deliver_supervisor_input id typed now) = deliver_supervisor_input id typed now
perform (Call.call_add_project clean stored name repo settings now) =
    forget (add_project clean stored name repo settings now)
perform (Call.call_adopt_project name settings now) = forget (adopt_project name settings now)
perform (Call.call_trust_project name settings now) = trust_project name settings now
perform (Call.call_add_grant project harness pattern now) =
    forget (add_grant project harness pattern now)
perform (Call.call_remove_grant project id now) = forget (remove_grant project id now)
perform (Call.call_create_fleet random_id home name now) =
    forget (create_fleet random_id home name now)
perform (Call.call_rename_fleet name now) = forget (rename_fleet name now)
perform (Call.call_add_device name login secret_hash phone now) =
    forget (add_device name login secret_hash phone now)
perform (Call.call_revoke_device id now) = forget (revoke_device id now)
perform (Call.call_revoke_phone label now) = forget (revoke_phone label now)
perform (Call.call_note_luvus now kind detail) = note_luvus now kind detail
perform (Call.call_inbox_pruned now detail) = inbox_pruned now detail
perform (Call.call_gc_removed now detail) = gc_removed now detail

-- One call: the database that it leaves, whatever the driver's COMMIT answers.
unfoldable pub step : Option Error → Call → Db → Db
unfolding tx
step commit_error c db = (tx commit_error (perform c) db).1

-- The databases that calls lead to from an empty one.
pub data Reachable : Db → Type 0 where
  start : Reachable empty_db
  after :
      {db : Db}
      → Reachable db
      → (commit_error : Option Error) (c : Call) → Reachable (step commit_error c db)

-- The databases that calls lead to from `before`.
pub data Later (before : Db) : Db → Type 0 where
  at_once : Later before before
  next :
      {db : Db}
      → Later before db
      → (commit_error : Option Error) (call : Call) → Later before (step commit_error call db)
