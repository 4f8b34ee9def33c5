-- ===== src/State/Scenarios/Endings.antt =====
-- The theorems on what ends once, tried.
use hand.Base.{
  All, Bool, Result, Text, [], codes, conflict, err, false, ok, refl, some, true, ℕ, ◌<◌, ◌↔◌, ◌∷◌,
  ◌≡◌, ◌≢◌, ◌≤◌,
}
use hand.State.Schema.{
  Attempt, AttemptStatus, Db, DecisionStatus, Supervisor, SupervisorInput, Timer, TimerStatus,
  empty_db,
}
use hand.State.Transactions.{Holds, ◌>>=◌}
use hand.State.Transactions.Success.{Succeeds}
use hand.State.Statuses.{is_live}
use hand.State.Inputs.{deliver_supervisor_input, is_pending}
use hand.State.Attempts.{attempt_of, end_attempt}
use hand.State.Decisions.{close_decision, decision_of, set_plan}
use hand.State.Reports.{ack_report, report_of}
use hand.State.Timers.{cancel_timer, fire_timers, timer_of}
use hand.State.Supervisors.{add_supervisor, advance_wake_cursor, supervisor_of}
use hand.State.Fired.{Fired, Pairs, fire_timers_settles}
use hand.State.Endings.{
  MayEnd, ack_report_once, cancel_timer_once, close_decision_once, end_attempt_iff,
  end_attempt_once, ended_row,
}
use hand.State.Firing.{is_armed_due}
use hand.State.Waking.{
  advance_wake_cursor_iff, advance_wake_cursor_once, deliver_supervisor_input_once,
}
use hand.State.Scenarios.{boss, busy, calm, label, next_boss, secret, wanted, worker}
use hand.State.Tasks.{transition}
use hand.State.Launches.{add_attempt}
use hand.State.Devices.{add_device, revoke_phone}

end_attempt_iff_example :
    (Succeeds (end_attempt 1 AttemptStatus.exited (codes "done") [] 11 busy)
      ↔ MayEnd worker.status AttemptStatus.exited)
    × Holds
        (λ _ db'.
          (attempt_of 1 db' ≡ some (ended_row AttemptStatus.exited (codes "done") [] 11 worker))
          × ((other : ℕ) (b : Attempt)
              → other ≢ 1
              → attempt_of other busy ≡ some b
              → attempt_of other db' ≡ some b))
        (end_attempt 1 AttemptStatus.exited (codes "done") [] 11 busy)
end_attempt_iff_example =
    end_attempt_iff 1 AttemptStatus.exited (codes "done") [] 11 busy worker refl

end_attempt_once_example :
    Holds
      (λ a db'.
        (attempt_of 1 db' ≡ some a)
        × (is_live a.status ≡ false)
        × ((to' : AttemptStatus) (reason' screen' : Text) (now' : ℕ)
            → end_attempt 1 to' reason' screen' now' db' ≡ err conflict))
      (end_attempt 1 AttemptStatus.exited (codes "done") (codes "bye") 11 busy)
end_attempt_once_example =
    end_attempt_once 1 AttemptStatus.exited (codes "done") (codes "bye") 11 busy

close_decision_once_example :
    Holds
      (λ d db'.
        (decision_of 1 db' ≡ some d)
        × (d.status ≡ DecisionStatus.answered)
        × (d.answer ≡ codes "Yes")
        × ((to' : DecisionStatus) (text' by' : Text) (now' : ℕ)
            → close_decision 1 to' text' by' now' db' ≡ err conflict))
      (close_decision 1 DecisionStatus.answered (codes "Yes") (codes "me") 11 busy)
close_decision_once_example =
    close_decision_once 1 DecisionStatus.answered (codes "Yes") (codes "me") 11 busy refl

ack_report_once_example :
    Holds
      (λ r db'.
        (report_of 1 db' ≡ some r)
        × (r.acked_at ≡ some 11)
        × (r.acked_by ≡ codes "me")
        × ((now' : ℕ) → ack_report 1 (codes "me") now' db' ≡ err conflict))
      (ack_report 1 (codes "me") 11 busy)
ack_report_once_example = ack_report_once 1 (codes "me") 11 busy

cancel_timer_once_example :
    Holds
      (λ t db'.
        ((u : Timer) × (timer_of 1 db' ≡ some u) × (u.status ≡ TimerStatus.cancelled))
        × ((at' : ℕ) → cancel_timer 1 at' db' ≡ err conflict))
      (cancel_timer 1 11 busy)
cancel_timer_once_example = cancel_timer_once 1 11 busy

fire_timers_settles_example :
    (s : Succeeds (fire_timers 200 busy)) × All
      (λ (u : Timer). is_armed_due 200 u ≡ false)
      s.1.timers
    × Pairs (Fired 200) busy.timers s.1.timers
fire_timers_settles_example = fire_timers_settles 200 busy (tt, tt)

advance_wake_cursor_iff_example : Succeeds (advance_wake_cursor 1 4 11 busy) ↔ (3 < 4)
advance_wake_cursor_iff_example = advance_wake_cursor_iff 1 4 11 busy boss refl

advance_wake_cursor_once_example :
    Holds
      (λ _ db'.
        ((s : Supervisor) × (supervisor_of 1 db' ≡ some s) × (s.wake_cursor ≡ 4))
        × ((seq' now' : ℕ) → seq' ≤ 4 → advance_wake_cursor 1 seq' now' db' ≡ err conflict))
      (advance_wake_cursor 1 4 11 busy)
advance_wake_cursor_once_example = advance_wake_cursor_once 1 4 11 busy

deliver_supervisor_input_once_example :
    Holds
      (λ _ db'.
        All (λ (i : SupervisorInput). is_pending 1 i ≡ false) db'.inputs
        × ((typed' : Bool) (now' : ℕ) → deliver_supervisor_input 1 typed' now' db' ≡ err conflict))
      (deliver_supervisor_input 1 true 11 busy)
deliver_supervisor_input_once_example = deliver_supervisor_input_once 1 true 11 busy

abbrev succeeded : {A : Type 0} → Result (A × Db) → Bool
succeeded (ok a) = true
succeeded (err e) = false

-- The operations that the theorems here are tried on do succeed there.
busy_successes :
    (succeeded (end_attempt 1 AttemptStatus.exited (codes "done") (codes "bye") 11 busy) ≡ true)
    × (succeeded (close_decision 1 DecisionStatus.answered (codes "Yes") (codes "me") 11 busy)
        ≡ true)
    × (succeeded (ack_report 1 (codes "me") 11 busy) ≡ true)
    × (succeeded (cancel_timer 1 11 busy) ≡ true)
    × (succeeded (advance_wake_cursor 1 4 11 busy) ≡ true)
    × (succeeded (deliver_supervisor_input 1 true 11 busy) ≡ true)
    × (succeeded (set_plan 1 (codes "Look first.") 11 busy) ≡ true)
    × (succeeded (add_attempt wanted (codes "/w") 11 calm) ≡ true)
    × (succeeded (transition 1 (codes "done") (codes "r1" ∷ []) 11 calm) ≡ true)
    × (succeeded (add_supervisor next_boss 11 empty_db) ≡ true)
    × (succeeded (add_device (codes "Tablet") [] secret [] 11 busy) ≡ true)
    × (succeeded (revoke_phone label 11 busy) ≡ true)
unfolding end_attempt close_decision ack_report cancel_timer advance_wake_cursor
    deliver_supervisor_input set_plan add_attempt transition add_supervisor add_device revoke_phone
    ◌>>=◌
busy_successes = (refl, refl, refl, refl, refl, refl, refl, refl, refl, refl, refl, refl)
