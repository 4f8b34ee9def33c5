-- ===== src/State/Consistency/Events.antt =====
-- Events touch none of the tables that the invariant reads, and closing rows of a task touches two.
use hand.Base.{
  map, select, All-update, Bool, List, Text, [], arith, codes, count_where-update_le, refl, some,
  update_where, ℕ, ◌∷◌,
}
use hand.State.Refs.{decision_ref, timer_ref}
use hand.State.Schema.{Db, Decision, DecisionStatus, Timer, TimerStatus}
use hand.State.Events.{append_closed, append_event}
use hand.State.Tasks.{
  append_delivered, cancel_waits, cancel_where, is_open_of, is_wait_of, withdraw_open,
}
use hand.State.Consistency.{
  ArmedUnfinished, Consistent, OpenUnfinished, SameCore, SameCore-Consistent, SameCore-refl,
  SameCore-trans, is_armed_timer,
}

pub append_event-SameCore :
    (at : ℕ) (kind : Text) (task_id : ℕ) (detail : Text) (db : Db)
    → SameCore db (append_event at kind task_id detail db)
unfolding append_event
append_event-SameCore at kind task_id detail db = record {
  tasks = refl;
  attempts = refl;
  decisions = refl;
  reports = refl;
  timers = refl;
}

pub append_closed-SameCore :
    (task_id now : ℕ) (kind : Text) (ref : ℕ → Text) (ids : List ℕ) (db : Db)
    → SameCore db (append_closed task_id now kind ref ids db)
unfolding append_closed
append_closed-SameCore task_id now kind ref [] db = SameCore-refl db
append_closed-SameCore task_id now kind ref (id ∷ ids) db =
    SameCore-trans (append_event-SameCore now kind task_id (ref id) db)
      (append_closed-SameCore task_id now kind ref ids (append_event now kind task_id (ref id) db))

pub append_delivered-SameCore :
    (id now : ℕ) (refs : List Text) (db : Db) → SameCore db (append_delivered id now refs db)
unfolding append_delivered
append_delivered-SameCore id now [] db = SameCore-refl db
append_delivered-SameCore id now (ref ∷ refs) db =
    SameCore-trans (append_event-SameCore now (codes "task.delivered") id ref db)
      (append_delivered-SameCore id now refs (append_event now (codes "task.delivered") id ref db))

-- The rows that `withdraw_open` and `cancel_where` leave, without their events.
abbrev pub withdrawn_rows : ℕ → ℕ → List Decision → List Decision
withdrawn_rows task_id now =
    update_where (is_open_of task_id)
      (λ (d : Decision). record d { status = DecisionStatus.withdrawn; closed_at = some now })

abbrev pub cancelled_rows : (Timer → Bool) → ℕ → List Timer → List Timer
cancelled_rows p now =
    update_where p (λ (t : Timer). record t { status = TimerStatus.cancelled; ended_at = some now })

pub withdraw_open-SameCore :
    (task_id now : ℕ) (db : Db)
    → SameCore
        (record db { decisions = withdrawn_rows task_id now db.decisions })
        (withdraw_open task_id now db)
unfolding withdraw_open
withdraw_open-SameCore task_id now db =
    append_closed-SameCore task_id now (codes "decision.withdrawn") decision_ref
      (map (λ (d : Decision). d.id) (select (is_open_of task_id) db.decisions)) _

pub cancel_where-SameCore :
    (p : Timer → Bool) (task_id now : ℕ) (db : Db)
    → SameCore
        (record db { timers = cancelled_rows p now db.timers })
        (cancel_where p task_id now db)
unfolding cancel_where
cancel_where-SameCore p task_id now db =
    append_closed-SameCore task_id now (codes "timer.cancelled") timer_ref
      (map (λ (t : Timer). t.id) (select p db.timers)) _

-- Cancelling timers keeps the invariant.
module _ (p : Timer → Bool) (now : ℕ) (db : Db) (c : Consistent db) where
  pub cancelled-Consistent : Consistent (record db { timers = cancelled_rows p now db.timers })
  cancelled-Consistent = record {
    task_ids = c.task_ids;
    tasks_unique = c.tasks_unique;
    attempt_ids = c.attempt_ids;
    attempts_unique = c.attempts_unique;
    live_active = c.live_active;
    one_live = c.one_live;
    open_unfinished = c.open_unfinished;
    armed_unfinished =
        All-update (ArmedUnfinished db.tasks) (ArmedUnfinished db.tasks) p _ db.timers
          (λ t h e. λ q. cc) (λ t h e. h) c.armed_unfinished;
    armed_capped = omega (
      arith,
      c.armed_capped,
      count_where-update_le is_armed_timer p
          (λ (t : Timer). record t { status = TimerStatus.cancelled; ended_at = some now })
          db.timers (λ t q r. cc),
    );
    unread_not_done = c.unread_not_done;
  }

module _ (task_id now : ℕ) (db : Db) (c : Consistent db) where
  pub withdrawn-Consistent :
      Consistent (record db { decisions = withdrawn_rows task_id now db.decisions })
  withdrawn-Consistent = record {
    task_ids = c.task_ids;
    tasks_unique = c.tasks_unique;
    attempt_ids = c.attempt_ids;
    attempts_unique = c.attempts_unique;
    live_active = c.live_active;
    one_live = c.one_live;
    open_unfinished =
        All-update (OpenUnfinished db.tasks) (OpenUnfinished db.tasks) (is_open_of task_id) _
          db.decisions (λ d h e. λ q. cc) (λ d h e. h) c.open_unfinished;
    armed_unfinished = c.armed_unfinished;
    armed_capped = c.armed_capped;
    unread_not_done = c.unread_not_done;
  }

  pub cancel_waits-Consistent : Consistent (cancel_waits task_id now db)
  unfolding cancel_waits
  cancel_waits-Consistent =
      SameCore-Consistent _ _ (cancel_where-SameCore (is_wait_of task_id) task_id now db)
        (cancelled-Consistent (is_wait_of task_id) now db c)
