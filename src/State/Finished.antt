-- ===== src/State/Finished.antt =====
-- What a finished task leaves behind, in every database that calls lead to.
use hand.Base.{
  All, All-imp, Bool-cases, List, [], arith, false, inl, inr, some, true, ℕ, ◌<◌, ◌∷◌, ◌≡◌,
}
use hand.State.Schema.{Attempt, Db, Decision, Report, Task, TaskStatus, Timer}
use hand.State.Statuses.{is_armed, is_finished, is_live, is_none, is_opened}
use hand.State.Tasks.{is_armed_of, is_live_of, is_open_of, is_unread_of, status_of}
use hand.State.Calls.{Reachable}
use hand.State.Consistency.{ArmedUnfinished, LiveActive, OpenUnfinished, UnreadNotDone, task_id_of}
use hand.State.Consistency.Calls.{Reachable-Consistent}

module _ (id : ℕ) (ts : List Task) (s : TaskStatus) (at_status : status_of id ts ≡ some s) where
  dead : (a : Attempt) → is_finished s ≡ true → LiveActive ts a → is_live_of id a ≡ false
  dead a fin h = elim (Bool-cases (is_live_of id a)) [
    | inr e ↦ e
    | inl e ↦
        let same : a.task_id ≡ id = ground arith in
        let live : is_live a.status ≡ true = ground arith in
        absurd (ground (arith, rw same at (h live), at_status))
  ]

  closed : (d : Decision) → is_finished s ≡ true → OpenUnfinished ts d → is_open_of id d ≡ false
  closed d fin h = elim (Bool-cases (is_open_of id d)) [
    | inr e ↦ e
    | inl e ↦
        let same : d.task_id ≡ id = ground arith in
        let opened : is_opened d.status ≡ true = ground arith in
        absurd (ground (arith, rw same at (h opened), at_status))
  ]

  disarmed :
      (t : Timer) → 0 < id → is_finished s ≡ true → ArmedUnfinished ts t → is_armed_of id t ≡ false
  disarmed t positive fin h = elim (Bool-cases (is_armed_of id t)) [
    | inr e ↦ e
    | inl e ↦
        let same : t.task_id ≡ id = ground arith in
        let armed : is_armed t.status ≡ true = ground arith in
        absurd (ground (arith, rw same at (h armed), at_status))
  ]

  read : (r : Report) → s ≡ TaskStatus.done → UnreadNotDone ts r → is_unread_of id r ≡ false
  read r e h = elim (Bool-cases (is_unread_of id r)) [
    | inr q ↦ q
    | inl q ↦
        let same : r.task_id ≡ id = ground arith in
        let unread : is_none r.acked_at ≡ true = ground arith in
        absurd (ground (arith, rw same at (h unread), rw e at at_status))
  ]

-- The key of a task is not 0.
positive_key :
    (id : ℕ) (ts : List Task) (s : TaskStatus)
    → status_of id ts ≡ some s
    → All (λ t. 0 < task_id_of t) ts
    → 0 < id
positive_key id [] s e h = cc
positive_key id (t ∷ ts) s e h = ground (arith, h.0, positive_key id ts s, h.1)

-- In every database that calls lead to, a task that is done or abandoned has no live attempt, no
-- open decision and no armed timer, and a task that is done has no report that was not read.
pub finished_task_settled :
    (id : ℕ) (db : Db) (s : TaskStatus)
    → Reachable db
    → status_of id db.tasks ≡ some s
    → is_finished s ≡ true
    → All (λ a. is_live_of id a ≡ false) db.attempts
      × All (λ d. is_open_of id d ≡ false) db.decisions
      × All (λ t. is_armed_of id t ≡ false) db.timers
      × (s ≡ TaskStatus.done → All (λ r. is_unread_of id r ≡ false) db.reports)
finished_task_settled id db s r at_status fin =
    let c = Reachable-Consistent db r in
    let positive = positive_key id db.tasks s at_status c.task_ids in
    (
      All-imp (LiveActive db.tasks) _ db.attempts (λ a h. dead id db.tasks s at_status a fin h)
          c.live_active,
      All-imp (OpenUnfinished db.tasks) _ db.decisions
          (λ d h. closed id db.tasks s at_status d fin h) c.open_unfinished,
      All-imp (ArmedUnfinished db.tasks) _ db.timers
          (λ t h. disarmed id db.tasks s at_status t positive fin h) c.armed_unfinished,
      λ e.
          All-imp (UnreadNotDone db.tasks) _ db.reports (λ x h. read id db.tasks s at_status x e h)
            c.unread_not_done,
    )
