-- ===== src/State/Consistency/Moves.antt =====
-- A task may become finished once nothing that lives, is open, is armed or is unread hangs on it.
use hand.Base.{
  All, All-update, Bool-cases, List, UniqueKeys-update, [], arith, false, inl, inr, refl, some,
  true, ℕ, ◌<◌, ◌∷◌, ◌≡◌,
}
use hand.State.Schema.{Attempt, Db, Decision, Report, Task, TaskStatus, Timer}
use hand.State.Statuses.{contains_status, is_finished, task_status_eq, transitions}
use hand.State.Tasks.{is_armed_of, is_live_of, is_open_of, is_unread_of, set_task_status, status_of}
use hand.State.Consistency.{
  ArmedUnfinished, Consistent, LiveActive, OpenUnfinished, UnreadNotDone, task_id_of,
}
use hand.State.Consistency.Statuses.{moved_tasks, status_of-moved}

module _ (id : ℕ) (from to : TaskStatus) (now : ℕ) (ts : List Task)
    (at_from : status_of id ts ≡ some from)
    (allowed : contains_status (transitions from) to ≡ true) where
  moved-LiveActive :
      (xs : List Attempt)
      → (is_finished to ≡ true → All (λ a. is_live_of id a ≡ false) xs)
      → All (LiveActive ts) xs
      → All (LiveActive (moved_tasks id from to now ts)) xs
  moved-LiveActive [] none_live h = tt
  moved-LiveActive (a ∷ xs) none_live h = (
    λ live. elim (Bool-cases (is_finished to)) [
      | inl fin ↦
          ground
            (arith, status_of-moved id from to now a.task_id ts at_from, none_live fin, h.0 live)
      | inr not_fin ↦ ground (arith, status_of-moved id from to now a.task_id ts at_from, h.0 live)
    ],
    moved-LiveActive xs (λ fin. (none_live fin).1) h.1,
  )

  moved-OpenUnfinished :
      (xs : List Decision)
      → (is_finished to ≡ true → All (λ d. is_open_of id d ≡ false) xs)
      → All (OpenUnfinished ts) xs
      → All (OpenUnfinished (moved_tasks id from to now ts)) xs
  moved-OpenUnfinished [] none_open h = tt
  moved-OpenUnfinished (d ∷ xs) none_open h = (
    λ opened. elim (Bool-cases (is_finished to)) [
      | inl fin ↦
          ground
            (arith, status_of-moved id from to now d.task_id ts at_from, none_open fin, h.0 opened)
      | inr not_fin ↦
          ground (arith, status_of-moved id from to now d.task_id ts at_from, h.0 opened)
    ],
    moved-OpenUnfinished xs (λ fin. (none_open fin).1) h.1,
  )

  moved-ArmedUnfinished :
      (xs : List Timer)
      → (is_finished to ≡ true → All (λ t. is_armed_of id t ≡ false) xs)
      → All (ArmedUnfinished ts) xs
      → All (ArmedUnfinished (moved_tasks id from to now ts)) xs
  moved-ArmedUnfinished [] none_armed h = tt
  moved-ArmedUnfinished (t ∷ xs) none_armed h = (
    λ armed. elim (Bool-cases (is_finished to)) [
      | inl fin ↦
          ground
            (arith, status_of-moved id from to now t.task_id ts at_from, none_armed fin, h.0 armed)
      | inr not_fin ↦ ground (arith, status_of-moved id from to now t.task_id ts at_from, h.0 armed)
    ],
    moved-ArmedUnfinished xs (λ fin. (none_armed fin).1) h.1,
  )

  moved-UnreadNotDone :
      (xs : List Report)
      → (task_status_eq to TaskStatus.done ≡ true → All (λ r. is_unread_of id r ≡ false) xs)
      → All (UnreadNotDone ts) xs
      → All (UnreadNotDone (moved_tasks id from to now ts)) xs
  moved-UnreadNotDone [] none_unread h = tt
  moved-UnreadNotDone (r ∷ xs) none_unread h = (
    λ unread. elim (Bool-cases (task_status_eq to TaskStatus.done)) [
      | inl fin ↦
          ground (
            arith,
            status_of-moved id from to now r.task_id ts at_from,
            none_unread fin,
            h.0 unread,
          )
      | inr not_fin ↦
          ground (arith, status_of-moved id from to now r.task_id ts at_from, h.0 unread)
    ],
    moved-UnreadNotDone xs (λ fin. (none_unread fin).1) h.1,
  )

module _ (id : ℕ) (from to : TaskStatus) (now : ℕ) (db : Db)
    (at_from : status_of id db.tasks ≡ some from)
    (allowed : contains_status (transitions from) to ≡ true)
    (none_live : is_finished to ≡ true → All (λ a. is_live_of id a ≡ false) db.attempts)
    (none_open : is_finished to ≡ true → All (λ d. is_open_of id d ≡ false) db.decisions)
    (none_armed : is_finished to ≡ true → All (λ t. is_armed_of id t ≡ false) db.timers)
    (none_unread : task_status_eq to TaskStatus.done ≡ true
      → All (λ r. is_unread_of id r ≡ false) db.reports)
    (c : Consistent db) where
  pub set_task_status-Consistent : Consistent (set_task_status id from to now db)
  set_task_status-Consistent = record {
    task_ids =
        All-update (λ t. 0 < task_id_of t) (λ t. 0 < task_id_of t) _ _ db.tasks (λ t h e. h)
          (λ t h e. h) c.task_ids;
    tasks_unique = UniqueKeys-update task_id_of _ _ db.tasks (λ t. refl) c.tasks_unique;
    attempt_ids = c.attempt_ids;
    attempts_unique = c.attempts_unique;
    live_active =
        moved-LiveActive id from to now db.tasks at_from allowed db.attempts none_live
          c.live_active;
    one_live = c.one_live;
    open_unfinished =
        moved-OpenUnfinished id from to now db.tasks at_from allowed db.decisions none_open
          c.open_unfinished;
    armed_unfinished =
        moved-ArmedUnfinished id from to now db.tasks at_from allowed db.timers none_armed
          c.armed_unfinished;
    armed_capped = c.armed_capped;
    unread_not_done =
        moved-UnreadNotDone id from to now db.tasks at_from allowed db.reports none_unread
          c.unread_not_done;
  }
