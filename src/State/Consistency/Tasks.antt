-- ===== src/State/Consistency/Tasks.antt =====
-- AddTask, Transition and Deliver keep the store consistent.
use hand.Base.{
  All, All-append, All-imp, All-of, All-update, Bool-cases, List, Option-cases, Text,
  UniqueKeys-append_next, [], ap, arith, codes, exists_where-false, false, find, find-All,
  find-none, inl, inr, refl, some, true, ℕ, ◌++◌, ◌<◌, ◌∙◌, ◌∷◌, ◌≡◌,
}
use hand.State.Schema.{Db, Task, TaskStatus}
use hand.State.Transactions.{
  Holds, bind-Holds, exec-Holds, pure-Holds, query-Holds, refuse-Holds, refuse_last-Holds,
  require-Holds, row-Holds,
}
use hand.State.Statuses.{
  contains_status, is_finished, task_status_eq, task_status_text, transitions,
}
use hand.State.Events.{append_event}
use hand.State.Tasks.{
  add_task, append_delivered, apply_transition, cancel_timers, check_transition, insert_task,
  is_armed_of, is_live_of, is_open_of, is_unread_of, live_attempt, new_task, next_task_id,
  set_task_status, status_of, transition, withdraw_open,
}
use hand.State.Consistency.{
  ArmedUnfinished, Consistent, LiveActive, OpenUnfinished, SameCore, SameCore-Consistent,
  SameCore-trans, UnreadNotDone, attempt_id_of, is_not_done, is_unfinished, task_id_of,
}
use hand.State.Consistency.Statuses.{find-status, status_of-append}
use hand.State.Consistency.Events.{
  append_delivered-SameCore, append_event-SameCore, cancel_where-SameCore, cancelled-Consistent,
  cancelled_rows, withdraw_open-SameCore, withdrawn-Consistent, withdrawn_rows,
}
use hand.State.Consistency.Moves.{set_task_status-Consistent}

-- A task that is added changes the status of no other.
module _ (db : Db) (t : Task) (c : Consistent db) (id_next : t.id ≡ next_task_id db) where
  grown_unfinished :
      (id : ℕ)
      → is_unfinished (status_of id db.tasks) ≡ true
      → is_unfinished (status_of id (db.tasks ++ t ∷ [])) ≡ true
  grown_unfinished id h = elim (Option-cases (status_of id db.tasks)) [
    | inl e ↦ cc (rw e at h)
    | inr (s, e) ↦ rw (status_of-append id db.tasks t e) (rw e at h)
  ]

  grown_not_done :
      (id : ℕ)
      → is_not_done (status_of id db.tasks) ≡ true
      → is_not_done (status_of id (db.tasks ++ t ∷ [])) ≡ true
  grown_not_done id h = elim (Option-cases (status_of id db.tasks)) [
    | inl e ↦ cc (rw e at h)
    | inr (s, e) ↦ rw (status_of-append id db.tasks t e) (rw e at h)
  ]

  pub insert_task-Consistent : Consistent (insert_task t db)
  unfolding insert_task
  insert_task-Consistent = record {
    task_ids = All-append (λ t. 0 < task_id_of t) db.tasks (t ∷ []) c.task_ids (omega arith, tt);
    tasks_unique = UniqueKeys-append_next task_id_of db.tasks t id_next c.tasks_unique;
    attempt_ids = c.attempt_ids;
    attempts_unique = c.attempts_unique;
    live_active =
        All-imp (LiveActive db.tasks) (LiveActive (db.tasks ++ t ∷ [])) db.attempts
          (λ a h live. status_of-append a.task_id db.tasks t (h live)) c.live_active;
    one_live = c.one_live;
    open_unfinished =
        All-imp (OpenUnfinished db.tasks) (OpenUnfinished (db.tasks ++ t ∷ [])) db.decisions
          (λ d h o. grown_unfinished d.task_id (h o)) c.open_unfinished;
    armed_unfinished =
        All-imp (ArmedUnfinished db.tasks) (ArmedUnfinished (db.tasks ++ t ∷ [])) db.timers
          (λ w h o. ground (arith, h o, grown_unfinished w.task_id)) c.armed_unfinished;
    armed_capped = c.armed_capped;
    unread_not_done =
        All-imp (UnreadNotDone db.tasks) (UnreadNotDone (db.tasks ++ t ∷ [])) db.reports
          (λ r h o. grown_not_done r.task_id (h o)) c.unread_not_done;
  }

pub add_task-Consistent :
    (project title goal : Text) (now : ℕ) (db : Db)
    → Consistent db
    → Holds (λ _ db'. Consistent db') (add_task project title goal now db)
unfolding add_task new_task
add_task-Consistent project title goal now db c = refuse-Holds _ _ _ _ λ _. row-Holds _ _ _ _ λ _ _.
    query-Holds _ _ _ (
      exec-Holds _ _ _ (
        exec-Holds _ _ _ (
          pure-Holds _ _ (
            SameCore-Consistent _ _ (append_event-SameCore now _ _ _ _)
              (insert_task-Consistent db _ c refl)))))

pub live_attempt-zero :
    (id : ℕ) (db : Db)
    → Consistent db
    → live_attempt id db ≡ 0
    → All (λ a. is_live_of id a ≡ false) db.attempts
live_attempt-zero id db c e = elim (Option-cases (find (is_live_of id) db.attempts)) [
  | inl q ↦ find-none (is_live_of id) db.attempts q
  | inr (a, q) ↦
      let positive : 0 < a.id =
        find-All (λ a. 0 < attempt_id_of a) (is_live_of id) db.attempts q c.attempt_ids in
      absurd (omega (arith, rw (q, live_attempt) at e))
]

-- What has been closed of a task, before it moves.
abbrev pub closed : ℕ → ℕ → Db → Db
closed id now db = record db {
  decisions = withdrawn_rows id now db.decisions;
  timers = cancelled_rows (is_armed_of id) now db.timers;
}

module _ (id : ℕ) (from to : TaskStatus) (delivered : List Text) (now : ℕ) (db : Db) where
  unfoldable pub moved : Db
  moved = append_delivered id now delivered (
      append_event now (codes "task." ++ task_status_text to) id
        (task_status_text from ++ codes "->" ++ task_status_text to)
        (set_task_status id from to now db))

  pub moved-SameCore : SameCore (set_task_status id from to now db) moved
  unfolding moved
  moved-SameCore =
      SameCore-trans (append_event-SameCore now _ _ _ _)
        (append_delivered-SameCore id now delivered _)

  pub finished-SameCore :
      SameCore
        (set_task_status id from to now (closed id now db))
        (cancel_timers id now (withdraw_open id now moved))
  unfolding cancel_timers
  finished-SameCore =
      let withdrawn = withdraw_open-SameCore id now moved in
      let cancelled = cancel_where-SameCore (is_armed_of id) id now (withdraw_open id now moved) in
      record {
        tasks = cancelled.tasks ∙ withdrawn.tasks ∙ moved-SameCore.tasks;
        attempts = cancelled.attempts ∙ withdrawn.attempts ∙ moved-SameCore.attempts;
        decisions =
            cancelled.decisions
            ∙ withdrawn.decisions
            ∙ ap (withdrawn_rows id now) moved-SameCore.decisions;
        reports = cancelled.reports ∙ withdrawn.reports ∙ moved-SameCore.reports;
        timers =
            cancelled.timers
            ∙ ap (cancelled_rows (is_armed_of id) now) (withdrawn.timers ∙ moved-SameCore.timers);
      }

  -- What Transition writes is consistent once its checks have passed.
  pub apply_transition-Consistent :
      status_of id db.tasks ≡ some from
      → contains_status (transitions from) to ≡ true
      → (is_finished to ≡ true → All (λ a. is_live_of id a ≡ false) db.attempts)
      → (task_status_eq to TaskStatus.done ≡ true → All (λ r. is_unread_of id r ≡ false) db.reports)
      → Consistent db
      → Consistent (apply_transition id from to delivered now db)
  unfolding apply_transition moved
  apply_transition-Consistent at_from allowed none_live none_unread c =
      elim (Bool-cases (is_finished to)) [
        | inl fin ↦ rw fin (
            SameCore-Consistent _ _ finished-SameCore (
              set_task_status-Consistent id from to now (closed id now db) at_from allowed none_live
                (λ _.
                  All-update (λ _. Unit {0}) (λ d. is_open_of id d ≡ false) _ _ db.decisions
                    (λ d _ _. ground arith) (λ d _ e. e) (All-of _ db.decisions (λ _. tt)))
                (λ _.
                  All-update (λ _. Unit {0}) (λ t. is_armed_of id t ≡ false) _ _ db.timers
                    (λ t _ _. ground arith) (λ t _ e. e) (All-of _ db.timers (λ _. tt)))
                none_unread
                (cancelled-Consistent (is_armed_of id) now _ (withdrawn-Consistent id now db c))))
        | inr unfinished ↦ rw unfinished (
            SameCore-Consistent _ _ moved-SameCore (
              set_task_status-Consistent id from to now db at_from allowed none_live (λ e. cc)
                (λ e. cc) none_unread c))
      ]

-- The checks of Transition change nothing, and say what they have checked.
pub check_transition-Holds :
    (id : ℕ) (from to : TaskStatus) (db : Db)
    → Consistent db
    → Holds
        (λ _ db'.
          (db' ≡ db)
          × (contains_status (transitions from) to ≡ true)
          × (is_finished to ≡ true → All (λ a. is_live_of id a ≡ false) db.attempts)
          × (task_status_eq to TaskStatus.done ≡ true
              → All (λ r. is_unread_of id r ≡ false) db.reports))
        (check_transition id from to db)
unfolding check_transition
check_transition-Holds id from to db c = refuse-Holds _ _ _ _ λ allowed. query-Holds _ _ _ (
    refuse-Holds _ _ _ _ λ live. query-Holds _ _ _ (
      refuse_last-Holds _ _ _ λ unread. (
        refl,
        ground arith,
        λ fin. live_attempt-zero id db c (ground arith),
        λ done. exists_where-false (is_unread_of id) db.reports (ground arith),
      )))

pub transition-Consistent :
    (id : ℕ) (to : Text) (delivered : List Text) (now : ℕ) (db : Db)
    → Consistent db
    → Holds (λ _ db'. Consistent db') (transition id to delivered now db)
unfolding transition
transition-Consistent id to delivered now db c = require-Holds _ _ _ _ λ s _.
    refuse-Holds _ _ _ _ λ _. row-Holds _ _ _ _ λ t found.
      bind-Holds _ _ _ _ (check_transition-Holds id t.status s db c) λ _ db' h. query-Holds _ _ _ (
        refuse-Holds _ _ _ _ λ _. exec-Holds _ _ _ (
          pure-Holds _ _ (
            rw h.0 (
              apply_transition-Consistent id t.status s delivered now db
                (find-status id db.tasks found) h.1 h.2 h.3 c))))
