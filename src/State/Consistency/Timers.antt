-- ===== src/State/Consistency/Timers.antt =====
-- AddTimer, FireTimers and CancelTimer keep the store consistent.
use hand.Base.{
  All-append, All-update, Bool, Bool-cases, List, [], ap, arith, count_where-append,
  count_where-update_le, exists_where, false, inl, inr, leb, refl, some, suc, true, update_where,
  zero, ℕ, ◌==◌, ◌||◌, ◌∙◌, ◌∷◌, ◌≡◌,
}
use hand.State.Schema.{Db, Timer, TimerStatus}
use hand.State.Transactions.{
  Holds, bind-Holds, exec-Holds, pure-Holds, query-Holds, refuse-Holds, refuse_last-Holds,
  row-Holds,
}
use hand.State.Statuses.{is_armed}
use hand.State.Tasks.{status_of}
use hand.State.Timers.{
  TimerSpec, add_timer, armed_count, armed_timers, cancel_timer, fire_all, fire_one, fire_row,
  fire_timers, insert_timer, is_due, max_timers, new_timer, require_unfinished,
}
use hand.State.Consistency.{ArmedUnfinished, Consistent, is_armed_timer, is_unfinished}
use hand.State.Consistency.Statuses.{find-status}
use hand.State.Consistency.Attempts.{emitted}

orb-right : (a b : Bool) → b ≡ true → (a || b) ≡ true
orb-right a b h = ground arith

-- The task that a new timer hangs on is not finished.
pub require_unfinished-Holds :
    (task_id : ℕ) (db : Db)
    → Holds
        (λ _ db'.
          (db' ≡ db) × ((task_id == 0 || is_unfinished (status_of task_id db.tasks)) ≡ true))
        (require_unfinished task_id db)
unfolding require_unfinished
require_unfinished-Holds zero db = pure-Holds _ _ (refl, refl)
require_unfinished-Holds (suc n) db = row-Holds _ _ _ _ λ t found.
    refuse_last-Holds _ _ _ λ unfinished. (
      refl,
      orb-right (suc n == 0) _
          (ap is_unfinished (find-status (suc n) db.tasks found) ∙ ground arith),
    )

module _ (spec : TimerSpec) (now at id : ℕ) (db : Db) where
  insert_timer-Consistent :
      (spec.task_id == 0 || is_unfinished (status_of spec.task_id db.tasks)) ≡ true
      → leb max_timers (armed_count db) ≡ false
      → Consistent db
      → Consistent (insert_timer (new_timer spec now at id) db)
  unfolding insert_timer new_timer
  insert_timer-Consistent unfinished room c = record {
    task_ids = c.task_ids;
    tasks_unique = c.tasks_unique;
    attempt_ids = c.attempt_ids;
    attempts_unique = c.attempts_unique;
    live_active = c.live_active;
    one_live = c.one_live;
    open_unfinished = c.open_unfinished;
    armed_unfinished =
        All-append (ArmedUnfinished db.tasks) db.timers _ c.armed_unfinished
          ((λ _. unfinished), tt);
    armed_capped =
        ground (arith, count_where-append is_armed_timer db.timers (new_timer spec now at id ∷ []));
    unread_not_done = c.unread_not_done;
  }

pub add_timer-Consistent :
    (spec : TimerSpec) (now at : ℕ) (db : Db)
    → Consistent db
    → Holds (λ _ db'. Consistent db') (add_timer spec now at db)
unfolding add_timer
add_timer-Consistent spec now at db c = refuse-Holds _ _ _ _ λ _.
    bind-Holds _ _ _ _ (require_unfinished-Holds spec.task_id db) λ _ db' h. rw h.0 (
      query-Holds _ _ _ (
        refuse-Holds _ _ _ _ λ _. query-Holds _ _ _ (
          refuse-Holds _ _ _ _ λ room. query-Holds _ _ _ (
            exec-Holds _ _ _ (
              exec-Holds _ _ _ (
                pure-Holds _ _
                  (emitted at _ _ _ _ (insert_timer-Consistent spec now at _ db h.1 room c))))))))

-- A change of timers that arms none and moves none to another task keeps the invariant.
module _ (p : Timer → Bool) (f : Timer → Timer) (db : Db)
    (same_task : (t : Timer) → (f t).task_id ≡ t.task_id)
    (arms_none : (t : Timer) → is_armed (f t).status ≡ true → is_armed t.status ≡ true)
    (c : Consistent db) where
  pub timers-Consistent : Consistent (record db { timers = update_where p f db.timers })
  timers-Consistent = record {
    task_ids = c.task_ids;
    tasks_unique = c.tasks_unique;
    attempt_ids = c.attempt_ids;
    attempts_unique = c.attempts_unique;
    live_active = c.live_active;
    one_live = c.one_live;
    open_unfinished = c.open_unfinished;
    armed_unfinished =
        All-update (ArmedUnfinished db.tasks) (ArmedUnfinished db.tasks) p f db.timers
          (λ t h e. λ armed. rw (same_task t) (h (arms_none t armed))) (λ t h e. h)
          c.armed_unfinished;
    armed_capped = omega (
      arith,
      c.armed_capped,
      count_where-update_le is_armed_timer p f db.timers (λ t _ armed. arms_none t armed),
    );
    unread_not_done = c.unread_not_done;
  }

fire_row-task_id : (now : ℕ) (t u : Timer) → (fire_row now t u).task_id ≡ u.task_id
unfolding fire_row
fire_row-task_id now t u = ground arith

fire_row-arms_none :
    (now : ℕ) (t u : Timer) → is_armed (fire_row now t u).status ≡ true → is_armed u.status ≡ true
unfolding fire_row
fire_row-arms_none now t u h = ground arith

fire_one-Consistent :
    (now : ℕ) (t : Timer) (db : Db) → Consistent db → Consistent (fire_one now t db)
unfolding fire_one
fire_one-Consistent now t db c = emitted now _ _ _ _ (
    timers-Consistent (λ (u : Timer). u.id == t.id) (fire_row now t) db (fire_row-task_id now t)
      (fire_row-arms_none now t) c)

fire_all-Consistent :
    (now : ℕ) (ts : List Timer) (db : Db)
    → Consistent db
    → Holds (λ _ db'. Consistent db') (fire_all now ts db)
unfolding fire_all
fire_all-Consistent now [] db c = pure-Holds _ _ c
fire_all-Consistent now (t ∷ ts) db c = exec-Holds _ _ _ (
    bind-Holds _ _ _ _
      (fire_all-Consistent now ts (fire_one now t db) (fire_one-Consistent now t db c))
      λ fired db' h. pure-Holds _ _ h)

pub fire_timers-Consistent :
    (now : ℕ) (db : Db) → Consistent db → Holds (λ _ db'. Consistent db') (fire_timers now db)
unfolding fire_timers
fire_timers-Consistent now db c =
    query-Holds _ _ _ (elim (Bool-cases (exists_where (is_due now) (armed_timers db))) [
      | inl e ↦ rw e (fire_all-Consistent now _ db c)
      | inr e ↦ rw e (pure-Holds _ _ c)
    ])

pub cancel_timer-Consistent :
    (id at : ℕ) (db : Db) → Consistent db → Holds (λ _ db'. Consistent db') (cancel_timer id at db)
unfolding cancel_timer
cancel_timer-Consistent id at db c = row-Holds _ _ _ _ λ t _. refuse-Holds _ _ _ _ λ _.
    exec-Holds _ _ _ (
      exec-Holds _ _ _ (
        pure-Holds _ _ (
          emitted at _ _ _ _ (
            timers-Consistent (λ (t : Timer). t.id == id)
              (λ (t : Timer). record t { status = TimerStatus.cancelled; ended_at = some at }) db
              (λ t. refl) (λ t h. cc) c))))
