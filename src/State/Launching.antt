-- ===== src/State/Launching.antt =====
-- internal/state/attempt.go, AddAttempt: what an attempt that was added is.
use hand.Base.{
  All, All-imp, All-of, All-update, Bool-cases, List, Text, [], arith, false, inl, inr, is_empty,
  length, max_of, max_of-bounds, not, refl, some, text_eq, ℕ, ◌&&◌, ◌++◌, ◌<◌, ◌==◌, ◌∙◌, ◌∷◌, ◌≡◌,
  ◌≢◌, ◌≤◌,
}
use hand.State.Schema.{Access, Approve, Attempt, AttemptStatus, Db, TaskStatus, Timer}
use hand.State.Transactions.{
  Holds, bind-Holds, exec-Holds, pure-Holds, query-Holds, refuse-Holds, require-Holds, row-Holds,
}
use hand.State.Tasks.{cancel_waits, is_wait_of, live_attempt, status_of}
use hand.State.Launches.{
  AttemptSpec, add_attempt, announce_attempt, insert_attempt, new_attempt, next_attempt_id,
}
use hand.State.Attempts.{opencode}
use hand.State.Consistency.Statuses.{find-status}
use hand.State.Consistency.Events.{cancel_where-SameCore, cancelled_rows}
use hand.State.Consistency.Launches.{continued_branch-Holds, launch_argv-Holds}

-- The attempt and the table that AddAttempt leaves.
pub record Launched (spec : AttemptSpec) (db : Db) (a : Attempt) (db' : Db) : Type 0 where
  pub appended : db'.attempts ≡ db.attempts ++ a ∷ []
  pub launching : a.status ≡ AttemptStatus.launching
  pub of_task : a.task_id ≡ spec.task_id
  pub on_active : status_of spec.task_id db.tasks ≡ some TaskStatus.active
  pub none_live : live_attempt spec.task_id db ≡ 0
  pub fresh : All (λ (x : Attempt). x.id < a.id) db.attempts
  pub waits_cancelled : All (λ (t : Timer). is_wait_of spec.task_id t ≡ false) db'.timers
  pub has_command : a.argv ≢ []

module _ (a : Attempt) (now : ℕ) (db : Db) where
  -- Announcing an attempt leaves the table of attempts, and no wait of its task.
  announced_attempts : (announce_attempt a now db).attempts ≡ db.attempts
  unfolding announce_attempt cancel_waits
  announced_attempts =
      let same = (cancel_where-SameCore (is_wait_of a.task_id) a.task_id now db).attempts in
      elim (Bool-cases (text_eq a.harness opencode && not (is_empty a.model))) [
        | inl e ↦ rw e same
        | inr e ↦ rw e same
      ]

  announced_timers :
      (announce_attempt a now db).timers ≡ cancelled_rows (is_wait_of a.task_id) now db.timers
  unfolding announce_attempt cancel_waits
  announced_timers =
      let same = (cancel_where-SameCore (is_wait_of a.task_id) a.task_id now db).timers in
      elim (Bool-cases (text_eq a.harness opencode && not (is_empty a.model))) [
        | inl e ↦ rw e same
        | inr e ↦ rw e same
      ]

no_waits :
    (task_id now : ℕ) (ts : List Timer)
    → All (λ (t : Timer). is_wait_of task_id t ≡ false) (cancelled_rows (is_wait_of task_id) now ts)
no_waits task_id now ts =
    All-update (λ _. Unit {0}) (λ (t : Timer). is_wait_of task_id t ≡ false) (is_wait_of task_id) _
      ts (λ t _ _. ground arith) (λ t _ miss. miss) (All-of _ ts (λ _. tt))

not_empty : (argv : List Text) → (length argv == 0) ≡ false → argv ≢ []
not_empty argv h e = ground (arith, rw e at h)

module _ (spec : AttemptSpec) (approve : Approve) (access : Access) (now : ℕ) (argv : List Text)
    (worktree branch : Text) (db : Db) where
  launched :
      status_of spec.task_id db.tasks ≡ some TaskStatus.active
      → live_attempt spec.task_id db ≡ 0
      → (length argv == 0) ≡ false
      → (let a = new_attempt spec approve access now (next_attempt_id db) argv worktree branch in
          Launched spec db a (announce_attempt a now (insert_attempt a db)))
  unfolding new_attempt insert_attempt
  launched on_active none_live given =
      let a = new_attempt spec approve access now (next_attempt_id db) argv worktree branch in
      record {
        appended = announced_attempts a now (insert_attempt a db);
        launching = refl;
        of_task = refl;
        on_active = on_active;
        none_live = none_live;
        fresh =
            All-imp (λ (x : Attempt). x.id ≤ max_of (λ (y : Attempt). y.id) db.attempts)
              (λ (x : Attempt). x.id < next_attempt_id db) db.attempts (λ x h. omega arith)
              (max_of-bounds (λ (y : Attempt). y.id) db.attempts);
        waits_cancelled =
            rw (announced_timers a now (insert_attempt a db)) (no_waits spec.task_id now db.timers);
        has_command = not_empty argv given;
      }

-- An attempt that AddAttempt adds is launching, belongs to the task that was asked for, which is
-- active and had no live attempt, has a key past those of all attempts and a command to run; it
-- is appended to the table, and no timer is left that the task waits on.
pub add_attempt-Launched :
    (spec : AttemptSpec) (root : Text) (now : ℕ) (db : Db)
    → Holds (λ a db'. Launched spec db a db') (add_attempt spec root now db)
unfolding add_attempt
add_attempt-Launched spec root now db = refuse-Holds _ _ _ _ λ _. require-Holds _ _ _ _ λ approve _.
    require-Holds _ _ _ _ λ access _. row-Holds _ _ _ _ λ t found. refuse-Holds _ _ _ _ λ active.
      bind-Holds _ _ _ _ (continued_branch-Holds spec.task_id spec.continues db) λ branch db₁ e₁.
        rw e₁ (
          query-Holds _ _ _ (
            refuse-Holds _ _ _ _ λ live. row-Holds _ _ _ _ λ fleet _. query-Holds _ _ _ (
              bind-Holds _ _ _ _ (launch_argv-Holds _ _ _ db) λ argv db₂ e₂. rw e₂ (
                refuse-Holds _ _ _ _ λ given. exec-Holds _ _ _ (
                  exec-Holds _ _ _ (
                    pure-Holds _ _ (
                      launched spec approve access now _ _ _ db
                        (find-status spec.task_id db.tasks found ∙ ground arith) (ground arith)
                        given)))))))
