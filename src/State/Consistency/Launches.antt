-- ===== src/State/Consistency/Launches.antt =====
-- AddAttempt keeps the store consistent: the attempt that it adds is the task's only live one.
use hand.Base.{
  ==_iff, All, All-append, Bool-cases, List, Option, Result, Text, UniqueKeys-append_next, [],
  arith, count_where, count_where-append, count_where-none, false, inl, inr, none, refl, some,
  subst, suc, zero, ℕ, ◌++◌, ◌<◌, ◌==◌, ◌∙◌, ◌∷◌, ◌≡◌, ◌≤◌,
}
use hand.State.Schema.{Access, Approve, Attempt, Db, TaskStatus}
use hand.State.Transactions.{
  Holds, bind-Holds, exec-Holds, lift_last-Holds, pure-Holds, query-Holds, refuse-Holds,
  require-Holds, row-Holds,
}
use hand.State.Tasks.{is_live_of, status_of}
use hand.State.Launches.{
  AttemptSpec, add_attempt, announce_attempt, continued_branch, insert_attempt, launch_argv,
  new_attempt, next_attempt_id,
}
use hand.State.Consistency.{Consistent, LiveActive, attempt_id_of}
use hand.State.Consistency.Statuses.{find-status}
use hand.State.Consistency.Events.{cancel_waits-Consistent}
use hand.State.Consistency.Tasks.{live_attempt-zero}
use hand.State.Consistency.Attempts.{emitted, optional_event}

module _ (db : Db) (a : Attempt) (id_next : a.id ≡ next_attempt_id db)
    (on_active : status_of a.task_id db.tasks ≡ some TaskStatus.active)
    (none_live : All (λ x. is_live_of a.task_id x ≡ false) db.attempts) (c : Consistent db) where
  one_more : (task_id : ℕ) → count_where (is_live_of task_id) (db.attempts ++ a ∷ []) ≤ 1
  one_more task_id = elim (Bool-cases (a.task_id == task_id)) [
    | inl e ↦
        let same : a.task_id ≡ task_id = (==_iff a.task_id task_id).0 e in
        let none_there : count_where (is_live_of task_id) db.attempts ≡ 0 =
          subst (λ k. count_where (is_live_of k) db.attempts ≡ 0) same
            (count_where-none (is_live_of a.task_id) db.attempts none_live) in
        ground (arith, none_there, count_where-append (is_live_of task_id) db.attempts (a ∷ []))
    | inr n ↦
        ground
          (arith, c.one_live task_id, count_where-append (is_live_of task_id) db.attempts (a ∷ []))
  ]

  insert_attempt-Consistent : Consistent (insert_attempt a db)
  unfolding insert_attempt
  insert_attempt-Consistent = record {
    task_ids = c.task_ids;
    tasks_unique = c.tasks_unique;
    attempt_ids =
        All-append (λ a. 0 < attempt_id_of a) db.attempts (a ∷ []) c.attempt_ids (omega arith, tt);
    attempts_unique = UniqueKeys-append_next attempt_id_of db.attempts a id_next c.attempts_unique;
    live_active =
        All-append (LiveActive db.tasks) db.attempts (a ∷ []) c.live_active ((λ _. on_active), tt);
    one_live = one_more;
    open_unfinished = c.open_unfinished;
    armed_unfinished = c.armed_unfinished;
    armed_capped = c.armed_capped;
    unread_not_done = c.unread_not_done;
  }

announce_attempt-Consistent :
    (a : Attempt) (now : ℕ) (db : Db) → Consistent db → Consistent (announce_attempt a now db)
unfolding announce_attempt
announce_attempt-Consistent a now db c =
    optional_event _ now _ _ _ _ (emitted now _ _ _ _ (cancel_waits-Consistent a.task_id now db c))

-- These read and do not write.
pub continued_branch-Holds :
    (task_id continues : ℕ) (db : Db)
    → Holds (λ _ db'. db' ≡ db) (continued_branch task_id continues db)
unfolding continued_branch
continued_branch-Holds task_id zero db = pure-Holds _ _ refl
continued_branch-Holds task_id (suc n) db = row-Holds _ _ _ _ λ prev _.
    refuse-Holds _ _ _ _
      λ _. refuse-Holds _ _ _ _ λ _. refuse-Holds _ _ _ _ λ _. pure-Holds _ _ refl

pub launch_argv-Holds :
    (build : Option (Text → Result (List Text))) (argv : List Text) (worktree : Text) (db : Db)
    → Holds (λ _ db'. db' ≡ db) (launch_argv build argv worktree db)
unfolding launch_argv
launch_argv-Holds none argv worktree db = pure-Holds _ _ refl
launch_argv-Holds (some build) argv worktree db = lift_last-Holds _ _ λ a. refl

module _ (spec : AttemptSpec) (approve : Approve) (access : Access) (now : ℕ) (argv : List Text)
    (worktree branch : Text) (db : Db) where
  launched-Consistent :
      status_of spec.task_id db.tasks ≡ some TaskStatus.active
      → All (λ x. is_live_of spec.task_id x ≡ false) db.attempts
      → Consistent db
      → (let a = new_attempt spec approve access now (next_attempt_id db) argv worktree branch in
          Consistent (announce_attempt a now (insert_attempt a db)))
  unfolding new_attempt
  launched-Consistent on_active none_live c =
      announce_attempt-Consistent _ now _
        (insert_attempt-Consistent db _ refl on_active none_live c)

pub add_attempt-Consistent :
    (spec : AttemptSpec) (root : Text) (now : ℕ) (db : Db)
    → Consistent db
    → Holds (λ _ db'. Consistent db') (add_attempt spec root now db)
unfolding add_attempt
add_attempt-Consistent spec root now db c = refuse-Holds _ _ _ _ λ _.
    require-Holds _ _ _ _ λ approve _. require-Holds _ _ _ _ λ access _.
      row-Holds _ _ _ _ λ t found. refuse-Holds _ _ _ _ λ active.
        bind-Holds _ _ _ _ (continued_branch-Holds spec.task_id spec.continues db) λ branch db₁ e₁.
          rw e₁ (
            query-Holds _ _ _ (
              refuse-Holds _ _ _ _ λ live. row-Holds _ _ _ _ λ fleet _. query-Holds _ _ _ (
                bind-Holds _ _ _ _ (launch_argv-Holds _ _ _ db) λ argv db₂ e₂. rw e₂ (
                  refuse-Holds _ _ _ _ λ _. exec-Holds _ _ _ (
                    exec-Holds _ _ _ (
                      pure-Holds _ _ (
                        launched-Consistent spec approve access now _ _ _ db
                          (find-status spec.task_id db.tasks found ∙ ground arith)
                          (live_attempt-zero spec.task_id db c (ground arith)) c)))))))
