-- ===== src/State/Log/Attempts.antt =====
-- The operations of attempt.go append to the log.
use hand.Base.{Bool, Bool-cases, List, Text, inl, inr, not, text_eq, ℕ, ◌&&◌, ◌||◌}
use hand.State.Schema.{Access, Approve, Attempt, AttemptStatus, Db, Terminal}
use hand.State.Transactions.{
  Holds, bind-Holds, exec-Holds, exec_last-Holds, pure-Holds, query-Holds, refuse-Holds,
  require-Holds, row-Holds,
}
use hand.State.Statuses.{is_live, is_none}
use hand.State.Tasks.{cancel_waits, is_wait_of}
use hand.State.Launches.{
  AttemptSpec, add_attempt, announce_attempt, insert_attempt, new_attempt, next_attempt_id,
}
use hand.State.Attempts.{
  attempt_running, attempt_switched, clean_attempt, end_attempt, keep_attempt, model_changed,
  note_attempt, set_attempt_model,
}
use hand.State.Log.{Sound, emitted_Sound, optional_Sound, write_Sound}
use hand.State.Log.Tasks.{cancel_where-Sound}
use hand.State.Consistency.Launches.{continued_branch-Holds, launch_argv-Holds}

announce_attempt-Sound :
    {before : Db} (a : Attempt) (now : ℕ) (db : Db)
    → Sound before db
    → Sound before (announce_attempt a now db)
unfolding announce_attempt cancel_waits
announce_attempt-Sound a now db l =
    optional_Sound _ now _ _ _ _
      (emitted_Sound (cancel_where-Sound (is_wait_of a.task_id) a.task_id now db l) _ _ _ _)

launched-Sound :
    {before : Db} (spec : AttemptSpec) (approve : Approve) (access : Access) (now : ℕ)
    (argv : List Text) (worktree branch : Text) (db : Db)
    → Sound before db
    → (let a = new_attempt spec approve access now (next_attempt_id db) argv worktree branch in
        Sound before (announce_attempt a now (insert_attempt a db)))
unfolding insert_attempt
launched-Sound spec approve access now argv worktree branch db l =
    announce_attempt-Sound _ now _ (write_Sound l)

pub add_attempt-Sound :
    {before : Db} (spec : AttemptSpec) (root : Text) (now : ℕ) (db : Db)
    → Sound before db
    → Holds (λ _ db'. Sound before db') (add_attempt spec root now db)
unfolding add_attempt
add_attempt-Sound spec root now db l = refuse-Holds _ _ _ _ λ _. require-Holds _ _ _ _ λ approve _.
    require-Holds _ _ _ _ λ access _. row-Holds _ _ _ _ λ t _. refuse-Holds _ _ _ _ λ _.
      bind-Holds _ _ _ _ (continued_branch-Holds spec.task_id spec.continues db) λ branch db₁ e₁.
        rw e₁ (
          query-Holds _ _ _ (
            refuse-Holds _ _ _ _ λ _. row-Holds _ _ _ _ λ fleet _. query-Holds _ _ _ (
              bind-Holds _ _ _ _ (launch_argv-Holds _ _ _ db) λ argv db₂ e₂. rw e₂ (
                refuse-Holds _ _ _ _ λ _. exec-Holds _ _ _ (
                  exec-Holds _ _ _
                    (pure-Holds _ _ (launched-Sound spec approve access now _ _ _ db l)))))))

pub attempt_running-Sound :
    {before : Db} (id : ℕ) (t : Terminal) (now : ℕ) (db : Db)
    → Sound before db
    → Holds (λ _ db'. Sound before db') (attempt_running id t now db)
unfolding attempt_running
attempt_running-Sound id t now db l = row-Holds _ _ _ _ λ a _. refuse-Holds _ _ _ _ λ _.
    exec-Holds _ _ _ (exec-Holds _ _ _ (pure-Holds _ _ (emitted_Sound (write_Sound l) _ _ _ _)))

pub model_changed-Sound :
    {before : Db} (now : ℕ) (a : Attempt) (model effort : Text) (db : Db)
    → Sound before db
    → Sound before (model_changed now a model effort db)
unfolding model_changed
model_changed-Sound now a model effort db l =
    elim (Bool-cases (text_eq a.model model && text_eq a.effort effort)) [
      | inl e ↦ rw e l
      | inr e ↦ rw e (emitted_Sound (write_Sound l) _ _ _ _)
    ]

pub attempt_switched-Sound :
    {before : Db} (id : ℕ) (t : Terminal) (to model effort : Text) (requested : Bool) (now : ℕ)
    (db : Db)
    → Sound before db
    → Holds (λ _ db'. Sound before db') (attempt_switched id t to model effort requested now db)
unfolding attempt_switched
attempt_switched-Sound id t to model effort requested now db l = row-Holds _ _ _ _ λ a _.
    refuse-Holds _ _ _ _ λ _. exec-Holds _ _ _ (
      exec-Holds _ _ _ (
        exec-Holds _ _ _ (
          exec-Holds _ _ _ (
            pure-Holds _ _ (
              optional_Sound _ now _ _ _ _ (
                model_changed-Sound now a model effort _
                  (emitted_Sound (write_Sound l) _ _ _ _)))))))

pub end_attempt-Sound :
    {before : Db} (id : ℕ) (to : AttemptStatus) (reason screen : Text) (now : ℕ) (db : Db)
    → Sound before db
    → Holds (λ _ db'. Sound before db') (end_attempt id to reason screen now db)
unfolding end_attempt
end_attempt-Sound id to reason screen now db l = row-Holds _ _ _ _ λ a _. refuse-Holds _ _ _ _ λ _.
    exec-Holds _ _ _ (exec-Holds _ _ _ (pure-Holds _ _ (emitted_Sound (write_Sound l) _ _ _ _)))

pub clean_attempt-Sound :
    {before : Db} (id : ℕ) (why : Text) (now : ℕ) (db : Db)
    → Sound before db
    → Holds (λ _ db'. Sound before db') (clean_attempt id why now db)
unfolding clean_attempt
clean_attempt-Sound id why now db l = row-Holds _ _ _ _ λ a _. refuse-Holds _ _ _ _ λ _.
    refuse-Holds _ _ _ _ λ _.
      exec-Holds _ _ _ (exec-Holds _ _ _ (pure-Holds _ _ (emitted_Sound (write_Sound l) _ _ _ _)))

pub keep_attempt-Sound :
    {before : Db} (id : ℕ) (reason : Text) (now : ℕ) (db : Db)
    → Sound before db
    → Holds (λ _ db'. Sound before db') (keep_attempt id reason now db)
unfolding keep_attempt
keep_attempt-Sound id reason now db l = row-Holds _ _ _ _ λ a _.
    elim (Bool-cases (text_eq a.kept reason || not (is_none a.cleaned_at))) [
      | inl e ↦ rw e (pure-Holds _ _ l)
      | inr e ↦
          rw e (exec-Holds _ _ _ (exec_last-Holds _ _ (emitted_Sound (write_Sound l) _ _ _ _)))
    ]

pub note_attempt-Sound :
    {before : Db} (id : ℕ) (kind detail : Text) (now : ℕ) (db : Db)
    → Sound before db
    → Holds (λ _ db'. Sound before db') (note_attempt id kind detail now db)
unfolding note_attempt
note_attempt-Sound id kind detail now db l =
    row-Holds _ _ _ _ λ a _. refuse-Holds _ _ _ _ λ _. exec_last-Holds _ _ (emitted_Sound l _ _ _ _)

pub set_attempt_model-Sound :
    {before : Db} (id : ℕ) (model effort : Text) (now : ℕ) (db : Db)
    → Sound before db
    → Holds (λ _ db'. Sound before db') (set_attempt_model id model effort now db)
unfolding set_attempt_model
set_attempt_model-Sound id model effort now db l = row-Holds _ _ _ _ λ a _.
    elim (Bool-cases (is_live a.status)) [
      | inl e ↦ rw e (exec_last-Holds _ _ (model_changed-Sound now a model effort db l))
      | inr e ↦ rw e (pure-Holds _ _ l)
    ]
