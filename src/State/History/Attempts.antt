-- ===== src/State/History/Attempts.antt =====
-- The operations on attempts keep what is finished, closed, read or ended as it is.
use hand.Base.{
  Bool, Bool-cases, Text, arith, codes, false, inl, inr, not, refl, some, text_eq, true, ℕ, ◌&&◌,
  ◌++◌, ◌||◌, ◌≡◌,
}
use hand.State.Schema.{Attempt, AttemptStatus, Db, Terminal}
use hand.State.Transactions.{
  Holds, exec-Holds, exec_last-Holds, pure-Holds, refuse-Holds, row-Holds,
}
use hand.State.Statuses.{attempt_status_eq, is_live, is_none}
use hand.State.Attempts.{
  attempt_of, attempt_running, attempt_switched, clean_attempt, end_attempt, keep_attempt,
  model_changed, set_attempt_model,
}
use hand.State.Refs.{attempt_ref, noted}
use hand.State.Consistency.Attempts.{found_self, switched_found}
use hand.State.History.{Since, Since-trans}
use hand.State.History.Writes.{update_attempt-Since}
use hand.State.History.Tasks.{announced, itself, optional}

pub attempt_running-Since :
    (id : ℕ) (t : Terminal) (now : ℕ) (db : Db)
    → Holds (λ _ db'. Since db db') (attempt_running id t now db)
unfolding attempt_running
attempt_running-Since id t now db = row-Holds _ _ _ _ λ a found. refuse-Holds _ _ _ _ λ launching.
    exec-Holds _ _ _ (
      exec-Holds _ _ _ (
        pure-Holds _ _ (
          announced
            (update_attempt-Since id _ db a (λ y. refl) found (λ dead. absurd (ground arith))) _ _ _
            _)))

model_changed-Since :
    {before : Db} (now : ℕ) (a : Attempt) (model effort : Text) (db : Db) (x : Attempt)
    → attempt_of a.id db ≡ some x
    → is_live x.status ≡ true
    → Since before db
    → Since before (model_changed now a model effort db)
unfolding model_changed
model_changed-Since now a model effort db x found live s =
    elim (Bool-cases (text_eq a.model model && text_eq a.effort effort)) [
      | inl e ↦ rw e s
      | inr e ↦ rw e (
          announced
            (Since-trans s (
              update_attempt-Since a.id _ db x (λ y. refl) found
                (λ dead. absurd (ground (arith, live, dead)))))
            _ _ _ _)
    ]

pub set_attempt_model-Since :
    (id : ℕ) (model effort : Text) (now : ℕ) (db : Db)
    → Holds (λ _ db'. Since db db') (set_attempt_model id model effort now db)
unfolding set_attempt_model
set_attempt_model-Since id model effort now db = row-Holds _ _ _ _ λ a found.
    elim (Bool-cases (is_live a.status)) [
      | inl e ↦ rw e (
          exec_last-Holds _ _
            (model_changed-Since now a model effort db a (found_self id db found) e (itself db)))
      | inr e ↦ rw e (pure-Holds _ _ (itself db))
    ]

running_live :
    (s : AttemptStatus) → not (attempt_status_eq s AttemptStatus.running) ≡ false → is_live s ≡ true
running_live s h = ground arith

pub attempt_switched-Since :
    (id : ℕ) (t : Terminal) (to model effort : Text) (requested : Bool) (now : ℕ) (db : Db)
    → Holds (λ _ db'. Since db db') (attempt_switched id t to model effort requested now db)
unfolding attempt_switched
attempt_switched-Since id t to model effort requested now db = row-Holds _ _ _ _ λ a found.
    refuse-Holds _ _ _ _ λ running. exec-Holds _ _ _ (
      exec-Holds _ _ _ (
        exec-Holds _ _ _ (
          exec-Holds _ _ _ (
            pure-Holds _ _ (
              let live = running_live a.status running in
              optional _ now _ _ _ _ (
                model_changed-Since now a model effort _ (record a { terminal = t })
                  (switched_found id t now (codes "attempt.switched")
                    (noted (attempt_ref id) (to ++ codes ", pane " ++ t.pane_id)) a db found)
                  live
                  (announced
                    (update_attempt-Since id _ db a (λ y. refl) found
                      (λ dead. absurd (ground (arith, live, dead))))
                    _ _ _ _)))))))

pub end_attempt-Since :
    (id : ℕ) (to : AttemptStatus) (reason screen : Text) (now : ℕ) (db : Db)
    → Holds (λ _ db'. Since db db') (end_attempt id to reason screen now db)
unfolding end_attempt
end_attempt-Since id to reason screen now db = row-Holds _ _ _ _ λ a found.
    refuse-Holds _ _ _ _ λ allowed. exec-Holds _ _ _ (
      exec-Holds _ _ _ (
        pure-Holds _ _ (
          announced
            (update_attempt-Since id _ db a (λ y. refl) found (λ dead. absurd (ground arith))) _ _ _
            _)))

pub clean_attempt-Since :
    (id : ℕ) (why : Text) (now : ℕ) (db : Db)
    → Holds (λ _ db'. Since db db') (clean_attempt id why now db)
unfolding clean_attempt
clean_attempt-Since id why now db = row-Holds _ _ _ _ λ a found. refuse-Holds _ _ _ _ λ _.
    refuse-Holds _ _ _ _ λ _. exec-Holds _ _ _ (
      exec-Holds _ _ _ (
        pure-Holds _ _ (
          announced
            (update_attempt-Since id _ db a (λ y. refl) found
              (λ _. record {
                status = refl;
                reason = refl;
                ended_at = refl;
                screen = refl;
                terminal = refl;
                model = refl;
                effort = refl;
                task_id = refl;
                worktree = refl;
                branch = refl;
              }))
            _ _ _ _)))

pub keep_attempt-Since :
    (id : ℕ) (reason : Text) (now : ℕ) (db : Db)
    → Holds (λ _ db'. Since db db') (keep_attempt id reason now db)
unfolding keep_attempt
keep_attempt-Since id reason now db = row-Holds _ _ _ _ λ a found.
    elim (Bool-cases (text_eq a.kept reason || not (is_none a.cleaned_at))) [
      | inl e ↦ rw e (pure-Holds _ _ (itself db))
      | inr e ↦ rw e (
          exec-Holds _ _ _ (
            exec_last-Holds _ _ (
              announced
                (update_attempt-Since id _ db a (λ y. refl) found
                  (λ _. record {
                    status = refl;
                    reason = refl;
                    ended_at = refl;
                    screen = refl;
                    terminal = refl;
                    model = refl;
                    effort = refl;
                    task_id = refl;
                    worktree = refl;
                    branch = refl;
                  }))
                _ _ _ _)))
    ]
