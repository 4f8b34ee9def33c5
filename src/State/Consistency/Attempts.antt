-- ===== src/State/Consistency/Attempts.antt =====
-- The operations on attempts keep the store consistent.
use hand.Base.{
  ==_iff, All, All-imp, All-imp₂, All-update, Bool, Bool-cases, Text, UniqueKeys-update, arith,
  codes, count_where-update_le_of, false, find-only, find-true, find-update, if◌then◌else◌, inl,
  inr, not, refl, some, subst, sym, text_eq, true, ℕ, ◌&&◌, ◌++◌, ◌<◌, ◌==◌, ◌||◌, ◌≡◌,
}
use hand.State.Schema.{Attempt, AttemptStatus, Db, Terminal}
use hand.State.Transactions.{
  Holds, exec-Holds, exec_last-Holds, pure-Holds, refuse-Holds, row-Holds,
}
use hand.State.Refs.{attempt_ref, noted}
use hand.State.Statuses.{is_live, is_none}
use hand.State.Events.{append_event}
use hand.State.Tasks.{is_live_of}
use hand.State.Attempts.{
  attempt_of, attempt_running, attempt_switched, clean_attempt, end_attempt, keep_attempt,
  model_changed, set_attempt_model, update_attempt,
}
use hand.State.Consistency.{Consistent, LiveActive, SameCore-Consistent, attempt_id_of}
use hand.State.Consistency.Events.{append_event-SameCore}

-- A row of an attempt may change in all but its keys, if it does not come to life.
module _ (id : ℕ) (f : Attempt → Attempt) (db : Db) (a : Attempt)
    (found : attempt_of id db ≡ some a)
    (same_id : (x : Attempt) → attempt_id_of (f x) ≡ attempt_id_of x)
    (same_task : (x : Attempt) → (f x).task_id ≡ x.task_id)
    (stays_dead : is_live (f a).status ≡ true → is_live a.status ≡ true) (c : Consistent db) where
  only : All (λ x. attempt_id_of x ≡ id → x ≡ a) db.attempts
  only = find-only attempt_id_of id db.attempts a c.attempts_unique found

  revived :
      (x : Attempt)
      → (attempt_id_of x ≡ id → x ≡ a)
      → (x.id == id) ≡ true
      → is_live (f x).status ≡ true
      → is_live x.status ≡ true
  revived x unique hit live =
      let e : x ≡ a = unique ((==_iff x.id id).0 hit) in rw e (stays_dead (rw e at live))

  pub update_attempt-Consistent : Consistent (update_attempt id f db)
  unfolding update_attempt
  update_attempt-Consistent = record {
    task_ids = c.task_ids;
    tasks_unique = c.tasks_unique;
    attempt_ids =
        All-update (λ a. 0 < attempt_id_of a) (λ a. 0 < attempt_id_of a) _ f db.attempts
          (λ x h _. rw (same_id x) h) (λ x h _. h) c.attempt_ids;
    attempts_unique = UniqueKeys-update attempt_id_of _ f db.attempts same_id c.attempts_unique;
    live_active =
        All-update (λ x. LiveActive db.tasks x × (attempt_id_of x ≡ id → x ≡ a))
          (LiveActive db.tasks) (λ (x : Attempt). x.id == id) f db.attempts
          (λ x h hit. λ live. rw (same_task x) (h.0 (revived x h.1 hit live))) (λ x h _. h.0)
          (All-imp₂ (LiveActive db.tasks) (λ x. attempt_id_of x ≡ id → x ≡ a)
            (λ x. LiveActive db.tasks x × (attempt_id_of x ≡ id → x ≡ a)) db.attempts
            (λ x h k. (h, k)) c.live_active only);
    one_live = λ task_id. omega (
      arith,
      c.one_live task_id,
      count_where-update_le_of (is_live_of task_id) (λ (x : Attempt). x.id == id) f db.attempts
          (All-imp (λ x. attempt_id_of x ≡ id → x ≡ a)
            (λ x.
              (x.id == id) ≡ true → is_live_of task_id (f x) ≡ true → is_live_of task_id x ≡ true)
            db.attempts (λ x unique hit p. ground (arith, same_task x, revived x unique hit)) only),
    );
    open_unfinished = c.open_unfinished;
    armed_unfinished = c.armed_unfinished;
    armed_capped = c.armed_capped;
    unread_not_done = c.unread_not_done;
  }

pub emitted :
    (at : ℕ) (kind : Text) (task_id : ℕ) (detail : Text) (db : Db)
    → Consistent db
    → Consistent (append_event at kind task_id detail db)
emitted at kind task_id detail db c =
    SameCore-Consistent _ _ (append_event-SameCore at kind task_id detail db) c

pub attempt_running-Consistent :
    (id : ℕ) (t : Terminal) (now : ℕ) (db : Db)
    → Consistent db
    → Holds (λ _ db'. Consistent db') (attempt_running id t now db)
unfolding attempt_running
attempt_running-Consistent id t now db c = row-Holds _ _ _ _ λ a found.
    refuse-Holds _ _ _ _ λ launching. exec-Holds _ _ _ (
      exec-Holds _ _ _ (
        pure-Holds _ _ (
          emitted now _ _ _ _ (
            update_attempt-Consistent id _ db a found (λ x. refl) (λ x. refl) (λ _. ground arith)
              c))))

module _ (now : ℕ) (a : Attempt) (model effort : Text) (db : Db) where
  pub model_changed-Consistent :
      (x : Attempt)
      → attempt_of a.id db ≡ some x
      → Consistent db
      → Consistent (model_changed now a model effort db)
  unfolding model_changed
  model_changed-Consistent x found c =
      elim (Bool-cases (text_eq a.model model && text_eq a.effort effort)) [
        | inl e ↦ rw e c
        | inr e ↦ rw e (
            emitted now _ _ _ _
              (update_attempt-Consistent a.id _ db x found (λ x. refl) (λ x. refl) (λ h. h) c))
      ]

pub end_attempt-Consistent :
    (id : ℕ) (to : AttemptStatus) (reason screen : Text) (now : ℕ) (db : Db)
    → Consistent db
    → Holds (λ _ db'. Consistent db') (end_attempt id to reason screen now db)
unfolding end_attempt
end_attempt-Consistent id to reason screen now db c = row-Holds _ _ _ _ λ a found.
    refuse-Holds _ _ _ _ λ allowed. exec-Holds _ _ _ (
      exec-Holds _ _ _ (
        pure-Holds _ _ (
          emitted now _ _ _ _ (
            update_attempt-Consistent id _ db a found (λ x. refl) (λ x. refl) (λ _. ground arith)
              c))))

pub clean_attempt-Consistent :
    (id : ℕ) (why : Text) (now : ℕ) (db : Db)
    → Consistent db
    → Holds (λ _ db'. Consistent db') (clean_attempt id why now db)
unfolding clean_attempt
clean_attempt-Consistent id why now db c = row-Holds _ _ _ _ λ a found. refuse-Holds _ _ _ _ λ _.
    refuse-Holds _ _ _ _ λ _. exec-Holds _ _ _ (
      exec-Holds _ _ _ (
        pure-Holds _ _ (
          emitted now _ _ _ _
            (update_attempt-Consistent id _ db a found (λ x. refl) (λ x. refl) (λ h. h) c))))

pub keep_attempt-Consistent :
    (id : ℕ) (reason : Text) (now : ℕ) (db : Db)
    → Consistent db
    → Holds (λ _ db'. Consistent db') (keep_attempt id reason now db)
unfolding keep_attempt
keep_attempt-Consistent id reason now db c = row-Holds _ _ _ _ λ a found.
    elim (Bool-cases (text_eq a.kept reason || not (is_none a.cleaned_at))) [
      | inl e ↦ rw e (pure-Holds _ _ c)
      | inr e ↦ rw e (
          exec-Holds _ _ _ (
            exec_last-Holds _ _ (
              emitted now _ _ _ _
                (update_attempt-Consistent id _ db a found (λ x. refl) (λ x. refl) (λ h. h) c))))
    ]

-- The key of the row that a key finds.
pub found_id : (id : ℕ) (db : Db) {a : Attempt} → attempt_of id db ≡ some a → a.id ≡ id
found_id id db {a} found =
    (==_iff a.id id).0 (find-true (λ (x : Attempt). x.id == id) db.attempts found)

-- A row is found by its own key.
pub found_self :
    (id : ℕ) (db : Db) {a : Attempt} → attempt_of id db ≡ some a → attempt_of a.id db ≡ some a
found_self id db {a} found =
    subst (λ k. attempt_of k db ≡ some a) (sym (found_id id db found)) found

pub set_attempt_model-Consistent :
    (id : ℕ) (model effort : Text) (now : ℕ) (db : Db)
    → Consistent db
    → Holds (λ _ db'. Consistent db') (set_attempt_model id model effort now db)
unfolding set_attempt_model
set_attempt_model-Consistent id model effort now db c = row-Holds _ _ _ _ λ a found.
    elim (Bool-cases (is_live a.status)) [
      | inl e ↦ rw e (
          exec_last-Holds _ _
            (model_changed-Consistent now a model effort db a (found_self id db found) c))
      | inr e ↦ rw e (pure-Holds _ _ c)
    ]

module _ (id : ℕ) (t : Terminal) (now : ℕ) (kind detail : Text) (a : Attempt) (db : Db) where
  -- The database once the new terminal is written and announced.
  abbrev pub switched : Db
  switched =
      append_event now kind a.task_id detail
        (update_attempt id (λ (r : Attempt). record r { terminal = t }) db)

  switched-Consistent : attempt_of id db ≡ some a → Consistent db → Consistent switched
  switched-Consistent found c =
      emitted now _ _ _ _
        (update_attempt-Consistent id _ db a found (λ x. refl) (λ x. refl) (λ h. h) c)

  pub switched_found :
      attempt_of id db ≡ some a → attempt_of a.id switched ≡ some (record a { terminal = t })
  unfolding append_event update_attempt
  switched_found found =
      subst (λ k. attempt_of k switched ≡ some (record a { terminal = t }))
        (sym (found_id id db found))
        (find-update (λ (x : Attempt). x.id == id) (λ (r : Attempt). record r { terminal = t })
          db.attempts (λ y. refl) found)

pub optional_event :
    (test : Bool) (now : ℕ) (kind : Text) (task_id : ℕ) (detail : Text) (db : Db)
    → Consistent db
    → Consistent (if test then append_event now kind task_id detail db else db)
optional_event true now kind task_id detail db c = emitted now kind task_id detail db c
optional_event false now kind task_id detail db c = c

pub attempt_switched-Consistent :
    (id : ℕ) (t : Terminal) (to model effort : Text) (requested : Bool) (now : ℕ) (db : Db)
    → Consistent db
    → Holds (λ _ db'. Consistent db') (attempt_switched id t to model effort requested now db)
unfolding attempt_switched
attempt_switched-Consistent id t to model effort requested now db c = row-Holds _ _ _ _ λ a found.
    refuse-Holds _ _ _ _ λ _. exec-Holds _ _ _ (
      exec-Holds _ _ _ (
        exec-Holds _ _ _ (
          exec-Holds _ _ _ (
            pure-Holds _ _ (
              optional_event _ now _ _ _ _ (
                model_changed-Consistent now a model effort _ _
                  (switched_found id t now (codes "attempt.switched")
                    (noted (attempt_ref id) (to ++ codes ", pane " ++ t.pane_id)) a db found)
                  (switched-Consistent id t now _ _ a db found c)))))))
