-- ===== src/State/Transition.antt =====
-- internal/state/task.go, Transition: when a task may move, and what the move does.
use hand.Base.{
  All-imp, Bool-cases, List, Text, UniqueKeys, [], arith, count_where, count_where-none, false,
  find, inl, inr, length, not, refl, some, sym, text_eq, true, ℕ, ◌&&◌, ◌==◌, ◌↔◌, ◌∙◌, ◌∷◌, ◌≡◌,
  ◌≢◌,
}
use hand.State.Schema.{Db, Task, TaskStatus}
use hand.State.Transactions.{
  Holds, bind-Holds, exec-Holds, pure-Holds, query-Holds, refuse-Holds, refuse_last-Holds,
  require-Holds, row-Holds,
}
use hand.State.Transactions.Success.{
  Succeeds, bind-Succeeds, exec-Succeeds, held, pure-Succeeds, query-Succeeds, refuse-Succeeds,
  refuse_last-Succeeds, require-Succeeds, row-Succeeds,
}
use hand.State.Statuses.{
  contains_status, is_finished, read_task_status, task_status_eq, task_status_text, transitions,
}
use hand.State.Tasks.{check_transition, has_unread_report, live_attempt, task_of, transition}
use hand.State.Consistency.{Consistent, task_id_of}

-- What must hold for the task `t` to become `to` with these deliverables.
pub record MayMove (db : Db) (id : ℕ) (t : Task) (to : TaskStatus) (delivered : List Text)
    : Type 0 where
  pub follows : contains_status (transitions t.status) to ≡ true
  pub none_live : is_finished to ≡ true → live_attempt id db ≡ 0
  pub none_unread : to ≡ TaskStatus.done → has_unread_report id db ≡ false
  pub done_delivers : to ≢ TaskStatus.done → delivered ≡ []

status_eq : (a b : TaskStatus) → task_status_eq a b ≡ true → a ≡ b
status_eq TaskStatus.inbox TaskStatus.inbox h = refl
status_eq TaskStatus.active TaskStatus.active h = refl
status_eq TaskStatus.done TaskStatus.done h = refl
status_eq TaskStatus.abandoned TaskStatus.abandoned h = refl
status_eq _ _ h = ground arith

status_eq_refl : (a : TaskStatus) → task_status_eq a a ≡ true
status_eq_refl TaskStatus.inbox = refl
status_eq_refl TaskStatus.active = refl
status_eq_refl TaskStatus.done = refl
status_eq_refl TaskStatus.abandoned = refl

pub read-text : (s : TaskStatus) → read_task_status (task_status_text s) ≡ some s
unfolding read_task_status text_eq
read-text TaskStatus.inbox = refl
read-text TaskStatus.active = refl
read-text TaskStatus.done = refl
read-text TaskStatus.abandoned = refl

length-zero : {A : Type 0} (xs : List A) → (length xs == 0) ≡ true → xs ≡ []
length-zero [] h = refl
length-zero (x ∷ xs) h = ground arith

-- The key finds one row, and so the update affects one.
count-found :
    (id : ℕ) (ts : List Task) (t : Task)
    → UniqueKeys task_id_of ts
    → find (λ (x : Task). x.id == id) ts ≡ some t
    → count_where (λ (x : Task). x.id == id && task_status_eq x.status t.status) ts ≡ 1
count-found id [] t u e = cc
count-found id (x ∷ xs) t u e = elim (Bool-cases (x.id == id)) [
  | inl q ↦
      let same : x ≡ t = some_inj x t (rw q at e) in
      let others : count_where (λ (y : Task). y.id == id && task_status_eq y.status t.status) xs
          ≡ 0 =
        count_where-none _ xs
          (All-imp (λ y. task_id_of y ≢ task_id_of x) _ xs (λ y n. ground arith) u.0) in
      ground (arith, status_eq_refl t.status, others)
  | inr q ↦ ground (arith, count-found id xs t u.1 (rw q at e))
]
  where
    some_inj : (a b : Task) → some a ≡ some b → a ≡ b
    some_inj a b h = cc

module _ (db : Db) (id : ℕ) (t : Task) (s : TaskStatus) (delivered : List Text)
    (may : MayMove db id t s delivered) where
  check-Succeeds : Succeeds (check_transition id t.status s db)
  unfolding check_transition
  check-Succeeds = refuse-Succeeds _ _ _ _ (ground (arith, may.follows)) (
      query-Succeeds _ _ _ (
        refuse-Succeeds _ _ _ _ (ground (arith, may.none_live)) (
          query-Succeeds _ _ _ (
            refuse_last-Succeeds _ _ _
              (ground (arith, may.none_unread, status_eq s TaskStatus.done))))))

  delivers-passes : (not (length delivered == 0) && not (task_status_eq s TaskStatus.done)) ≡ false
  delivers-passes = elim (Bool-cases (task_status_eq s TaskStatus.done)) [
    | inl e ↦ ground arith
    | inr e ↦
        let none_given : delivered ≡ [] =
          may.done_delivers (λ q. absurd (ground (arith, status_eq_refl s, rw q at e))) in
        rw none_given (ground arith)
  ]

guards :
    (id : ℕ) (t : Task) (s : TaskStatus) (delivered : List Text) (db : Db)
    → contains_status (transitions t.status) s ≡ true
    → (is_finished s ≡ true → live_attempt id db ≡ 0)
    → (s ≡ TaskStatus.done → has_unread_report id db ≡ false)
    → (not (length delivered == 0) && not (task_status_eq s TaskStatus.done)) ≡ false
    → MayMove db id t s delivered
guards id t s delivered db follows none_live none_unread delivers = record {
  follows = follows;
  none_live = none_live;
  none_unread = none_unread;
  done_delivers = λ n. length-zero delivered (elim (Bool-cases (task_status_eq s TaskStatus.done)) [
    | inl e ↦ absurd (n (status_eq s TaskStatus.done e))
    | inr e ↦ ground arith
  ]);
}

some_task_inj : (a b : Task) → some a ≡ some b → a ≡ b
some_task_inj a b h = cc

pub some_status_inj : (a b : TaskStatus) → some a ≡ some b → a ≡ b
some_status_inj a b h = cc

pub check_guards :
    (id : ℕ) (from s : TaskStatus) (db : Db)
    → Holds
        (λ _ db'.
          (db' ≡ db)
          × (contains_status (transitions from) s ≡ true)
          × (is_finished s ≡ true → live_attempt id db ≡ 0)
          × (s ≡ TaskStatus.done → has_unread_report id db ≡ false))
        (check_transition id from s db)
unfolding check_transition
check_guards id from s db = refuse-Holds _ _ _ _ λ follows. query-Holds _ _ _ (
    refuse-Holds _ _ _ _ λ live. query-Holds _ _ _ (
      refuse_last-Holds _ _ _ λ unread.
        (refl, ground arith, λ fin. ground arith, λ done. ground (arith, rw done at unread))))

transition_guards :
    (id : ℕ) (s : TaskStatus) (delivered : List Text) (now : ℕ) (db : Db) (t : Task)
    → task_of id db ≡ some t
    → Holds
        (λ _ _. MayMove db id t s delivered)
        (transition id (task_status_text s) delivered now db)
unfolding transition
transition_guards id s delivered now db t found = require-Holds _ _ _ _ λ s' read.
    refuse-Holds _ _ _ _ λ delivers. row-Holds _ _ _ _ λ t' found'.
      bind-Holds _ _ _ _ (check_guards id t'.status s' db) λ _ db' g. query-Holds _ _ _ (
        refuse-Holds _ _ _ _ λ _. exec-Holds _ _ _ (
          pure-Holds _ _ (
            rw
              (
                some_status_inj s s' (sym (read-text s) ∙ read),
                some_task_inj t t' (sym found ∙ found'),
              )
              (guards id t' s' delivered db g.1 g.2 g.3 delivers))))

-- In a consistent database, a task that is there becomes `s`, with these deliverables, exactly when `s` follows its status, it
-- has no live attempt if `s` finishes it, no unread report if `s` is done, and deliverables are
-- given for done alone.
pub transition_iff :
    (id : ℕ) (s : TaskStatus) (delivered : List Text) (now : ℕ) (db : Db) (t : Task)
    → Consistent db
    → task_of id db ≡ some t
    → Succeeds (transition id (task_status_text s) delivered now db) ↔ MayMove db id t s delivered
unfolding transition
transition_iff id s delivered now db t c found = (
  λ ok_there. held _ (transition_guards id s delivered now db t found) ok_there,
  λ may.
      let check = check-Succeeds db id t s delivered may in
      let same : check.1 ≡ db = (held _ (check_guards id t.status s db) check).0 in
      require-Succeeds _ _ _ _ s (read-text s) (
        refuse-Succeeds _ _ _ _ (delivers-passes db id t s delivered may) (
          row-Succeeds _ _ _ _ t found (
            bind-Succeeds _ _ _ check (
              rw same (
                query-Succeeds _ _ _ (
                  refuse-Succeeds _ _ _ _ (rw (count-found id db.tasks t c.tasks_unique found) refl)
                    (exec-Succeeds _ _ _ (pure-Succeeds _ _)))))))),
)
