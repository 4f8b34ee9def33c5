-- ===== src/State/History/Writes.antt =====
-- The writes of single statements, and what they keep.
use hand.Base.{
  ==_iff, Bool, Bool-cases, List, arith, false, find, find-append, find-true, find-update_where,
  inl, inr, refl, some, subst, sym, true, update_where, ℕ, ◌&&◌, ◌++◌, ◌==◌, ◌∙◌, ◌≡◌,
}
use hand.State.Schema.{Attempt, Db, Decision, DecisionStatus, Task, TaskStatus, Timer}
use hand.State.Statuses.{contains_status, is_finished, is_live, task_status_eq, transitions}
use hand.State.Tasks.{is_open_of, set_task_status}
use hand.State.Attempts.{attempt_of, update_attempt}
use hand.State.Consistency.{task_id_of}
use hand.State.Consistency.Events.{withdrawn_rows}
use hand.State.History.{
  KeptEnds, KeptEnds-refl, KeptRows, SameEnd, SameEnd-refl, Since, decision_id_of, is_closed,
  is_finished_task,
}

module _ {A : Type 0} (key : A → ℕ) (frozen : A → Bool) where
  pub KeptRows-append : (xs ys : List A) → KeptRows key frozen xs (xs ++ ys)
  KeptRows-append xs ys = λ id x found fin. find-append (λ y. key y == id) xs ys found

  -- An update that passes the frozen rows over.
  pub KeptRows-update :
      (p : A → Bool) (f : A → A) (xs : List A)
      → ((y : A) → key (f y) ≡ key y)
      → ((x : A) → frozen x ≡ true → p x ≡ false)
      → KeptRows key frozen xs (update_where p f xs)
  KeptRows-update p f xs same passes = λ id x found fin.
      let there = find-update_where (λ y. key y == id) p f xs (λ y. rw (same y) refl) found in
      rw (passes x fin) at there

  -- An update of the row with one key, which is not frozen.
  pub KeptRows-update_key :
      (k : ℕ) (f : A → A) (xs : List A) (x₀ : A)
      → ((y : A) → key (f y) ≡ key y)
      → find (λ y. key y == k) xs ≡ some x₀
      → frozen x₀ ≡ false
      → KeptRows key frozen xs (update_where (λ y. key y == k) f xs)
  KeptRows-update_key k f xs x₀ same found₀ thawed = λ id x found fin.
      let there =
        find-update_where (λ y. key y == id) (λ y. key y == k) f xs (λ y. rw (same y) refl) found in
      elim (Bool-cases (key x == k)) [
        | inr miss ↦ rw miss at there
        | inl hit ↦
            let id_is : key x ≡ id =
              (==_iff (key x) id).0 (find-true (λ y. key y == id) xs found) in
            let k_is : key x ≡ k = (==_iff (key x) k).0 hit in
            let found' : find (λ y. key y == k) xs ≡ some x =
              subst (λ j. find (λ y. key y == j) xs ≡ some x) (sym id_is ∙ k_is) found in
            let same_row : x ≡ x₀ = some_row x x₀ (sym found' ∙ found₀) in
            absurd (ground (arith, rw same_row at fin, thawed))
      ]
    where
      some_row : (a b : A) → some a ≡ some b → a ≡ b
      some_row a b h = cc

-- An update of one attempt's row that leaves its end alone, if it has one.
pub KeptEnds-update :
    (k : ℕ) (f : Attempt → Attempt) (xs : List Attempt) (a₀ : Attempt)
    → ((y : Attempt) → (f y).id ≡ y.id)
    → find (λ (x : Attempt). x.id == k) xs ≡ some a₀
    → (is_live a₀.status ≡ false → SameEnd a₀ (f a₀))
    → KeptEnds xs (update_where (λ (x : Attempt). x.id == k) f xs)
KeptEnds-update k f xs a₀ same found₀ keeps = λ id a found dead.
    let there =
      find-update_where (λ (x : Attempt). x.id == id) (λ (x : Attempt). x.id == k) f xs
        (λ y. rw (same y) refl) found in
    elim (Bool-cases (a.id == k)) [
      | inr miss ↦ (a, rw miss at there, SameEnd-refl a)
      | inl hit ↦
          let id_is : a.id ≡ id =
            (==_iff a.id id).0 (find-true (λ (x : Attempt). x.id == id) xs found) in
          let k_is : a.id ≡ k = (==_iff a.id k).0 hit in
          let found' : find (λ (x : Attempt). x.id == k) xs ≡ some a =
            subst (λ j. find (λ (x : Attempt). x.id == j) xs ≡ some a) (sym id_is ∙ k_is) found in
          let same_row : a ≡ a₀ = some_row a a₀ (sym found' ∙ found₀) in
          (f a, rw hit at there, rw same_row (keeps (rw same_row at dead)))
    ]
  where
    some_row : (a b : Attempt) → some a ≡ some b → a ≡ b
    some_row a b h = cc

pub KeptEnds-append : (xs ys : List Attempt) → KeptEnds xs (xs ++ ys)
KeptEnds-append xs ys =
    λ id a found dead. (a, find-append (λ (x : Attempt). x.id == id) xs ys found, SameEnd-refl a)

-- `update_attempt`, as the operations of attempt.go call it.
pub update_attempt-Since :
    (k : ℕ) (f : Attempt → Attempt) (db : Db) (a₀ : Attempt)
    → ((y : Attempt) → (f y).id ≡ y.id)
    → attempt_of k db ≡ some a₀
    → (is_live a₀.status ≡ false → SameEnd a₀ (f a₀))
    → Since db (update_attempt k f db)
unfolding update_attempt
update_attempt-Since k f db a₀ same found keeps = record {
  tasks = λ id t there fin. there;
  decisions = λ id d there fin. there;
  reports = λ id r there fin. there;
  attempts = KeptEnds-update k f db.attempts a₀ same found keeps;
}

pub withdrawn-Since :
    (task_id now : ℕ) (db : Db)
    → Since db (record db { decisions = withdrawn_rows task_id now db.decisions })
withdrawn-Since task_id now db = record {
  tasks = λ id t there fin. there;
  decisions =
      KeptRows-update decision_id_of is_closed (is_open_of task_id)
        (λ (d : Decision). record d { status = DecisionStatus.withdrawn; closed_at = some now })
        db.decisions (λ d. refl) (λ d closed. ground arith);
  reports = λ id r there fin. there;
  attempts = KeptEnds-refl db.attempts;
}

pub timers-Since : (ts : List Timer) (db : Db) → Since db (record db { timers = ts })
timers-Since ts db = record {
  tasks = λ id t there fin. there;
  decisions = λ id d there fin. there;
  reports = λ id r there fin. there;
  attempts = KeptEnds-refl db.attempts;
}

starts_unfinished :
    (from to : TaskStatus) → contains_status (transitions from) to ≡ true → is_finished from ≡ false
starts_unfinished from to h = ground arith

same_status : (a b : TaskStatus) → task_status_eq a b ≡ true → a ≡ b
same_status TaskStatus.inbox TaskStatus.inbox h = refl
same_status TaskStatus.active TaskStatus.active h = refl
same_status TaskStatus.done TaskStatus.done h = refl
same_status TaskStatus.abandoned TaskStatus.abandoned h = refl
same_status _ _ h = ground arith

pub set_task_status-Since :
    (k : ℕ) (from to : TaskStatus) (now : ℕ) (db : Db)
    → contains_status (transitions from) to ≡ true
    → Since db (set_task_status k from to now db)
set_task_status-Since k from to now db allowed = record {
  tasks =
      KeptRows-update task_id_of is_finished_task
        (λ (t : Task). t.id == k && task_status_eq t.status from)
        (λ (t : Task). record t { status = to; updated_at = now }) db.tasks (λ t. refl)
        (λ t fin. passes t fin);
  decisions = λ id d there fin. there;
  reports = λ id r there fin. there;
  attempts = KeptEnds-refl db.attempts;
}
  where
    passes :
        (t : Task)
        → is_finished t.status ≡ true
        → (t.id == k && task_status_eq t.status from) ≡ false
    passes t fin = elim (Bool-cases (task_status_eq t.status from)) [
      | inr e ↦ ground arith
      | inl e ↦
          let same : t.status ≡ from = same_status t.status from e in
          absurd (ground (arith, rw same at fin, starts_unfinished from to allowed))
    ]
