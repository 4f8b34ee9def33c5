-- ===== src/State/History.antt =====
-- What no call changes: the row of a task that is finished (task.go), of a decision that is closed
-- (decision.go), of a report that was read (report.go), and the end of an attempt (attempt.go).
pub mod Writes
pub mod Tasks
pub mod Attempts
pub mod Rows
pub mod Calls
use hand.Base.{Bool, List, false, find, not, refl, some, true, ℕ, ◌==◌, ◌∙◌, ◌≡◌}
use hand.State.Schema.{Attempt, Db, Decision, Report, Task}
use hand.State.Statuses.{is_finished, is_live, is_none, is_opened}
use hand.State.Consistency.{SameCore, task_id_of}

-- A row that is frozen is found as it was.
abbrev pub KeptRows : {A : Type 0} → (A → ℕ) → (A → Bool) → List A → List A → Type 0
KeptRows {A} key frozen xs ys =
    (id : ℕ) (x : A)
    → find (λ y. key y == id) xs ≡ some x
    → frozen x ≡ true
    → find (λ y. key y == id) ys ≡ some x

-- What stays of an attempt that has ended.
pub record SameEnd (a b : Attempt) : Type 0 where
  pub status : b.status ≡ a.status
  pub reason : b.reason ≡ a.reason
  pub ended_at : b.ended_at ≡ a.ended_at
  pub screen : b.screen ≡ a.screen
  pub terminal : b.terminal ≡ a.terminal
  pub model : b.model ≡ a.model
  pub effort : b.effort ≡ a.effort
  pub task_id : b.task_id ≡ a.task_id
  pub worktree : b.worktree ≡ a.worktree
  pub branch : b.branch ≡ a.branch

abbrev pub KeptEnds : List Attempt → List Attempt → Type 0
KeptEnds xs ys =
    (id : ℕ) (a : Attempt)
    → find (λ (x : Attempt). x.id == id) xs ≡ some a
    → is_live a.status ≡ false
    → (b : Attempt) × (find (λ (x : Attempt). x.id == id) ys ≡ some b) × SameEnd a b

abbrev pub decision_id_of : Decision → ℕ
decision_id_of d = d.id

abbrev pub report_id_of : Report → ℕ
report_id_of r = r.id

abbrev pub is_finished_task : Task → Bool
is_finished_task t = is_finished t.status

abbrev pub is_closed : Decision → Bool
is_closed d = not (is_opened d.status)

abbrev pub is_read : Report → Bool
is_read r = not (is_none r.acked_at)

-- `db` comes after `before`.
pub record Since (before db : Db) : Type 0 where
  pub tasks : KeptRows task_id_of is_finished_task before.tasks db.tasks
  pub decisions : KeptRows decision_id_of is_closed before.decisions db.decisions
  pub reports : KeptRows report_id_of is_read before.reports db.reports
  pub attempts : KeptEnds before.attempts db.attempts

pub SameEnd-refl : (a : Attempt) → SameEnd a a
SameEnd-refl a = record {
  status = refl;
  reason = refl;
  ended_at = refl;
  screen = refl;
  terminal = refl;
  model = refl;
  effort = refl;
  task_id = refl;
  worktree = refl;
  branch = refl;
}

pub SameEnd-trans : {a b c : Attempt} → SameEnd a b → SameEnd b c → SameEnd a c
SameEnd-trans p q = record {
  status = q.status ∙ p.status;
  reason = q.reason ∙ p.reason;
  ended_at = q.ended_at ∙ p.ended_at;
  screen = q.screen ∙ p.screen;
  terminal = q.terminal ∙ p.terminal;
  model = q.model ∙ p.model;
  effort = q.effort ∙ p.effort;
  task_id = q.task_id ∙ p.task_id;
  worktree = q.worktree ∙ p.worktree;
  branch = q.branch ∙ p.branch;
}

pub KeptEnds-refl : (xs : List Attempt) → KeptEnds xs xs
KeptEnds-refl xs = λ id a found dead. (a, found, SameEnd-refl a)

pub SameCore-Since : (a b : Db) → SameCore a b → Since a b
SameCore-Since a b same = record {
  tasks = λ id t found fin. rw same.tasks found;
  decisions = λ id d found fin. rw same.decisions found;
  reports = λ id r found fin. rw same.reports found;
  attempts = rw same.attempts (KeptEnds-refl a.attempts);
}

pub Since-trans : {a b c : Db} → Since a b → Since b c → Since a c
Since-trans p q = record {
  tasks = λ id t found fin. q.tasks id t (p.tasks id t found fin) fin;
  decisions = λ id d found fin. q.decisions id d (p.decisions id d found fin) fin;
  reports = λ id r found fin. q.reports id r (p.reports id r found fin) fin;
  attempts = λ id a found dead.
      let (b, found', same) = p.attempts id a found dead in
      let (c, found'', same') = q.attempts id b found' (rw same.status dead) in
      (c, found'', SameEnd-trans same same');
}
