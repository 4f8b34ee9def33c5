-- ===== src/State/Consistency/Statuses.antt =====
-- What adding a task and setting a status do to the status of every task.
use hand.Base.{
  ==_iff, Bool-cases, List, [], arith, find, if◌then◌else◌, inl, inr, refl, some, true,
  update_where, ℕ, ◌&&◌, ◌++◌, ◌==◌, ◌∷◌, ◌≡◌, ◌≢◌,
}
use hand.State.Schema.{Task, TaskStatus}
use hand.State.Statuses.{task_status_eq}
use hand.State.Tasks.{status_of}

pub find-status :
    (id : ℕ) (ts : List Task) {t : Task}
    → find (λ (t : Task). t.id == id) ts ≡ some t
    → status_of id ts ≡ some t.status
find-status id [] e = cc
find-status id (u ∷ us) {t = t} e = ground (arith, find-status id us {t = t})

-- A task that is there keeps its status when another is added.
pub status_of-append :
    (id : ℕ) (ts : List Task) (t : Task) {s : TaskStatus}
    → status_of id ts ≡ some s
    → status_of id (ts ++ t ∷ []) ≡ some s
status_of-append id [] t e = cc
status_of-append id (u ∷ us) t {s = s} e = ground (arith, status_of-append id us t {s = s})

abbrev pub moved_tasks : ℕ → TaskStatus → TaskStatus → ℕ → List Task → List Task
moved_tasks id from to now =
    update_where (λ (t : Task). t.id == id && task_status_eq t.status from)
      (λ (t : Task). record t { status = to; updated_at = now })

pub task_status_eq_refl : (s : TaskStatus) → task_status_eq s s ≡ true
task_status_eq_refl TaskStatus.inbox = refl
task_status_eq_refl TaskStatus.active = refl
task_status_eq_refl TaskStatus.done = refl
task_status_eq_refl TaskStatus.abandoned = refl

module _ (id : ℕ) (from to : TaskStatus) (now : ℕ) where
  pub status_of-moved_self :
      (ts : List Task)
      → status_of id ts ≡ some from
      → status_of id (moved_tasks id from to now ts) ≡ some to
  status_of-moved_self [] e = cc
  status_of-moved_self (t ∷ ts) e = elim (Bool-cases (t.id == id)) [
    | inl q ↦ let s : t.status ≡ from = ground arith in rw (q, s, task_status_eq_refl from) (rw q)
    | inr q ↦ rw q (rw q (status_of-moved_self ts (rw q at e)))
  ]

  pub status_of-moved_ne :
      (j : ℕ) (ts : List Task)
      → j ≢ id
      → status_of j (moved_tasks id from to now ts) ≡ status_of j ts
  status_of-moved_ne j [] n = refl
  status_of-moved_ne j (t ∷ ts) n = ground (arith, status_of-moved_ne j ts n)

  -- The status of every task after the move of one.
  pub status_of-moved :
      (j : ℕ) (ts : List Task)
      → status_of id ts ≡ some from
      → status_of j (moved_tasks id from to now ts) ≡ (if j == id then some to else status_of j ts)
  status_of-moved j ts e = elim (Bool-cases (j == id)) [
    | inl q ↦ rw q (rw ((==_iff j id).0 q) (status_of-moved_self ts e))
    | inr q ↦ rw q (status_of-moved_ne j ts (λ p. ground arith))
  ]
