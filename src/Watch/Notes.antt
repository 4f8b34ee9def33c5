-- ===== src/Watch/Notes.antt =====
-- internal/cli/watch.go: what one look of the watcher may do to the log and to its user.
use hand.Base.{
  Bool-cases, Error, List, Option-cases, Text, [], ap, codes, conflict, contains_text, err, inl,
  inr, invalid, is_empty, none, not, not_found, ok, other, refl, some, text_eq, ℕ, ◌&&◌, ◌++◌, ◌∷◌,
  ◌≡◌, ◌⊎◌,
}
use hand.State.Schema.{Attempt, Db}
use hand.State.Transactions.{query_row, tx, ◌>>=◌}
use hand.State.Refs.{attempt_ref, noted}
use hand.State.Events.{append_event, attempt_kind}
use hand.State.Statuses.{is_live}
use hand.State.Attempts.{attempt_of, live_kinds, note_attempt}
use hand.Watch.Observe.{on_working}
use hand.State.Calls.{Call, perform, step}
use hand.Watch.World.{
  Alert, Answers, Outcome, Readers, World, blocked, note, unless_conflict, working,
}
use hand.Watch.Rest.{blocked_detail, note_blocked}

-- What a look may do, as the log and the alerts show it: nothing, one event, or one event with one
-- alert of the same kind. The event is the attempt's, its task that of the attempt's row, and it comes
-- of one call of the store.
pub data Announces (now id : ℕ) (db : Db) (alerts : List Alert) (db' : Db) (alerts' : List Alert)
    : Type 0 where
  silent : db' ≡ db → alerts' ≡ alerts → Announces now id db alerts db' alerts'
  logged :
      (row : Attempt) (call : Call)
      → attempt_of id db ≡ some row
      → db' ≡ step none call db
      → db' ≡ append_event now (codes "attempt.working") row.task_id (noted (attempt_ref id) []) db
      → alerts' ≡ alerts
      → Announces now id db alerts db' alerts'
  alerted :
      (row : Attempt) (call : Call) (kind detail text : Text)
      → attempt_of id db ≡ some row
      → db' ≡ step none call db
      → db' ≡ append_event now kind row.task_id (noted (attempt_ref id) detail) db
      → alerts' ≡ alerts ++ record { kind = kind; ref = attempt_ref id; text = text } ∷ []
      → Announces now id db alerts db' alerts'

abbrev pub Announced : Answers → ℕ → World → Outcome → Type 0
Announced x id w o = Announces x.now id w.db w.watcher.alerts (o.1).db (o.1).watcher.alerts

note_attempt-cases :
    (id : ℕ) (kind detail : Text) (now : ℕ) (db : Db)
    → ((e : Error) × (note_attempt id kind detail now db ≡ err e))
      ⊎ ((row : Attempt) × (attempt_of id db ≡ some row)
          × (note_attempt id kind detail now db
              ≡ ok (
                tt,
                append_event now
                    (attempt_kind ++ kind)
                    row.task_id
                    (noted (attempt_ref id) detail)
                    db,
              )))
unfolding note_attempt ◌>>=◌
note_attempt-cases id kind detail now db = elim (Option-cases (attempt_of id db)) [
  | inl e ↦ inl (not_found, rw (e, ◌>>=◌, query_row) refl)
  | inr (row, e) ↦ elim (Bool-cases (not (is_live row.status) && contains_text live_kinds kind)) [
    | inl f ↦ inl (conflict, rw (e, ◌>>=◌, query_row) (rw f refl))
    | inr f ↦ inr (row, e, rw (e, ◌>>=◌, query_row) (rw f refl))
  ]
]

-- A call of the store that succeeds.
pub step-ok : (call : Call) (db db' : Db) → perform call db ≡ ok (tt, db') → db' ≡ step none call db
unfolding step tx
step-ok call db db' q = rw (q, step, tx) refl

-- The log with the note of NoteAttempt.
abbrev pub with_note : Answers → ℕ → Text → Text → Attempt → Db → Db
with_note x id kind detail row db =
    append_event x.now (attempt_kind ++ kind) row.task_id (noted (attempt_ref id) detail) db

-- NoteAttempt adds its event, or leaves the world as it was.
pub note-cases :
    (x : Answers) (id : ℕ) (kind detail : Text) (w : World)
    → ((e : Error) × (note x id kind detail w ≡ (err e, w)))
      ⊎ ((row : Attempt) × (attempt_of id w.db ≡ some row)
          × (with_note x id kind detail row w.db
              ≡ step none (Call.call_note_attempt id kind detail x.now) w.db)
          × (note x id kind detail w
              ≡ (ok tt, record w { db = with_note x id kind detail row w.db })))
unfolding note tx perform
note-cases x id kind detail w = elim (note_attempt-cases id kind detail x.now w.db) [
  | inl (e, q) ↦ inl (e, rw (q, tx) refl)
  | inr (row, f, q) ↦ elim (Option-cases x.commit) [
    | inl c ↦ inr (
      row,
      f,
      step-ok (Call.call_note_attempt id kind detail x.now) w.db _ q,
      rw (q, tx) (rw (c, tx) refl),
    )
    | inr (e, c) ↦ inl (e, rw (q, tx) (rw (c, tx) refl))
  ]
]

-- An error of the store leaves the world, whatever follows.
pub unless_conflict-err :
    (e : Error) (w : World) (k : World → Outcome) → (unless_conflict (err e) w k).1 ≡ w
unless_conflict-err conflict w k = refl
unless_conflict-err not_found w k = refl
unless_conflict-err invalid w k = refl
unless_conflict-err other w k = refl

-- With the marks of attempts seen blocked once left as they are.
abbrev pub Kept : Answers → ℕ → World → Outcome → Type 0
Kept x id w o = Announced x id w o × ((o.1).watcher.blocked_pending ≡ w.watcher.blocked_pending)

module _ (x : Answers) (id : ℕ) (w : World) where
  pub Kept-same : (o : Outcome) → o.1 ≡ w → Kept x id w o
  Kept-same o e = (
    silent (ap (λ (v : World). v.db) e) (ap (λ (v : World). v.watcher.alerts) e),
    ap (λ (v : World). v.watcher.blocked_pending) e,
  )

  -- What follows a note decides, where the note is made.
  pub after_note :
      (kind detail : Text) (k : World → Outcome)
      → ((row : Attempt) (call : Call)
          → attempt_of id w.db ≡ some row
          → with_note x id kind detail row w.db ≡ step none call w.db
          → Kept x id w (k (record w { db = with_note x id kind detail row w.db })))
      → Kept x id w (unless_conflict (note x id kind detail w).0 (note x id kind detail w).1 k)
  after_note kind detail k h = elim (note-cases x id kind detail w) [
    | inl (e, q) ↦ rw q (Kept-same (unless_conflict (err e) w k) (unless_conflict-err e w k))
    | inr (row, f, s, q) ↦ rw q (h row (Call.call_note_attempt id kind detail x.now) f s)
  ]

  pub note_blocked-Kept :
      (r : Readers) (a : Attempt) (title screen : Text)
      → a.id ≡ id
      → Kept x id w (note_blocked r x a title screen w)
  unfolding note_blocked
  note_blocked-Kept r a title screen same =
      elim (Bool-cases
        (not (is_empty screen) && is_empty title && not (r.waiting a.harness screen))) [
          | inl e ↦ rw e (silent refl refl, refl)
          | inr e ↦ rw e (
              rw same (
                after_note blocked (blocked_detail r x a title screen) _ (λ row call f s. (
                  alerted row call (codes "attempt.blocked") (blocked_detail r x a title screen) _ f
                      s refl refl,
                  refl,
                ))))
        ]

  pub on_working-Kept :
      (a : Attempt) (prev : Text) → a.id ≡ id → Kept x id w (on_working x a prev w)
  unfolding on_working
  on_working-Kept a prev same = elim (Bool-cases (text_eq prev blocked)) [
    | inl e ↦
        rw e (
          rw same (after_note working [] _ (λ row call f s. (logged row call f s refl refl, refl))))
    | inr e ↦ rw e (silent refl refl, refl)
  ]
