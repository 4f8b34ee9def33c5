-- ===== src/Watch/Stalling.antt =====
-- internal/cli/watch_stall.go: when a stall is noted.
use hand.Base.{
  ==_iff, Bool, Bool-cases, Option, Option-cases, Result, Text, ap, arith, err, false, find_last,
  if◌then◌else◌, inl, inr, length, none, not, ok, refl, some, suc, sym, text_eq, text_eq→eq, true,
  ℕ, ◌*◌, ◌+◌, ◌<◌, ◌==◌, ◌^◌, ◌||◌, ◌∙◌, ◌≡◌, ◌≢◌, ◌≤◌, ◌⊎◌,
}
use hand.State.Schema.{Db, Supervisor}
use hand.State.Supervisors.{is_switching, live_supervisor}
use hand.State.Inputs.{pending_supervisor_inputs}
use hand.State.Attempts.{live_attempts}
use hand.State.Decisions.{open_decision_count}
use hand.State.Unwatched.{
  Unwatched, idle_since, is_activity, is_near, is_watched, unwatched, unwatched_tasks, watched,
}
use hand.Harness.{Stall, delay, delay-min}
use hand.Watch.World.{finished, resting, working}
use hand.Watch.Stall.{
  Look, Rest, due_at, is_due_by, is_managed, is_still, no_rest, seen_screen, stall, stall_for,
  stall_of, stall_screen, stall_status,
}
use Prim.Native.Nat.{min}

-- The waits between two notes: the policy's first wait since the last activity, then doubled waits
-- since the last note.
abbrev Spaced : Stall → Unwatched → ℕ → Type 0
Spaced p u now =
    ((t : ℕ) → u.stalls ≡ 0 → u.since ≡ some t → t + p.after ≤ now)
    × ((k t : ℕ) → u.stalls ≡ suc k → u.last ≡ some t → t + min (2 ^ suc k * p.after) p.every ≤ now)

-- What has to hold for a note.
pub record Justified (p : Stall) (generation : Text) (x : Look) (db : Db) : Type 0 where
  pub switched_on : p.off ≡ false
  pub managed :
      (s : Supervisor) × (live_supervisor db ≡ some s)
      × (is_managed generation s ≡ true)
      × (is_switching s ≡ false)
  pub no_attempt : length (live_attempts db) ≡ 0
  pub no_question : open_decision_count 0 db ≡ 0
  pub no_timer : is_near true x.now db ≡ false
  pub a_task : 0 < length (unwatched_tasks true db)
  pub at_rest : (x.status ≡ some resting) ⊎ (x.status ≡ some finished)
  pub no_input : length (pending_supervisor_inputs db) ≡ 0
  pub spaced : (u : Unwatched) × (unwatched true x.now db ≡ ok u) × Spaced p u x.now

due_at-first :
    (p : Stall) (u : Unwatched) (t : ℕ) → u.stalls ≡ 0 → u.since ≡ some t → due_at p u ≡ t + p.after
unfolding due_at
due_at-first p u t e f = ground arith

due_at-next :
    (p : Stall) (u : Unwatched) (k t : ℕ)
    → u.stalls ≡ suc k
    → u.last ≡ some t
    → due_at p u ≡ t + min (2 ^ suc k * p.after) p.every
unfolding due_at
due_at-next p u k t e f =
    let wait : delay p u.stalls ≡ min (2 ^ suc k * p.after) p.every =
      ap (delay p) e ∙ (delay-min p).1 k in
    ground arith

is_due_by-Spaced :
    (p : Stall) (u : Unwatched) (rest : Rest) (now : ℕ)
    → is_due_by p u rest now ≡ true
    → Spaced p u now
unfolding is_due_by
is_due_by-Spaced p u rest now h =
    let due : due_at p u ≤ now = ground arith in
    (
      (λ t e f. omega (arith, due_at-first p u t e f)),
      (λ k t e f. omega (arith, due_at-next p u k t e f)),
    )

module _ (command : Text) (p : Stall) (s : Supervisor) (x : Look) where
  stall_screen-lem :
      (u : Unwatched) (rest : Rest) (screen : Option (ℕ × Bool)) (db : Db)
      → (stall_screen command p s x u rest screen db).2 ≢ db
      → (length (pending_supervisor_inputs db) ≡ 0) × Spaced p u x.now
  unfolding stall_screen
  stall_screen-lem u rest none db ne = absurd (ne refl)
  stall_screen-lem u rest (some (rev, limited)) db ne =
      let rest' = seen_screen rev x.now rest in
      elim (Bool-cases (limited || not (is_still x.now rest'))) [
        | inl e ↦ absurd ((rw e at ne) refl)
        | inr e ↦ elim (Bool-cases (length (pending_supervisor_inputs db) == 0)) [
          | inr f ↦ absurd ((rw f at (rw e at ne)) refl)
          | inl f ↦ elim (Bool-cases (is_due_by p u rest' x.now)) [
            | inr g ↦ absurd ((rw g at (rw f at (rw e at ne))) refl)
            | inl g ↦ ((==_iff _ 0).0 f, is_due_by-Spaced p u rest' x.now g)
          ]
        ]
      ]

  stall_status-lem :
      (u : Unwatched) (rest : Rest) (status : Option Text) (db : Db)
      → (stall_status command p s x u rest status db).2 ≢ db
      → ((status ≡ some resting) ⊎ (status ≡ some finished))
        × (length (pending_supervisor_inputs db) ≡ 0)
        × Spaced p u x.now
  unfolding stall_status
  stall_status-lem u rest none db ne = absurd (ne refl)
  stall_status-lem u rest (some status) db ne =
      let rest' = if text_eq status working then record rest { worked = some x.now } else rest in
      elim (Bool-cases (text_eq status resting)) [
        | inl e ↦
            let (input, spaced) = stall_screen-lem u rest' x.screen db (rw e at ne) in
            (inl (ap some (text_eq→eq status resting e)), input, spaced)
        | inr e ↦ elim (Bool-cases (text_eq status finished)) [
          | inl f ↦
              let (input, spaced) = stall_screen-lem u rest' x.screen db (rw f at (rw e at ne)) in
              (inr (ap some (text_eq→eq status finished f)), input, spaced)
          | inr f ↦ absurd ((rw f at (rw e at ne)) refl)
        ]
      ]

  stall_for-lem :
      (rest : Rest) (r : Result Unwatched) (db : Db)
      → (stall_for command p s x rest r db).2 ≢ db
      → (u : Unwatched) × (r ≡ ok u)
        × (0 < length u.tasks)
        × ((x.status ≡ some resting) ⊎ (x.status ≡ some finished))
        × (length (pending_supervisor_inputs db) ≡ 0)
        × Spaced p u x.now
  unfolding stall_for
  stall_for-lem rest (err e) db ne = absurd (ne refl)
  stall_for-lem rest (ok u) db ne = elim (Bool-cases (length u.tasks == 0)) [
    | inl e ↦ absurd ((rw e at ne) refl)
    | inr e ↦
        let (status, input, spaced) = stall_status-lem u rest x.status db (rw e at ne) in
        (u, refl, ground arith, status, input, spaced)
  ]

-- Tasks that Unwatched names are not watched, and are those that it says.
unwatched-lem :
    (now : ℕ) (db : Db) (u : Unwatched)
    → unwatched true now db ≡ ok u
    → 0 < length u.tasks
    → (is_watched true now db ≡ false) × (u.tasks ≡ unwatched_tasks true db)
unfolding unwatched idle_since
unwatched-lem now db u e some_task = elim (Bool-cases (is_watched true now db)) [
  | inl f ↦ absurd (nobody (watched now) refl (ok_inj (rw f at e)))
  | inr f ↦ elim (Bool-cases (length (unwatched_tasks true db) == 0)) [
    | inl g ↦ absurd (nobody (watched now) refl (ok_inj (rw g at (rw f at e))))
    | inr g ↦ elim (Option-cases (find_last is_activity db.events)) [
      | inl h ↦ cc (rw (h, unwatched) at (rw g at (rw f at e)))
      | inr (a, h) ↦ (
        f,
        sym (
            ap (λ (v : Unwatched). v.tasks)
              (ok_inj {v = idle_since true now a db} (rw (h, unwatched) at (rw g at (rw f at e))))),
      )
    ]
  ]
]
  where
    ok_inj : {v : Unwatched} → ◌≡◌ {A = Result Unwatched} (ok v) (ok u) → v ≡ u
    ok_inj q = cc

    nobody : (v : Unwatched) → length v.tasks ≡ 0 → v ≡ u → ⊥
    nobody v z q = omega (arith, ap (λ (w : Unwatched). length w.tasks) q)

is_watched-lem :
    (now : ℕ) (db : Db)
    → is_watched true now db ≡ false
    → (length (live_attempts db) ≡ 0)
      × (open_decision_count 0 db ≡ 0)
      × (is_near true now db ≡ false)
unfolding is_watched
is_watched-lem now db e = (ground arith, ground arith, ground arith)

stall_of-Justified :
    (command : Text) (p : Stall) (generation : Text) (x : Look) (rest : Rest)
    (o : Option Supervisor) (db : Db)
    → live_supervisor db ≡ o
    → (stall_of command p generation x rest o db).2 ≢ db
    → Justified p generation x db
unfolding stall_of
stall_of-Justified command p generation x rest none db found ne = absurd (ne refl)
stall_of-Justified command p generation x rest (some s) db found ne =
    elim (Bool-cases (p.off || not (is_managed generation s) || is_switching s)) [
      | inl e ↦ absurd ((rw e at ne) refl)
      | inr e ↦
          let rest' = if rest.sup == s.id then rest else record no_rest { sup = s.id } in
          let (u, known, some_task, status, input, spaced) =
            stall_for-lem command p s x rest' (unwatched true x.now db) db (rw e at ne) in
          let (free, tasks) = unwatched-lem x.now db u known some_task in
          let (attempts, questions, near) = is_watched-lem x.now db free in
          record {
            switched_on = ground arith;
            managed = (s, found, ground arith, ground arith);
            no_attempt = attempts;
            no_question = questions;
            no_timer = near;
            a_task = rw (sym tasks) some_task;
            at_rest = status;
            no_input = input;
            spaced = (u, known, spaced);
          }
    ]

-- The watcher changes the database on account of a stall only where the policy has this on; a managed
-- supervisor runs that is not being switched and is at rest; no attempt is live, no decision is open, no
-- timer but those that tasks wait for is due soon, and an active task waits for none; no input waits for
-- the supervisor; and the policy's first wait has passed since the last activity or, after k + 1
-- notes since then, 2 ^ (k + 1) times that wait, or the longest wait if that is less, since the last note.
pub stall-Justified :
    (command : Text) (p : Stall) (generation : Text) (x : Look) (rest : Rest) (db : Db)
    → (stall command p generation x rest db).2 ≢ db
    → Justified p generation x db
unfolding stall
stall-Justified command p generation x rest db ne =
    stall_of-Justified command p generation x rest (live_supervisor db) db refl ne
