-- ===== src/Watch/Stall.antt =====
-- internal/cli/watch_stall.go: a supervisor that rests while tasks are active and nothing watches them.
use hand.Base.{
  Bool, Error, List, Option, Result, Text, [], codes, err, false, if◌then◌else◌, leb, length, ltb,
  none, not, ok, some, text_eq, true, ℕ, ◌&&◌, ◌++◌, ◌+◌, ◌-◌, ◌==◌, ◌||◌, ◌∷◌,
}
use hand.State.Schema.{AttemptStatus, Db, Supervisor}
use hand.State.Transactions.{tx}
use hand.State.Statuses.{attempt_status_eq}
use hand.State.Refs.{supervisor_ref, task_ref, timer_ref}
use hand.State.Clock.{ahead}
use hand.State.Supervisors.{is_switching, live_supervisor, note_supervisor}
use hand.State.Inputs.{pending_supervisor_inputs}
use hand.State.Unwatched.{Unwatched, idle_for, unwatched}
use hand.Harness.{Stall, delay}
use hand.Watch.World.{finished, resting, working}

-- stallAlert, and update.StillFor, in nanoseconds.
abbrev pub stall_alert : ℕ
stall_alert = 3600000000000

abbrev pub still_for : ℕ
still_for = 30000000000

-- rest. A zero time is `none`.
pub record Rest : Type 0 where
  pub sup : ℕ
  pub rev : ℕ
  pub since : Option ℕ
  pub worked : Option ℕ

abbrev pub no_rest : Rest
no_rest = record { sup = 0; rev = 0; since = none; worked = none }

-- What luvus answers: the status by Explain, and the screen by Read, with its revision and whether
-- harness.Limit finds a usage limit on it. `none` is an error.
pub record Look : Type 0 where
  pub now : ℕ
  pub status : Option Text
  pub screen : Option (ℕ × Bool)
  pub commit : Option Error

-- What is said: as an alert, or to the terminal only.
pub data Said : Type 0 where
  nothing : Said
  line : Text → Said
  alerted : Text → Said

abbrev pub Stalled : Type 0
Stalled = Result Said × Rest × Db

-- The names of the tasks, with commas and an "and".
unfoldable pub task_names : List ℕ → Text
unfolding task_ref
task_names [] = []
task_names (id ∷ []) = task_ref id
task_names (id ∷ next ∷ []) = task_ref id ++ (codes " and " ++ task_ref next)
task_names (id ∷ next ∷ after ∷ ids) =
    task_ref id ++ (codes ", " ++ task_names (next ∷ after ∷ ids))

-- `stalled`.
unfoldable pub stalled : Unwatched → Text
unfolding task_names idle_for timer_ref ahead
stalled u =
    let verb = if leb (length u.tasks) 1 then codes " is active" else codes " are active" in
    let text =
      task_names u.tasks ++ (verb ++ (codes ", no attempt is running, idle " ++ idle_for u.idle)) in
    elim u.far [
      | none ↦ text
      | some t ↦
          text
          ++ (codes "; " ++ (timer_ref t.id ++ (codes " is armed but due in " ++ ahead u.far_in)))
    ]

-- Supervisor.Managed.
unfoldable pub is_managed : Text → Supervisor → Bool
unfolding text_eq
is_managed generation s =
    attempt_status_eq s.status AttemptStatus.running
    && text_eq s.terminal.server_generation generation

-- When the next note is due: after a first wait, then with the policy's delays.
unfoldable pub due_at : Stall → Unwatched → ℕ
unfolding delay
due_at p u =
    if ltb 0 u.stalls
    then (elim u.last [ none ↦ 0 | some t ↦ t ]) + delay p u.stalls
    else (elim u.since [ none ↦ 0 | some t ↦ t ]) + p.after

unfoldable pub is_due_by : Stall → Unwatched → Rest → ℕ → Bool
unfolding due_at
is_due_by p u rest now =
    leb (due_at p u) now && (elim rest.worked [ none ↦ true | some t ↦ leb (t + p.after) now ])

-- A note is an alert once the fleet has been idle for an hour, and only the first such.
unfoldable pub is_alert : Unwatched → Bool
is_alert u =
    leb stall_alert u.idle
    && (u.stalls == 0
        || ltb ((elim u.last [ none ↦ 0 | some t ↦ t ]) - (elim u.since [ none ↦ 0 | some t ↦ t ]))
            stall_alert)

-- The note itself.
unfoldable pub note_stall : Text → Supervisor → Look → Unwatched → Rest → Db → Stalled
unfolding tx stalled is_alert supervisor_ref
note_stall command s x u rest db =
    let text = stalled u in
    let help =
      codes ". Start a worker, arm a timer with `"
      ++ (command ++ codes " wake`, or finish the task.") in
    let (res, db') = tx x.commit (note_supervisor s.id (codes "stalled") (text ++ help) x.now) db in
    let said = supervisor_ref s.id ++ (codes " stalled: " ++ text) in
    (
      elim res [
        | err e ↦ err e
        | ok v ↦ ok (if is_alert u then Said.alerted said else Said.line said)
      ],
      rest,
      db',
    )

-- The rest of the supervisor, by its screen: it begins anew when the screen changes.
abbrev pub seen_screen : ℕ → ℕ → Rest → Rest
seen_screen rev now rest = elim rest.since [
  | none ↦ record rest { rev = rev; since = some now }
  | some t ↦ if rev == rest.rev then rest else record rest { rev = rev; since = some now }
]

-- Has the screen stood still for StillFor?
unfoldable pub is_still : ℕ → Rest → Bool
is_still now rest = elim rest.since [ none ↦ false | some t ↦ leb still_for (now - t) ]

unfoldable pub stall_screen :
    Text → Stall → Supervisor → Look → Unwatched → Rest → Option (ℕ × Bool) → Db → Stalled
unfolding pending_supervisor_inputs is_due_by is_still note_stall
stall_screen command p s x u rest none db = (ok Said.nothing, rest, db)
stall_screen command p s x u rest (some (rev, limited)) db =
    let rest' = seen_screen rev x.now rest in
    if limited || not (is_still x.now rest')
    then (ok Said.nothing, rest', db)
    else if not (length (pending_supervisor_inputs db) == 0)
    then (ok Said.nothing, rest', db)
    else if not (is_due_by p u rest' x.now)
    then (ok Said.nothing, rest', db)
    else note_stall command s x u rest' db

-- From where luvus is asked for the status.
unfoldable pub stall_status :
    Text → Stall → Supervisor → Look → Unwatched → Rest → Option Text → Db → Stalled
unfolding text_eq stall_screen
stall_status command p s x u rest none db = (ok Said.nothing, rest, db)
stall_status command p s x u rest (some status) db =
    let rest' = if text_eq status working then record rest { worked = some x.now } else rest in
    if not (text_eq status resting) && not (text_eq status finished)
    then (ok Said.nothing, rest', db)
    else stall_screen command p s x u rest' x.screen db

-- From where the supervisor is known to be managed.
unfoldable pub stall_for : Text → Stall → Supervisor → Look → Rest → Result Unwatched → Db → Stalled
unfolding stall_status
stall_for command p s x rest (err e) db = (err e, rest, db)
stall_for command p s x rest (ok u) db =
    if length u.tasks == 0
    then (ok Said.nothing, rest, db)
    else stall_status command p s x u rest x.status db

-- watcher.stall, with the policy's `p` and less the delivery at its end. Times do not go back.
unfoldable pub stall_of : Text → Stall → Text → Look → Rest → Option Supervisor → Db → Stalled
unfolding is_managed unwatched stall_for
stall_of command p generation x rest none db = (ok Said.nothing, no_rest, db)
stall_of command p generation x rest (some s) db =
    if p.off || not (is_managed generation s) || is_switching s
    then (ok Said.nothing, no_rest, db)
    else let rest' = if rest.sup == s.id then rest else record no_rest { sup = s.id } in
      stall_for command p s x rest' (unwatched true x.now db) db

unfoldable pub stall : Text → Stall → Text → Look → Rest → Db → Stalled
unfolding live_supervisor stall_of
stall command p generation x rest db = stall_of command p generation x rest (live_supervisor db) db
