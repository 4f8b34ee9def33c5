-- ===== src/Watch/World.antt =====
-- internal/cli/watch.go: what the watcher keeps, and what it writes and says.
use hand.Base.{
  Bool, Error, List, Option, Result, Text, [], codes, conflict, err, if◌then◌else◌, none, ok, some,
  starts_with, text_eq, ℕ, ◌++◌, ◌==◌, ◌∷◌,
}
use hand.State.Schema.{Db}
use hand.State.Transactions.{tx}
use hand.State.Refs.{attempt_ref}
use hand.State.Events.{last_attempt_event}
use hand.State.Attempts.{note_attempt, opencode}

-- turn.
pub record Turn : Type 0 where
  pub since : ℕ
  pub long : Bool

-- A call of `alert`: what is said, and what a notification is made of.
pub record Alert : Type 0 where
  pub kind : Text
  pub ref : Text
  pub text : Text

-- The fields of `watcher` that its looks at attempts use. A map is a function: `seen` gives the empty
-- text where the map has no entry, as Go does. `sweeps` counts the calls of sweepModels.
pub record Watcher : Type 0 where
  pub seen : ℕ → Text
  pub turns : ℕ → Option Turn
  pub held_at : ℕ → Option ℕ
  pub blocked_pending : ℕ → Bool
  pub busy : Option (List Text)
  pub screens : ℕ → Text
  pub sweeps : ℕ
  pub alerts : List Alert

pub record World : Type 0 where
  pub db : Db
  pub watcher : Watcher

-- What internal/harness reads off a screen: Waiting, Question, ClaudeIdle, ClaudeTitle, Limit and
-- APIError.
pub record Readers : Type 0 where
  pub waiting : Text → Text → Bool
  pub question : Text → Text → Option Text
  pub claude_idle : Text → Bool
  pub claude_title : Text → Text
  pub limit : Text → Text → Option Text
  pub api_error : Text → Text → Text

pub record Screen : Type 0 where
  pub terminal_id : Text
  pub text : Text

-- What is answered during one look: the clock, luvus' Read, the hint of its Explain (`none` is an
-- error), and what the driver's COMMIT says.
pub record Answers : Type 0 where
  pub now : ℕ
  pub screen : Option Screen
  pub hint : Option Text
  pub commit : Option Error

abbrev pub Outcome : Type 0
Outcome = Result (Unit {0}) × World

abbrev pub put {ℓ} : {A : Type ℓ} → (ℕ → A) → ℕ → A → ℕ → A
put f k v j = if j == k then v else f j

abbrev pub working : Text
working = codes "working"

abbrev pub blocked : Text
blocked = codes "blocked"

abbrev pub resting : Text
resting = codes "idle"

abbrev pub finished : Text
finished = codes "done"

abbrev pub held : Text
held = codes "held"

-- quietGrace, in nanoseconds.
abbrev pub quiet_grace : ℕ
quiet_grace = 30000000000

-- harness.Prefills.
unfoldable pub prefills : Text → Bool
unfolding text_eq
prefills name = text_eq name opencode

-- argvValue.
unfoldable pub argv_value : Text → List Text → Text
unfolding text_eq
argv_value flag [] = []
argv_value flag (a ∷ []) = []
argv_value flag (a ∷ b ∷ argv) = if text_eq a flag then b else argv_value flag (b ∷ argv)

-- argvSession.
unfoldable pub argv_session : List Text → Text
unfolding argv_value
argv_session argv = argv_value (codes "--session") argv

-- The line without the time that Limit adds: strings.Cut at " (~".
unfoldable pub shown : Text → Text
unfolding starts_with
shown [] = []
shown (c ∷ s) = let rest = shown s in if starts_with (codes " (~") (c ∷ s) then [] else c ∷ rest

-- LastAttemptEvent: its kind, or the empty text.
unfoldable pub last_kind : ℕ → Db → Text
unfolding last_attempt_event
last_kind id db = elim (last_attempt_event id db) [ none ↦ [] | some e ↦ e.kind ]

-- `w.seen[id] = status`, and the other writes to the watcher's maps.
abbrev pub see : ℕ → Text → World → World
see id status w = record w { watcher = record w.watcher { seen = put w.watcher.seen id status } }

abbrev pub set_turn : ℕ → Option Turn → World → World
set_turn id t w = record w { watcher = record w.watcher { turns = put w.watcher.turns id t } }

abbrev pub set_held : ℕ → Option ℕ → World → World
set_held id at w = record w { watcher = record w.watcher { held_at = put w.watcher.held_at id at } }

abbrev pub set_pending : ℕ → Bool → World → World
set_pending id b w = record w {
  watcher = record w.watcher { blocked_pending = put w.watcher.blocked_pending id b };
}

abbrev pub put_screen : ℕ → Text → World → World
put_screen id s w = record w { watcher = record w.watcher { screens = put w.watcher.screens id s } }

-- watcher.alert, less the notification.
abbrev pub alert : Text → ℕ → Text → World → World
alert kind id text w = record w {
  watcher = record w.watcher {
    alerts = w.watcher.alerts ++ record { kind = kind; ref = attempt_ref id; text = text } ∷ [];
  };
}

-- What follows a store operation: a conflict ends the look without an error.
abbrev pub unless_conflict : Result (Unit {0}) → World → (World → Outcome) → Outcome
unless_conflict (ok u) w k = k w
unless_conflict (err conflict) w k = (ok tt, w)
unless_conflict (err e) w k = (err e, w)

-- `if err := ...; err != nil { return err }`.
abbrev pub and_then : Outcome → (World → Outcome) → Outcome
and_then (ok u, w) k = k w
and_then (err e, w) k = (err e, w)

-- w.st.NoteAttempt.
unfoldable pub note : Answers → ℕ → Text → Text → World → Outcome
unfolding tx
note x id kind detail w =
    let (r, db) = tx x.commit (note_attempt id kind detail x.now) w.db in (r, record w { db = db })
