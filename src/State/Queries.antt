-- ===== src/State/Queries.antt =====
-- internal/state/event.go: what the watcher and the supervisor's commands ask of the log.
use hand.Base.{
  Bool, List, Option, Result, Text, [], codes, contains_text, drop, err, exists_where, false,
  find_last, if◌then◌else◌, invalid, length, ltb, none, ok, select, some, starts_with, take_last,
  text_eq, true, ℕ, ◌&&◌, ◌++◌, ◌==◌, ◌||◌, ◌∷◌,
}
use hand.State.Schema.{Db, Event}
use hand.State.Refs.{attempt_ref, supervisor_ref}
use hand.State.Reports.{is_noted_of}
use hand.State.Events.{latest_event}
use mathlib.Core.List.{reverse}

-- Store.RecentEventsOf.
unfoldable pub recent_events_of : List Text → ℕ → Db → Result (List Event)
unfolding contains_text
recent_events_of kinds limit db =
    if (elim kinds [ [] ↦ true | k ∷ ks ↦ false ]) || ltb limit 1
    then err invalid
    else ok (take_last limit (select (λ (e : Event). contains_text kinds e.kind) db.events))

-- Store.TaskEvents.
unfoldable pub task_events : ℕ → ℕ → Db → Result (List Event)
task_events task_id limit db =
    if ltb limit 1
    then err invalid
    else ok (take_last limit (select (λ (e : Event). e.task_id == task_id) db.events))

-- Store.SwitchFailed.
unfoldable pub switch_failed : Text → Db → Bool
unfolding starts_with text_eq
switch_failed version db =
    exists_where
      (λ (e : Event).
        text_eq e.kind (codes "luvus.failed") && starts_with (version ++ codes ": ") e.detail)
      db.events

-- strings.TrimPrefix.
unfoldable pub trim_prefix : Text → Text → Text
trim_prefix [] s = s
trim_prefix (a ∷ p) [] = []
trim_prefix (a ∷ p) (b ∷ s) =
    if starts_with (a ∷ p) (b ∷ s) then drop (length (a ∷ p)) (b ∷ s) else b ∷ s

-- Store.LastLimit.
unfoldable pub last_limit : ℕ → Db → Text
unfolding is_noted_of text_eq attempt_ref
last_limit id db =
    elim (find_last (λ (e : Event). text_eq e.kind (codes "attempt.limited") && is_noted_of id e)
      db.events) [ none ↦ [] | some e ↦ trim_prefix (attempt_ref id ++ codes ": ") e.detail ]

-- The kinds that TurnStart reads.
abbrev pub turn_long : Text
turn_long = codes "attempt.long"

abbrev pub turn_inputs : List Text
turn_inputs = codes "attempt.sent" ∷ codes "attempt.keys" ∷ codes "attempt.denied" ∷ []

abbrev pub turn_running : Text
turn_running = codes "attempt.running"

abbrev pub turn_rests : List Text
turn_rests =
    codes "attempt.quiet"
    ∷ codes "attempt.idle"
    ∷ codes "attempt.blocked"
    ∷ codes "attempt.limited"
    ∷ []

unfoldable pub is_turn_event : ℕ → Event → Bool
unfolding contains_text text_eq is_noted_of
is_turn_event id e =
    (text_eq e.kind turn_running
      || contains_text turn_rests e.kind
      || contains_text turn_inputs e.kind
      || text_eq e.kind turn_long)
    && is_noted_of id e

-- The loop of TurnStart over the events, the last one first.
unfoldable pub turn_start_from : Option ℕ → Bool → List Event → Option ℕ × Bool
turn_start_from start long [] = (start, long)
turn_start_from start long (e ∷ es) =
    let longer = turn_start_from start true es in
    let earlier = turn_start_from (some e.at) long es in
    if text_eq e.kind turn_long
    then longer
    else if contains_text turn_inputs e.kind
    then earlier
    else if text_eq e.kind turn_running
    then ((elim start [ none ↦ some e.at | some t ↦ some t ]), long)
    else (start, long)

-- Store.TurnStart: when the attempt's turn began, `none` where none did, and whether it was called long.
unfoldable pub turn_start : ℕ → Db → Option ℕ × Bool
unfolding turn_start_from is_turn_event
turn_start id db = turn_start_from none false (reverse (select (is_turn_event id) db.events))

-- NoteLost.
abbrev pub note_lost : Text
note_lost = codes "opencode did not take the resume note"

-- Store.SupervisorHold: the detail of the last supervisor.blocked event, if it says that the note of
-- this supervisor was lost.
unfoldable pub supervisor_hold : ℕ → Db → Option Text
unfolding latest_event supervisor_ref starts_with
supervisor_hold id db = elim (latest_event (codes "supervisor.blocked") db) [
  | none ↦ none
  | some e ↦
      if starts_with (supervisor_ref id ++ codes ": " ++ note_lost) e.detail
      then some (trim_prefix (supervisor_ref id ++ codes ": ") e.detail)
      else none
]
