-- ===== src/State/Events.antt =====
-- internal/state/event.go: the log of events, to which every operation adds.
use hand.Base.{
  Bool, List, Option, Result, Text, [], codes, contains_text, err, find_last, if◌then◌else◌,
  invalid, ltb, max_of, ok, select, starts_with, take, take_last, text_eq, true, ℕ, ◌&&◌, ◌++◌, ◌+◌,
  ◌==◌, ◌||◌, ◌∷◌,
}
use hand.State.Schema.{Db, Event}
use hand.State.Transactions.{M, exec}
use hand.State.Refs.{attempt_ref}

-- The key is AUTOINCREMENT.
unfoldable pub append_event : ℕ → Text → ℕ → Text → Db → Db
append_event at kind task_id detail db = record db {
  event_seq = db.event_seq + 1;
  events =
      db.events
      ++ record { seq = db.event_seq + 1; at = at; kind = kind; task_id = task_id; detail = detail }
        ∷ [];
}

abbrev pub emit : ℕ → Text → ℕ → Text → M (Unit {0})
emit at kind task_id detail = exec (append_event at kind task_id detail)

-- The events that `closeAll` emits for the rows that its UPDATE returned, in the order of their ids.
unfoldable pub append_closed : ℕ → ℕ → Text → (ℕ → Text) → List ℕ → Db → Db
unfolding append_event
append_closed task_id now kind ref [] db = db
append_closed task_id now kind ref (id ∷ ids) db =
    append_closed task_id now kind ref ids (append_event now kind task_id (ref id) db)

-- `attempt.%`.
abbrev pub attempt_kind : Text
attempt_kind = codes "attempt."

-- Is the event's detail the ref of the attempt, or that with a note?
unfoldable pub is_of_attempt : ℕ → Event → Bool
unfolding attempt_ref text_eq starts_with
is_of_attempt id e =
    starts_with attempt_kind e.kind
    && (text_eq e.detail (attempt_ref id) || starts_with (attempt_ref id ++ codes ": ") e.detail)

-- lastAttemptEvent.
unfoldable pub last_attempt_event : ℕ → Db → Option Event
unfolding is_of_attempt
last_attempt_event id db = find_last (is_of_attempt id) db.events

-- LatestEvent.
unfoldable pub latest_event : Text → Db → Option Event
latest_event kind db = find_last (λ e. text_eq e.kind kind) db.events

-- LastEventSeq.
unfoldable pub last_event_seq : Db → ℕ
last_event_seq db = max_of (λ (e : Event). e.seq) db.events

-- RecentEvents.
unfoldable pub recent_events : ℕ → Db → List Event
recent_events limit db = take_last limit db.events

-- EventsAfter: `limit` events past a cursor, of the given kinds, or of every kind.
unfoldable pub events_after : ℕ → List Text → ℕ → Db → Result (List Event)
events_after after kinds limit db =
    if ltb limit 1
    then err invalid
    else ok (
        take limit (
          select
            (λ (e : Event).
              ltb after e.seq
              && (elim kinds [ [] ↦ true | k ∷ ks ↦ contains_text (k ∷ ks) e.kind ]))
            db.events))

-- DeliveredEvents of one task.
unfoldable pub delivered_events : ℕ → Db → List Event
delivered_events task_id db =
    select (λ (e : Event). text_eq e.kind (codes "task.delivered") && e.task_id == task_id)
      db.events

-- NoteLuvus, InboxPruned and GcRemoved.
unfoldable pub note_luvus : ℕ → Text → Text → M (Unit {0})
note_luvus now kind detail = emit now (codes "luvus." ++ kind) 0 detail

unfoldable pub inbox_pruned : ℕ → Text → M (Unit {0})
inbox_pruned now detail = emit now (codes "inbox.pruned") 0 detail

unfoldable pub gc_removed : ℕ → Text → M (Unit {0})
gc_removed now detail = emit now (codes "gc.removed") 0 detail
