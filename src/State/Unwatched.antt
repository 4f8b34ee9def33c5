-- ===== src/State/Unwatched.antt =====
-- internal/state/unwatched.go: the active tasks that nobody watches.
use hand.Base.{
  Bool, List, Option, Result, Text, [], codes, contains_text, decimal, err, exists_where, find,
  find_last, if◌then◌else◌, length, ltb, map, none, not, ok, other, select, some, text_eq, true, ℕ,
  ◌%◌, ◌&&◌, ◌++◌, ◌-◌, ◌/◌, ◌==◌, ◌||◌, ◌∷◌,
}
use hand.State.Schema.{Db, Event, Task, TaskStatus, Timer}
use hand.State.Statuses.{task_status_eq}
use hand.State.Timers.{armed_timers, is_beyond}
use hand.State.Clock.{minute}
use hand.State.Attempts.{live_attempts}
use hand.State.Decisions.{open_decision_count}

-- Unwatched. `since` and `last` are `none` for a zero time, `far` for a zero Timer.
pub record Unwatched : Type 0 where
  pub tasks : List ℕ
  pub since : Option ℕ
  pub idle : ℕ
  pub stalls : ℕ
  pub last : Option ℕ
  pub far : Option Timer
  pub far_in : ℕ
  pub at : ℕ

-- Unwatched{At: now}.
abbrev pub watched : ℕ → Unwatched
watched now = record {
  tasks = [];
  since = none;
  idle = 0;
  stalls = 0;
  last = none;
  far = none;
  far_in = 0;
  at = now;
}

-- The timers that are looked at: none where no managed supervisor runs.
unfoldable pub timers_for : Bool → Db → List Timer
unfolding armed_timers
timers_for managed db = if managed then armed_timers db else []

-- Is a timer armed that fires soon, other than one that a task waits for?
unfoldable pub is_near : Bool → ℕ → Db → Bool
unfolding timers_for
is_near managed now db =
    exists_where (λ (t : Timer). not t.waits && not (is_beyond now t)) (timers_for managed db)

unfoldable pub is_waiting : Bool → Db → ℕ → Bool
unfolding timers_for
is_waiting managed db id =
    exists_where (λ (t : Timer). t.waits && t.task_id == id) (timers_for managed db)

-- The ids of the active tasks that do not wait.
unfoldable pub unwatched_tasks : Bool → Db → List ℕ
unfolding is_waiting
unwatched_tasks managed db =
    map (λ (t : Task). t.id)
      (select
        (λ (t : Task).
          task_status_eq t.status TaskStatus.active && not (is_waiting managed db t.id))
        db.tasks)

unfoldable pub first_far : Bool → Db → Option Timer
unfolding timers_for
first_far managed db = find (λ (t : Timer). not t.waits) (timers_for managed db)

-- The events by which a fleet is not idle: all but these kinds.
unfoldable pub is_activity : Event → Bool
unfolding contains_text
is_activity e = not (
    contains_text
      (codes "supervisor.stalled" ∷ codes "supervisor.delivered" ∷ codes "model.changed" ∷ [])
      e.kind)

-- The stalls that were noted since an event.
unfoldable pub stalls_after : ℕ → Db → List Event
unfolding text_eq
stalls_after seq db =
    select (λ (e : Event). text_eq e.kind (codes "supervisor.stalled") && ltb seq e.seq) db.events

-- The end of Unwatched: how long, and how often it was noted.
unfoldable pub idle_since : Bool → ℕ → Event → Db → Unwatched
unfolding unwatched_tasks stalls_after first_far
idle_since managed now e db = record {
  tasks = unwatched_tasks managed db;
  since = some e.at;
  idle = now - e.at;
  stalls = length (stalls_after e.seq db);
  last = (elim (find_last (λ (s : Event). true) (stalls_after e.seq db)) [
    | none ↦ none
    | some s ↦ some s.at
  ]);
  far = first_far managed db;
  far_in = (elim (first_far managed db) [ none ↦ 0 | some t ↦ t.due - now ]);
  at = now;
}

-- Does something watch the fleet: a live attempt, an open decision, a timer that fires soon?
unfoldable pub is_watched : Bool → ℕ → Db → Bool
unfolding is_near live_attempts open_decision_count
is_watched managed now db =
    not (length (live_attempts db) == 0)
    || not (open_decision_count 0 db == 0)
    || is_near managed now db

-- Store.Unwatched.
unfoldable pub unwatched : Bool → ℕ → Db → Result Unwatched
unwatched managed now db =
    if is_watched managed now db
    then ok (watched now)
    else if length (unwatched_tasks managed db) == 0
    then ok (watched now)
    else elim (find_last is_activity db.events) [
      | none ↦ err other
      | some e ↦ ok (idle_since managed now e db)
    ]

-- Unwatched.IdleFor.
unfoldable pub idle_for : ℕ → Text
unfolding decimal
idle_for idle =
    let m = idle / minute in
    if ltb m 1
    then codes "<1m"
    else if ltb m 60
    then decimal m ++ codes "m"
    else if m % 60 == 0
    then decimal (m / 60) ++ codes "h"
    else decimal (m / 60) ++ codes "h" ++ decimal (m % 60) ++ codes "m"
