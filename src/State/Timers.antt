-- ===== src/State/Timers.antt =====
-- internal/state/timer.go: timers wake the supervisor at a time, once or again and again.
use hand.Base.{
  Bool, List, Option, Text, [], codes, conflict, count_where, exists_where, find, find_last,
  if◌then◌else◌, invalid, is_control, is_empty, leb, length, ltb, max_of, none, not, not_found,
  select, some, suc, trim_space, update_where, zero, ℕ, ◌&&◌, ◌*◌, ◌++◌, ◌+◌, ◌-◌, ◌/◌, ◌==◌, ◌||◌,
  ◌∷◌,
}
use hand.State.Schema.{Db, Timer, TimerStatus}
use hand.State.Transactions.{M, exec, pure, query, query_row, refuse, ◌>>=◌, ◌>>◌}
use hand.State.Statuses.{is_armed, is_finished}
use hand.State.Events.{append_event, emit}
use hand.State.Refs.{noted, timer_ref}
use hand.State.Tasks.{is_wait_of, task_of}
use hand.State.Clock.{day, hour, minute, rfc3339, second, span, truncate}

abbrev pub max_timers : ℕ
max_timers = 20

abbrev pub max_timer_note : ℕ
max_timer_note = 200

abbrev pub min_timer : ℕ
min_timer = minute

abbrev pub max_wait : ℕ
max_wait = 30 * day

abbrev pub timer_watch_horizon : ℕ
timer_watch_horizon = 6 * hour

-- TimerSpec, of durations that are not negative; `at` is none for the zero time.
pub record TimerSpec : Type 0 where
  pub at : Option ℕ
  pub after : ℕ
  pub every : ℕ
  pub task_id : ℕ
  pub note : Text
  pub waits : Bool

-- Timer.detail.
unfoldable pub timer_detail : Timer → Text → Text
unfolding timer_ref
timer_detail t extra =
    if is_empty t.note then timer_ref t.id ++ extra else noted (timer_ref t.id ++ extra) t.note

-- `now.Add(cmp.Or(spec.After, spec.Every))` where no time is given.
abbrev pub due_of : TimerSpec → ℕ → ℕ
due_of spec now = elim spec.at [
  | some t ↦ t
  | none ↦ now + (if spec.after == 0 then spec.every else spec.after)
]

-- The switch of AddTimer: is the spec refused?
unfoldable pub is_bad_timer : TimerSpec → ℕ → Bool
unfolding is_control trim_space
is_bad_timer spec now =
    let due = due_of spec now in
    (not (spec.every == 0) && ltb spec.every min_timer)
    || ltb due (now + min_timer)
    || ltb max_timer_note (length (trim_space spec.note))
    || exists_where is_control (trim_space spec.note)
    || (spec.waits && spec.task_id == 0)
    || (spec.waits && not (spec.every == 0))
    || (spec.waits && ltb (now + max_wait) due)

abbrev pub next_timer_id : Db → ℕ
next_timer_id db = max_of (λ (t : Timer). t.id) db.timers + 1

abbrev pub armed_count : Db → ℕ
armed_count db = count_where (λ (t : Timer). is_armed t.status) db.timers

unfoldable pub new_timer : TimerSpec → ℕ → ℕ → ℕ → Timer
unfolding trim_space
new_timer spec now at id = record {
  id = id;
  due = due_of spec now;
  every = truncate spec.every second / second;
  task_id = spec.task_id;
  note = trim_space spec.note;
  status = TimerStatus.armed;
  created_at = at;
  ended_at = none;
  waits = spec.waits;
}

unfoldable pub insert_timer : Timer → Db → Db
insert_timer t db = record db { timers = db.timers ++ t ∷ [] }

-- `if t.TaskID != 0 { ... }`: a timer's task must not be finished.
unfoldable pub require_unfinished : ℕ → M (Unit {0})
require_unfinished zero = pure tt
require_unfinished (suc n) = do
  t ← query_row (task_of (suc n)) not_found
  refuse (is_finished t.status) conflict

-- The extra of the `timer.armed` event.
unfoldable pub due_text : Timer → Text
unfolding rfc3339 span
due_text t =
    codes ", due "
    ++ rfc3339 t.due
    ++ (if t.every == 0 then [] else codes ", every " ++ span t.every)

unfoldable pub add_timer_tx : TimerSpec → ℕ → ℕ → M Timer
unfolding require_unfinished new_timer insert_timer append_event timer_detail due_text
add_timer_tx spec now at = do
  require_unfinished spec.task_id
  waiting ← query (λ db. exists_where (is_wait_of spec.task_id) db.timers)
  refuse (spec.waits && waiting) conflict
  armed ← query armed_count
  refuse (leb max_timers armed) conflict
  id ← query next_timer_id
  exec (insert_timer (new_timer spec now at id))
  emit at (codes "timer.armed") spec.task_id
      (timer_detail (new_timer spec now at id) (due_text (new_timer spec now at id)))
  pure (new_timer spec now at id)

-- Store.AddTimer reads the clock twice, `now` for the checks and `at` for the row.
unfoldable pub add_timer : TimerSpec → ℕ → ℕ → M Timer
unfolding is_bad_timer add_timer_tx
add_timer spec now at = do refuse (is_bad_timer spec now) invalid; add_timer_tx spec now at

-- slices.SortStableFunc by the due time.
unfoldable pub insert_by_due : Timer → List Timer → List Timer
insert_by_due t [] = t ∷ []
insert_by_due t (u ∷ us) =
    let rest = insert_by_due t us in if leb t.due u.due then t ∷ u ∷ us else u ∷ rest

unfoldable pub sort_by_due : List Timer → List Timer
unfolding insert_by_due
sort_by_due [] = []
sort_by_due (t ∷ ts) = insert_by_due t (sort_by_due ts)

-- armedTimers.
unfoldable pub armed_timers : Db → List Timer
unfolding sort_by_due
armed_timers db = sort_by_due (select (λ (t : Timer). is_armed t.status) db.timers)

abbrev pub is_due : ℕ → Timer → Bool
is_due now t = leb t.due now

-- The `Beyond` of TimersAt.
abbrev pub is_beyond : ℕ → Timer → Bool
is_beyond now t = ltb (now + timer_watch_horizon) t.due

-- The next due time of a timer that repeats.
abbrev pub next_due : ℕ → Timer → ℕ
next_due now t =
    if leb (t.due + t.every * second) now then now + t.every * second else t.due + t.every * second

-- The extra of the `timer.fired` event.
unfoldable pub late_text : ℕ → Timer → Text
unfolding span
late_text now t =
    let late = truncate (now - t.due) minute in
    if leb min_timer late then codes ", " ++ span (late / second) ++ codes " late" else []

-- The columns that the UPDATE for the timer `t` sets on the row that it finds.
unfoldable pub fire_row : ℕ → Timer → Timer → Timer
fire_row now t u =
    if ltb 0 t.every
    then record u { due = next_due now t }
    else record u { status = TimerStatus.fired; ended_at = some now }

unfoldable pub fire_one : ℕ → Timer → Db → Db
unfolding fire_row append_event timer_detail late_text
fire_one now t db =
    append_event now (codes "timer.fired") t.task_id (timer_detail t (late_text now t))
      (record db { timers = update_where (λ (u : Timer). u.id == t.id) (fire_row now t) db.timers })

-- The loop of FireTimers over the timers that are due.
unfoldable pub fire_all : ℕ → List Timer → M (List Text)
unfolding fire_one timer_detail late_text
fire_all now [] = pure []
fire_all now (t ∷ ts) =
    let rest = fire_all now ts in
    do exec (fire_one now t); fired ← rest; pure (timer_detail t (late_text now t) ∷ fired)

-- Store.FireTimers.
unfoldable pub fire_timers : ℕ → M (List Text)
unfolding armed_timers fire_all
fire_timers now = do
  armed ← query armed_timers
  if exists_where (is_due now) armed then fire_all now (select (is_due now) armed) else pure []

abbrev pub timer_of : ℕ → Db → Option Timer
timer_of id db = find (λ (t : Timer). t.id == id) db.timers

unfoldable pub set_cancelled : ℕ → ℕ → Db → Db
set_cancelled id at db = record db {
  timers =
      update_where (λ (t : Timer). t.id == id)
        (λ (t : Timer). record t { status = TimerStatus.cancelled; ended_at = some at }) db.timers;
}

-- Store.CancelTimer.
unfoldable pub cancel_timer : ℕ → ℕ → M Timer
unfolding set_cancelled append_event timer_ref
cancel_timer id at = do
  t ← query_row (timer_of id) not_found
  refuse (not (is_armed t.status)) conflict
  exec (set_cancelled id at)
  emit at (codes "timer.cancelled") t.task_id (timer_ref id)
  pure (record t { status = TimerStatus.cancelled })

-- Store.Waits: the armed timer that a task waits on.
unfoldable pub wait_of : ℕ → Db → Option Timer
unfolding armed_timers
wait_of task_id db = find_last (λ (t : Timer). t.waits && t.task_id == task_id) (armed_timers db)
