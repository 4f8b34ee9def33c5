-- ===== src/Watch/Observe.antt =====
-- internal/cli/watch.go: one look of the watcher at an attempt, `observe`.
use hand.Base.{
  Option, Text, [], codes, false, if◌then◌else◌, none, not, ok, some, text_eq, true, ◌&&◌, ◌||◌,
}
use hand.State.Schema.{Attempt, Db}
use hand.Watch.World.{
  Answers, Outcome, Readers, Screen, Turn, World, blocked, finished, held, last_kind, note,
  prefills, resting, see, set_held, set_pending, set_turn, unless_conflict, working,
}
use hand.Watch.Rest.{note_blocked, on_rest}

-- The branch of "working".
unfoldable pub on_working : Answers → Attempt → Text → World → Outcome
unfolding text_eq note
on_working x a prev w =
    if text_eq prev blocked
    then (let (res, w') = note x a.id working [] w in unless_conflict res w' (λ v. (ok tt, v)))
    else (ok tt, w)

-- The switch at the end of `observe`.
unfoldable pub on_status :
    Readers → Answers → Attempt → Text → Text → Option Turn → Text → World → Outcome
unfolding text_eq on_working note_blocked on_rest
on_status r x a status prev t screen w =
    if text_eq status working
    then on_working x a prev w
    else if text_eq status blocked
    then note_blocked r x a [] screen w
    else if text_eq status finished || text_eq status resting
    then on_rest r x a status prev t w
    else (ok tt, w)

-- `prev`, which for an agent that fills its prompt in beforehand comes from the log.
unfoldable pub prev_status : Attempt → Text → Text → Db → Text
unfolding text_eq prefills last_kind
prev_status a status prev db =
    if text_eq status working
      && not (text_eq prev blocked)
      && prefills a.harness
      && text_eq (last_kind a.id db) (codes "attempt.blocked")
    then blocked
    else prev

-- A turn begins where work is seen and ends with any other status.
unfoldable pub next_turn : Answers → Text → Option Turn → Option Turn
unfolding text_eq
next_turn x status (some t) = if text_eq status working then some t else none
next_turn x status none =
    if text_eq status working then some (record { since = x.now; long = false }) else none

-- `observe` from where the status counts.
unfoldable pub settle : Readers → Answers → Attempt → Text → Text → World → Outcome
unfolding text_eq prev_status next_turn on_status
settle r x a status screen w =
    let t = w.watcher.turns a.id in
    let prev = prev_status a status (w.watcher.seen a.id) w.db in
    let w' = set_turn a.id (next_turn x status t) (set_pending a.id false w) in
    if text_eq prev status
    then (ok tt, w')
    else on_status r x a status prev t screen (set_held a.id none (see a.id status w'))

-- A second look at a blocked agent, by its screen.
unfoldable pub settle_blocked : Readers → Answers → Attempt → Option Screen → World → Outcome
unfolding text_eq
settle_blocked r x a none w = settle r x a blocked [] w
settle_blocked r x a (some s) w =
    if text_eq s.terminal_id a.terminal.terminal_id
    then (if r.waiting a.harness s.text then settle r x a blocked s.text w else (ok tt, w))
    else settle r x a blocked [] w

-- watcher.observe.
unfoldable pub observe : Readers → Answers → Attempt → Text → World → Outcome
unfolding text_eq
observe r x a status w =
    let prev = w.watcher.seen a.id in
    if text_eq prev held && (text_eq status finished || text_eq status resting)
    then (ok tt, set_pending a.id false w)
    else if text_eq status blocked
    then if w.watcher.blocked_pending a.id
      then settle_blocked r x a x.screen w
      else (ok tt, (if text_eq prev blocked then w else set_pending a.id true w))
    else settle r x a status [] w
