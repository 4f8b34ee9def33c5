-- ===== src/Watch/Turns.antt =====
-- internal/cli/watch.go: turns that last (`longTurns`), and the first look of a session (`catchUp`).
use hand.Base.{
  Bool, List, Option, Text, [], codes, contains_text, exists_where, if◌then◌else◌, is_empty, ltb,
  none, not, ok, some, text_eq, true, ℕ, ◌&&◌, ◌++◌, ◌-◌, ◌==◌, ◌||◌, ◌∷◌,
}
use hand.State.Schema.{Attempt, AttemptStatus}
use hand.State.Refs.{attempt_ref}
use hand.State.Statuses.{attempt_status_eq}
use hand.State.Attempts.{live_attempts, opencode}
use hand.Watch.Observe.{observe}
use hand.Watch.World.{
  Answers, Outcome, Readers, Turn, World, alert, and_then, argv_session, blocked, last_kind, note,
  prefills, resting, see, set_held, set_turn, unless_conflict, working,
}
use hand.Watch.Rest.{known_turn}
use hand.Watch.Blocked.{Explain}

-- longTurn, in nanoseconds, and longDetail.
abbrev pub long_turn : ℕ
long_turn = 3600000000000

abbrev pub long_detail : Text
long_detail = codes "working for 60m"

-- Is an attempt of the list running under this id?
unfoldable pub is_running : List Attempt → ℕ → Bool
is_running live id =
    exists_where (λ (a : Attempt). a.id == id && attempt_status_eq a.status AttemptStatus.running)
      live

-- The turn of a running attempt: it is called long once.
unfoldable pub call_long : Answers → ℕ → Turn → World → Outcome
unfolding note attempt_ref
call_long x id t w =
    if t.long || ltb (x.now - t.since) long_turn
    then (ok tt, w)
    else let (res, w') = note x id (codes "long") long_detail w in
      unless_conflict res w' (λ v. (
        ok tt,
        alert (codes "attempt.long") id (attempt_ref id ++ codes " long: " ++ long_detail)
            (set_turn id (some (record t { long = true })) v),
      ))

-- One round of the loop of longTurns.
unfoldable pub check_turn : Answers → List Attempt → ℕ → Option Turn → World → Outcome
unfolding is_running call_long
check_turn x live id none w = (ok tt, w)
check_turn x live id (some t) w =
    if not (is_running live id) then (ok tt, set_turn id none w) else call_long x id t w

-- The loop, over the ids in the order in which the map gives them.
unfoldable pub long_turns_from : Answers → List Attempt → List ℕ → World → Outcome
unfolding check_turn
long_turns_from x live [] w = (ok tt, w)
long_turns_from x live (id ∷ ids) w =
    and_then (check_turn x live id (w.watcher.turns id) w) (λ w'. long_turns_from x live ids w')

-- longTurns.
unfoldable pub long_turns : Answers → List ℕ → World → Outcome
unfolding long_turns_from live_attempts
long_turns x ids w = long_turns_from x (live_attempts w.db) ids w

-- `prev` of catchUp: what an attempt is taken to have been doing, by the log's last event `last`.
unfoldable pub caught_up : Bool → Attempt → Text → Text → Text
unfolding text_eq contains_text prefills argv_session
caught_up carried a last status =
    if carried
    then working
    else if contains_text
          (codes "attempt.quiet" ∷ codes "attempt.idle" ∷ codes "attempt.limited" ∷ []) last
        && not (text_eq status blocked)
    then status
    else if text_eq last (codes "attempt.blocked")
        && (not (text_eq status working) || prefills a.harness)
    then blocked
    else if contains_text
        (codes "attempt.long" ∷ codes "attempt.working" ∷ codes "attempt.blocked" ∷ []) last
    then working
    else if text_eq status resting
        && not (text_eq last (codes "attempt.keys"))
        && not (text_eq last (codes "attempt.sent"))
    then if text_eq a.harness opencode && not (is_empty (argv_session a.argv))
      then codes "idle?"
      else resting
    else working

-- The turn that an agent found at work is in.
unfoldable pub caught_turn : Answers → Attempt → Text → World → World
unfolding text_eq known_turn
caught_turn x a status w = elim (w.watcher.turns a.id) [
  | some t ↦ w
  | none ↦
      if text_eq status working then set_turn a.id (some (known_turn x a.id none w.db)) w else w
]

-- One round of the loop of catchUp, for an attempt whose pane luvus knows.
unfoldable pub catch_up_one : Readers → Bool → Attempt → Text → Answers → World → Outcome
unfolding caught_up last_kind caught_turn text_eq
catch_up_one r carried a status x w =
    let prev = caught_up carried a (last_kind a.id w.db) status in
    if text_eq prev (codes "idle?")
    then (ok tt, set_held a.id (some x.now) (see a.id prev w))
    else observe r x a status (caught_turn x a status (see a.id prev w))

-- catchUp.
unfoldable pub catch_up_from :
    Readers → Explain → Text → (ℕ → Bool) → List Attempt → World → Outcome
unfolding text_eq catch_up_one
catch_up_from r ask generation carried [] w = (ok tt, w)
catch_up_from r ask generation carried (a ∷ live) w =
    let skip = catch_up_from r ask generation carried live w in
    if not (attempt_status_eq a.status AttemptStatus.running)
      || not (text_eq a.terminal.server_generation generation)
    then skip
    else elim (ask a) [
      | none ↦ catch_up_from r ask generation carried live w
      | some (status, x) ↦
          and_then (catch_up_one r (carried a.id) a status x w)
            (λ w'. catch_up_from r ask generation carried live w')
    ]

unfoldable pub catch_up : Readers → Explain → Text → (ℕ → Bool) → World → Outcome
unfolding catch_up_from live_attempts
catch_up r ask generation carried w = catch_up_from r ask generation carried (live_attempts w.db) w
