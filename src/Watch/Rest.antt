-- ===== src/Watch/Rest.antt =====
-- internal/cli/watch.go and watch_opencode.go: an agent that is blocked or has come to rest.
use hand.Base.{
  Bool, Option, Result, Text, [], codes, contains_text, err, false, if◌then◌else◌, is_empty, leb,
  ltb, none, not, ok, other, some, text_eq, true, ℕ, ◌&&◌, ◌++◌, ◌+◌, ◌-◌,
}
use hand.State.Schema.{Approve, Attempt, Db}
use hand.State.Transactions.{tx}
use hand.State.Refs.{attempt_ref}
use hand.State.Attempts.{opencode}
use hand.State.Reports.{record_quiet}
use hand.State.Queries.{last_limit, turn_start}
use hand.Watch.World.{
  Answers, Outcome, Readers, Screen, Turn, World, alert, argv_session, blocked, held, note,
  put_screen, quiet_grace, resting, see, set_held, set_turn, shown, unless_conflict, working,
}

-- noteBlocked.
unfoldable pub blocked_detail : Readers → Answers → Attempt → Text → Text → Text
unfolding text_eq
blocked_detail r x a title screen =
    let hinted : Text =
      if is_empty title then (elim x.hint [ none ↦ [] | some h ↦ h ]) else title in
    if text_eq a.harness (codes "codex")
    then (elim (r.question a.harness screen) [ none ↦ hinted | some q ↦ q ])
    else hinted

unfoldable pub note_blocked : Readers → Answers → Attempt → Text → Text → World → Outcome
unfolding note blocked_detail attempt_ref
note_blocked r x a title screen w =
    if not (is_empty screen) && is_empty title && not (r.waiting a.harness screen)
    then (ok tt, w)
    else let detail = blocked_detail r x a title screen in
      let (res, w') = note x a.id blocked detail w in
      unless_conflict res w' (λ v. (
        ok tt,
        alert (codes "attempt.blocked") a.id (attempt_ref a.id ++ codes " blocked: " ++ detail)
            (see a.id blocked v),
      ))

-- The turn that a look at rest goes by: the one that is known, or the log's.
unfoldable pub known_turn : Answers → ℕ → Option Turn → Db → Turn
unfolding turn_start
known_turn x id (some t) db = t
known_turn x id none db = record {
  since = (elim ((turn_start id db).0) [ none ↦ x.now | some t ↦ t ]);
  long = (turn_start id db).1;
}

-- watcher.hold.
unfoldable pub hold : Answers → Attempt → World → World
hold x a w =
    let w' = set_held a.id (some x.now) (see a.id held w) in
    elim w.watcher.busy [
      | none ↦ record w' { watcher = record w'.watcher { sweeps = w'.watcher.sweeps + 1 } }
      | some ids ↦ w'
    ]

-- Is the opencode session of the attempt busy, or not known to be idle?
unfoldable pub is_held : Attempt → World → Bool
unfolding text_eq argv_session contains_text
is_held a w =
    text_eq a.harness opencode
    && not (is_empty (argv_session a.argv))
    && (elim w.watcher.busy [ none ↦ true | some ids ↦ contains_text ids (argv_session a.argv) ])

-- Did the turn begin less than quietGrace ago?
unfoldable pub in_grace : Answers → ℕ → Option Turn → Db → Bool
unfolding turn_start
in_grace x id t db = elim ((turn_start id db).0) [
  | none ↦ false
  | some since ↦
      let start : ℕ = elim t [ none ↦ since | some k ↦ k.since ] in
      leb start x.now && ltb (x.now - start) quiet_grace
]

-- What follows RecordQuiet: the alert, or nothing where the attempt has ended.
unfoldable pub turn_ended : Attempt → Result (Text × Text) → World → Outcome
unfolding attempt_ref
turn_ended a (ok (kind, detail)) w =
    (ok tt, alert kind a.id (attempt_ref a.id ++ codes " quiet: " ++ detail) w)
turn_ended a (err e) w = unless_conflict (err e) w (λ v. (ok tt, v))

unfoldable pub end_turn : Readers → Answers → Attempt → Text → World → Outcome
unfolding tx turn_ended
end_turn r x a screen w =
    let (res, db) = tx x.commit (record_quiet a.id (r.api_error a.harness screen) x.now) w.db in
    turn_ended a res (record w { db = db })

-- a.Approve == ApproveAsk.
unfoldable pub is_ask : Approve → Bool
is_ask Approve.ask = true
is_ask Approve.never = false

-- The end of the branch of "done" and "idle", past the usage limit.
unfoldable pub rest_on : Readers → Answers → Attempt → Text → Option Turn → Text → World → Outcome
unfolding text_eq is_ask note_blocked in_grace end_turn
rest_on r x a status t screen w =
    if text_eq status resting && is_ask a.approve && not (r.claude_idle screen)
    then note_blocked r x a (r.claude_title screen) screen w
    else if in_grace x a.id t w.db
    then (ok tt, w)
    else end_turn r x a screen w

-- A usage limit, if the screen shows one, is noted where the log's last one reads otherwise.
unfoldable pub rest_limited :
    Readers → Answers → Attempt → Text → Option Turn → Text → Option Text → World → Outcome
unfolding text_eq shown last_limit note attempt_ref rest_on
rest_limited r x a status t screen none w = rest_on r x a status t screen w
rest_limited r x a status t screen (some line) w =
    if text_eq (shown (last_limit a.id w.db)) (shown line)
    then rest_on r x a status t screen w
    else let (res, w') = note x a.id (codes "limited") line w in
      unless_conflict res w' (λ v. (
        ok tt,
        alert (codes "attempt.limited") a.id (attempt_ref a.id ++ codes " limited: " ++ line) v,
      ))

-- The screen of an agent at rest, or luvus' error.
unfoldable pub rest_screen :
    Readers → Answers → Attempt → Text → Option Turn → Option Screen → World → Outcome
unfolding rest_limited
rest_screen r x a status t none w = (err other, w)
rest_screen r x a status t (some s) w =
    rest_limited r x a status t s.text (r.limit a.harness s.text) (put_screen a.id s.text w)

-- The branch of "done" and "idle".
unfoldable pub on_rest : Readers → Answers → Attempt → Text → Text → Option Turn → World → Outcome
unfolding text_eq is_held known_turn hold rest_screen
on_rest r x a status prev t w =
    if text_eq status resting && not (text_eq prev working) && not (text_eq prev blocked)
    then (ok tt, w)
    else if is_held a w
    then (ok tt, hold x a (set_turn a.id (some (known_turn x a.id t w.db)) w))
    else rest_screen r x a status t x.screen w
