-- ===== src/Watch/Announce.antt =====
-- internal/cli/watch.go: `observe` writes to the log and alerts together.
use hand.Base.{
  Bool, Bool-cases, Error, Option, Option-cases, Text, [], codes, conflict, err, false,
  if◌then◌else◌, inl, inr, none, not, not_found, ok, refl, some, text_eq, true, ℕ, ◌&&◌, ◌||◌, ◌≡◌,
  ◌⊎◌,
}
use hand.State.Queries.{last_limit}
use hand.State.Reports.{quiet_detail, quiet_kind, record_quiet}
use hand.State.Schema.{Attempt, Db}
use hand.State.Transactions.{query_row, tx, ◌>>=◌}
use hand.State.Refs.{attempt_ref, noted}
use hand.State.Events.{append_event, last_attempt_event}
use hand.State.Statuses.{is_live}
use hand.State.Attempts.{attempt_of}
use hand.Watch.Observe.{next_turn, observe, on_status, prev_status, settle, settle_blocked}
use hand.State.Calls.{Call, perform}
use hand.Watch.World.{
  Answers, Outcome, Readers, Screen, Turn, World, blocked, finished, held, put_screen, resting, see,
  set_held, set_pending, set_turn, shown, unless_conflict, working,
}
use hand.Watch.Rest.{
  end_turn, hold, in_grace, is_ask, is_held, on_rest, rest_limited, rest_on, rest_screen,
}
use hand.Watch.Notes.{
  Announced, Kept, Kept-same, after_note, note_blocked-Kept, on_working-Kept, step-ok,
  unless_conflict-err,
}
use hand.Watch.Notes.{silent, alerted}

record_quiet-cases :
    (id : ℕ) (api_error : Text) (now : ℕ) (db : Db)
    → ((e : Error) × (record_quiet id api_error now db ≡ err e))
      ⊎ ((row : Attempt) × (kind : Text) × (detail : Text) × (attempt_of id db ≡ some row)
          × (record_quiet id api_error now db
              ≡ ok (
                (kind, detail),
                append_event now kind row.task_id (noted (attempt_ref id) detail) db,
              )))
unfolding record_quiet ◌>>=◌
record_quiet-cases id api_error now db = elim (Option-cases (attempt_of id db)) [
  | inl e ↦ inl (not_found, rw (e, ◌>>=◌, query_row) refl)
  | inr (row, e) ↦ elim (Bool-cases (not (is_live row.status))) [
    | inl f ↦ inl (conflict, rw (e, ◌>>=◌, query_row) (rw f refl))
    | inr f ↦ inr (
      row,
      quiet_kind (last_attempt_event id db),
      quiet_detail id api_error db,
      e,
      rw (e, ◌>>=◌, query_row) (rw f refl),
    )
  ]
]

module _ (r : Readers) (x : Answers) (a : Attempt) where
  end_turn-Kept : (screen : Text) (w : World) → Kept x a.id w (end_turn r x a screen w)
  unfolding end_turn tx perform ◌>>=◌
  end_turn-Kept screen w =
      elim (record_quiet-cases a.id (r.api_error a.harness screen) x.now w.db) [
        | inl (e, q) ↦
            rw (q, tx)
              (Kept-same x a.id w (unless_conflict (err e) w _) (unless_conflict-err e w _))
        | inr (row, kind, detail, f, q) ↦ elim (Option-cases x.commit) [
          | inl c ↦
              rw (q, tx)
                (rw (c, tx)
                  (
                    alerted row (Call.call_record_quiet a.id (r.api_error a.harness screen) x.now)
                        kind detail _ f
                        (step-ok (Call.call_record_quiet a.id (r.api_error a.harness screen) x.now)
                          w.db _ (rw (q, ◌>>=◌) refl))
                        refl refl,
                    refl,
                  ))
          | inr (e, c) ↦
              rw (q, tx)
                (rw (c, tx)
                  (Kept-same x a.id w (unless_conflict (err e) w _) (unless_conflict-err e w _)))
        ]
      ]

  rest_on-Kept :
      (status : Text) (t : Option Turn) (screen : Text) (w : World)
      → Kept x a.id w (rest_on r x a status t screen w)
  unfolding rest_on
  rest_on-Kept status t screen w =
      elim (Bool-cases (text_eq status resting && is_ask a.approve && not (r.claude_idle screen))) [
        | inl e ↦ rw e (note_blocked-Kept x a.id w r a (r.claude_title screen) screen refl)
        | inr e ↦ elim (Bool-cases (in_grace x a.id t w.db)) [
          | inl f ↦ rw e (rw f (silent refl refl, refl))
          | inr f ↦ rw e (rw f (end_turn-Kept screen w))
        ]
      ]

  rest_limited-Kept :
      (status : Text) (t : Option Turn) (screen : Text) (limit : Option Text) (w : World)
      → Kept x a.id w (rest_limited r x a status t screen limit w)
  unfolding rest_limited
  rest_limited-Kept status t screen none w = rest_on-Kept status t screen w
  rest_limited-Kept status t screen (some line) w =
      elim (Bool-cases (text_eq (shown (last_limit a.id w.db)) (shown line))) [
        | inl f ↦ rw f (rest_on-Kept status t screen w)
        | inr f ↦ rw f (
            after_note x a.id w (codes "limited") line _ (λ row call g s.
              (alerted row call (codes "attempt.limited") line _ g s refl refl, refl)))
      ]

  rest_screen-Kept :
      (status : Text) (t : Option Turn) (s : Option Screen) (w : World)
      → Kept x a.id w (rest_screen r x a status t s w)
  unfolding rest_screen
  rest_screen-Kept status t none w = (silent refl refl, refl)
  rest_screen-Kept status t (some s) w =
      rest_limited-Kept status t s.text (r.limit a.harness s.text) (put_screen a.id s.text w)

  hold-Kept :
      (v w : World)
      → v.db ≡ w.db
      → v.watcher.alerts ≡ w.watcher.alerts
      → v.watcher.blocked_pending ≡ w.watcher.blocked_pending
      → Kept x a.id w (ok tt, hold x a v)
  unfolding hold
  hold-Kept v w e f g = elim (Option-cases v.watcher.busy) [
    | inl q ↦ rw (q, hold) (silent e f, g)
    | inr (ids, q) ↦ rw (q, hold) (silent e f, g)
  ]

  on_rest-Kept :
      (status prev : Text) (t : Option Turn) (w : World)
      → Kept x a.id w (on_rest r x a status prev t w)
  unfolding on_rest
  on_rest-Kept status prev t w =
      elim (Bool-cases
        (text_eq status resting && not (text_eq prev working) && not (text_eq prev blocked))) [
          | inl e ↦ rw e (silent refl refl, refl)
          | inr e ↦ elim (Bool-cases (is_held a w)) [
            | inl f ↦ rw e (rw f (hold-Kept _ w refl refl refl))
            | inr f ↦ rw e (rw f (rest_screen-Kept status t x.screen w))
          ]
        ]

  pub on_status-Kept :
      (status prev : Text) (t : Option Turn) (screen : Text) (w : World)
      → Kept x a.id w (on_status r x a status prev t screen w)
  unfolding on_status
  on_status-Kept status prev t screen w = elim (Bool-cases (text_eq status working)) [
    | inl e ↦ rw e (on_working-Kept x a.id w a prev refl)
    | inr e ↦ elim (Bool-cases (text_eq status blocked)) [
      | inl f ↦ rw e (rw f (note_blocked-Kept x a.id w r a [] screen refl))
      | inr f ↦ elim (Bool-cases (text_eq status finished || text_eq status resting)) [
        | inl g ↦ rw e (rw f (rw g (on_rest-Kept status prev t w)))
        | inr g ↦ rw e (rw f (rw g (silent refl refl, refl)))
      ]
    ]
  ]

  if-Announced :
      (b : Bool) (w : World) (o o' : Outcome)
      → Announced x a.id w o
      → Announced x a.id w o'
      → Announced x a.id w (if b then o else o')
  if-Announced true w o o' h h' = h
  if-Announced false w o o' h h' = h'

  pub settle-Announced :
      (status screen : Text) (w : World) → Announced x a.id w (settle r x a status screen w)
  unfolding settle
  settle-Announced status screen w =
      let t = w.watcher.turns a.id in
      let prev = prev_status a status (w.watcher.seen a.id) w.db in
      let w' = set_turn a.id (next_turn x status t) (set_pending a.id false w) in
      elim (Bool-cases (text_eq prev status)) [
        | inl e ↦ rw e (silent refl refl)
        | inr e ↦
            rw e (on_status-Kept status prev t screen (set_held a.id none (see a.id status w'))).0
      ]

  settle_blocked-Announced :
      (s : Option Screen) (w : World) → Announced x a.id w (settle_blocked r x a s w)
  unfolding settle_blocked
  settle_blocked-Announced none w = settle-Announced blocked [] w
  settle_blocked-Announced (some s) w =
      let on : Announced x a.id w (settle r x a blocked s.text w) =
        settle-Announced blocked s.text w in
      let still : Announced x a.id w (ok tt, w) = silent refl refl in
      if-Announced (text_eq s.terminal_id a.terminal.terminal_id) w _ _
        (if-Announced (r.waiting a.harness s.text) w _ _ on still) (settle-Announced blocked [] w)

-- A look of the watcher at an attempt, whatever luvus and the screen say and also where it fails, does
-- one of three things to the log and to the alerts: nothing; the event attempt.working without an alert;
-- or one event together with one alert of the same kind about the same attempt.
pub observe-Announced :
    (r : Readers) (x : Answers) (a : Attempt) (status : Text) (w : World)
    → Announced x a.id w (observe r x a status w)
unfolding observe
observe-Announced r x a status w =
    let prev = w.watcher.seen a.id in
    let first : Announced x a.id w
        (ok tt, (if text_eq prev blocked then w else set_pending a.id true w)) =
      elim (Bool-cases (text_eq prev blocked)) [
        | inl h ↦ rw h (silent refl refl)
        | inr h ↦ rw h (silent refl refl)
      ] in
    if-Announced r x a (text_eq prev held && (text_eq status finished || text_eq status resting)) w
      _ _ (silent refl refl)
      (if-Announced r x a (text_eq status blocked) w _ _
        (if-Announced r x a (w.watcher.blocked_pending a.id) w _ _
          (settle_blocked-Announced r x a x.screen w) first)
        (settle-Announced r x a status [] w))
