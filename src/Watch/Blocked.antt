-- ===== src/Watch/Blocked.antt =====
-- internal/cli/watch.go: an agent counts as blocked from the second look on (`confirmBlocked`), and what
-- an agent that works again is noted by (`unblock`).
use hand.Base.{
  ==_refl, Bool, Bool-cases, List, Option, Text, [], ap, codes, exists_where, false, if◌then◌else◌,
  inl, inr, none, not, ok, refl, some, text_eq, text_eq→eq, true, ℕ, ◌&&◌, ◌==◌, ◌||◌, ◌∙◌, ◌∷◌,
  ◌≡◌, ◌≢◌,
}
use hand.State.Schema.{Attempt, AttemptStatus}
use hand.State.Statuses.{attempt_status_eq}
use hand.State.Attempts.{live_attempts}
use hand.Watch.Observe.{next_turn, observe, prev_status, settle}
use hand.Watch.World.{
  Answers, Outcome, Readers, World, and_then, blocked, finished, held, last_kind, prefills, put,
  resting, see, set_held, set_pending, set_turn, working,
}
use hand.Watch.Announce.{on_status-Kept}

-- What luvus says of an attempt's pane, `none` for an error of Explain, with the answers of the look
-- that follows.
abbrev pub Explain : Type 0
Explain = Attempt → Option (Text × Answers)

-- The marks of the attempts that were not checked are dropped.
abbrev pub drop_unchecked : List ℕ → World → World
drop_unchecked checked w = record w {
  watcher = record w.watcher {
    blocked_pending = λ id. w.watcher.blocked_pending id && exists_where (λ k. k == id) checked;
  };
}

-- The loops of confirmBlocked: over the live attempts, with the ids that it checked, and over the marks.
unfoldable pub confirm_from : Readers → Explain → List ℕ → List Attempt → World → Outcome
confirm_from r ask checked [] w = (ok tt, drop_unchecked checked w)
confirm_from r ask checked (a ∷ live) w =
    let skip = confirm_from r ask checked live w in
    if not (w.watcher.blocked_pending a.id) then skip else elim (ask a) [
      | none ↦ confirm_from r ask (a.id ∷ checked) live w
      | some (status, x) ↦
          and_then (observe r x a status w) (λ w'. confirm_from r ask (a.id ∷ checked) live w')
    ]

-- confirmBlocked. Where no attempt is marked, neither loop does anything.
unfoldable pub confirm_blocked : Readers → Explain → World → Outcome
unfolding confirm_from live_attempts
confirm_blocked r ask w = confirm_from r ask [] (live_attempts w.db) w

-- The test of `unblock`.
unfoldable pub is_unblocking : Text → Attempt → World → Bool
unfolding text_eq prefills last_kind
is_unblocking generation a w =
    attempt_status_eq a.status AttemptStatus.running
    && text_eq a.terminal.server_generation generation
    && not (text_eq (w.watcher.seen a.id) blocked)
    && prefills a.harness
    && text_eq (last_kind a.id w.db) (codes "attempt.blocked")

unfoldable pub unblock_from : Readers → Explain → Text → List Attempt → World → Outcome
unfolding is_unblocking
unblock_from r ask generation [] w = (ok tt, w)
unblock_from r ask generation (a ∷ live) w =
    let skip = unblock_from r ask generation live w in
    if not (is_unblocking generation a w) then skip else elim (ask a) [
      | none ↦ unblock_from r ask generation live w
      | some (status, x) ↦ elim (text_eq status working) [
        | false ↦ unblock_from r ask generation live w
        | true ↦ and_then (observe r x a working w) (λ w'. unblock_from r ask generation live w')
      ]
    ]

-- unblock.
unfoldable pub unblock : Readers → Explain → Text → World → Outcome
unfolding unblock_from live_attempts
unblock r ask generation w = unblock_from r ask generation (live_attempts w.db) w

module _ (r : Readers) (x : Answers) (a : Attempt) where
  settle-pending :
      (status screen : Text) (w : World)
      → (settle r x a status screen w).1.watcher.blocked_pending a.id ≡ false
  unfolding settle
  settle-pending status screen w =
      let t = w.watcher.turns a.id in
      let prev = prev_status a status (w.watcher.seen a.id) w.db in
      let w' = set_turn a.id (next_turn x status t) (set_pending a.id false w) in
      let off : put w.watcher.blocked_pending a.id false a.id ≡ false = rw (==_refl a.id) refl in
      elim (Bool-cases (text_eq prev status)) [
        | inl e ↦ rw e off
        | inr e ↦ rw e (
            ap (λ (f : ℕ → Bool). f a.id)
              (on_status-Kept r x a status prev t screen
                (set_held a.id none (see a.id status w'))).1
            ∙ off)
      ]

  observe-pending :
      (status : Text) (w : World)
      → text_eq status blocked ≡ false
      → (observe r x a status w).1.watcher.blocked_pending a.id ≡ false
  unfolding observe
  observe-pending status w e =
      elim (Bool-cases (
        text_eq (w.watcher.seen a.id) held
        && (text_eq status finished || text_eq status resting))) [
          | inl f ↦ rw f (rw (==_refl a.id) refl)
          | inr f ↦ rw f (rw e (settle-pending status [] w))
        ]

-- A first look at a blocked agent only marks it.
observe-first_blocked :
    (r : Readers) (x : Answers) (a : Attempt) (w : World)
    → w.watcher.blocked_pending a.id ≡ false
    → ((observe r x a blocked w).1.db ≡ w.db)
      × ((observe r x a blocked w).1.watcher.alerts ≡ w.watcher.alerts)
unfolding observe
observe-first_blocked r x a w e = elim (Bool-cases (text_eq (w.watcher.seen a.id) held)) [
  | inl h ↦ rw h (rw e (first (text_eq (w.watcher.seen a.id) blocked)))
  | inr h ↦ rw h (rw e (first (text_eq (w.watcher.seen a.id) blocked)))
]
  where
    first :
        (b : Bool)
        → ((if b then w else set_pending a.id true w).db ≡ w.db)
          × ((if b then w else set_pending a.id true w).watcher.alerts ≡ w.watcher.alerts)
    first true = (refl, refl)
    first false = (refl, refl)

-- One look that finds an agent blocked, after a look that found it otherwise, writes nothing to the log
-- and raises no alert: it takes a second such look.
pub observe-blocked_twice :
    (r : Readers) (x y : Answers) (a : Attempt) (status : Text) (w : World)
    → status ≢ blocked
    → ((observe r y a blocked (observe r x a status w).1).1.db ≡ (observe r x a status w).1.db)
      × ((observe r y a blocked (observe r x a status w).1).1.watcher.alerts
          ≡ (observe r x a status w).1.watcher.alerts)
observe-blocked_twice r x y a status w ne =
    let differs : text_eq status blocked ≡ false = elim (Bool-cases (text_eq status blocked)) [
      | inl e ↦ absurd (ne (text_eq→eq status blocked e))
      | inr e ↦ e
    ] in
    observe-first_blocked r y a (observe r x a status w).1 (observe-pending r x a status w differs)
