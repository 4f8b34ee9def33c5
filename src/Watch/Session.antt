-- ===== src/Watch/Session.antt =====
-- internal/cli/watch.go: the watcher beside the other processes that write to the store, and why every
-- alert can be read up in the log.
use hand.Base.{
  All, All-append, All-imp, Bool, Bool-cases, Error, List, Option, Option-cases, Text, [], arith,
  codes, err, exists_where, inl, inr, ltb, none, not, ok, refl, some, starts_with, text_eq,
  text_eq_refl, true, ℕ, ◌&&◌, ◌++◌, ◌-◌, ◌||◌, ◌∷◌, ◌≡◌,
}
use hand.State.Schema.{Attempt, AttemptStatus, Db, Event}
use hand.State.Calls.{Call, Reachable, step}
use hand.State.Statuses.{attempt_status_eq}
use hand.State.Refs.{attempt_ref}
use hand.State.Attempts.{live_attempts}
use hand.State.Events.{append_event}
use hand.State.Log.Calls.{log_appends}
use hand.Watch.Observe.{observe}
use hand.Watch.World.{
  Alert, Answers, Outcome, Readers, Turn, World, and_then, last_kind, see, working,
}
use hand.Watch.Notes.{Announces, after_note}
use hand.Watch.Notes.{silent, logged, alerted}
use hand.Watch.Announce.{observe-Announced}
use hand.Watch.Blocked.{
  Explain, confirm_blocked, confirm_from, is_unblocking, unblock, unblock_from,
}
use hand.Watch.Turns.{
  call_long, catch_up, catch_up_from, catch_up_one, caught_turn, caught_up, check_turn, is_running,
  long_detail, long_turn, long_turns, long_turns_from,
}

-- Does the event say what the alert says?
abbrev pub is_ground : Alert → Event → Bool
is_ground al e = text_eq e.kind al.kind && starts_with (al.ref ++ codes ": ") e.detail

-- The log has an event of the alert's kind about the alert's attempt.
abbrev pub Logged : Db → Alert → Type 0
Logged db al = exists_where (is_ground al) db.events ≡ true

-- A database that calls of the store lead to, and alerts that its log accounts for.
pub record Accounted (db : Db) (alerts : List Alert) : Type 0 where
  pub reachable : Reachable db
  pub grounded : All (Logged db) alerts

-- The worlds of a watcher that looks at attempts: it starts without alerts; other processes call the
-- store; and it looks because of an event (agentStatus) or in one of its loops.
pub data Watched : World → Type 0 where
  begins : (w : World) → Reachable w.db → w.watcher.alerts ≡ [] → Watched w
  elsewhere :
      {w : World}
      → Watched w
      → (commit_error : Option Error) (call : Call)
      → Watched (record w { db = step commit_error call w.db })
  looks :
      {w : World}
      → Watched w
      → (r : Readers) (x : Answers) (a : Attempt) (status : Text)
      → Watched (observe r x a status w).1
  confirms :
      {w : World} → Watched w → (r : Readers) (ask : Explain) → Watched (confirm_blocked r ask w).1
  unblocks :
      {w : World}
      → Watched w
      → (r : Readers) (ask : Explain) (generation : Text) → Watched (unblock r ask generation w).1
  calls_long :
      {w : World} → Watched w → (x : Answers) (ids : List ℕ) → Watched (long_turns x ids w).1
  catches_up :
      {w : World}
      → Watched w
      → (r : Readers) (ask : Explain) (generation : Text) (carried : ℕ → Bool)
      → Watched (catch_up r ask generation carried w).1

exists_where-append :
    {A : Type 0} (p : A → Bool) (xs ys : List A)
    → exists_where p xs ≡ true
    → exists_where p (xs ++ ys) ≡ true
exists_where-append p [] ys h = cc
exists_where-append p (x ∷ xs) ys h = ground (arith, exists_where-append p xs ys)

exists_where-last :
    {A : Type 0} (p : A → Bool) (xs : List A) (y : A)
    → p y ≡ true
    → exists_where p (xs ++ y ∷ []) ≡ true
exists_where-last p [] y h = rw h refl
exists_where-last p (x ∷ xs) y h = ground (arith, exists_where-last p xs y h)

starts_with-append : (s t : Text) → starts_with s (s ++ t) ≡ true
unfolding starts_with
starts_with-append [] t = refl
starts_with-append (c ∷ s) t = ground (arith, starts_with-append s t)

-- One more call of the store keeps what is accounted for.
step-Accounted :
    (commit_error : Option Error) (call : Call) (db : Db) (alerts : List Alert)
    → Accounted db alerts
    → Accounted (step commit_error call db) alerts
step-Accounted commit_error call db alerts h =
    let (added, longer) = (log_appends db h.reachable commit_error call).extends in
    record {
      reachable = Reachable.after h.reachable commit_error call;
      grounded =
          All-imp (Logged db) (Logged (step commit_error call db)) alerts
            (λ al g. rw longer (exists_where-append (is_ground al) db.events added g)) h.grounded;
    }

Announces-Accounted :
    {now id : ℕ} {db db' : Db} {alerts alerts' : List Alert}
    → Announces now id db alerts db' alerts'
    → Accounted db alerts
    → Accounted db' alerts'
unfolding append_event
Announces-Accounted (silent e f) h = rw e (rw f h)
Announces-Accounted {db = db} {alerts = alerts} (logged row call e s f g) h =
    rw g (rw s (step-Accounted none call db alerts h))
Announces-Accounted {id = id} {db = db} {alerts = alerts}
      (alerted row call kind detail text e s f g) h =
    rw g (record {
      reachable = rw s (step-Accounted none call db alerts h).reachable;
      grounded = All-append _ alerts _ (rw s (step-Accounted none call db alerts h).grounded) (
        rw f (
            exists_where-last _ db.events _
              (rw (text_eq_refl kind) (starts_with-append (attempt_ref id ++ codes ": ") detail))),
        tt,
      );
    })

-- The world of an outcome is accounted for.
abbrev Good : Outcome → Type 0
Good o = Accounted (o.1).db (o.1).watcher.alerts

abbrev IsGood : World → Type 0
IsGood w = Accounted w.db w.watcher.alerts

observe-Good :
    (r : Readers) (x : Answers) (a : Attempt) (status : Text) (w : World)
    → IsGood w
    → Good (observe r x a status w)
observe-Good r x a status w h = Announces-Accounted (observe-Announced r x a status w) h

and_then-Good :
    (o : Outcome) (k : World → Outcome)
    → Good o
    → ((w : World) → IsGood w → Good (k w))
    → Good (and_then o k)
and_then-Good (ok u, w) k h f = f w h
and_then-Good (err e, w) k h f = h

confirm_from-Good :
    (r : Readers) (ask : Explain) (checked : List ℕ) (live : List Attempt) (w : World)
    → IsGood w
    → Good (confirm_from r ask checked live w)
unfolding confirm_from
confirm_from-Good r ask checked [] w h = h
confirm_from-Good r ask checked (a ∷ live) w h =
    elim (Bool-cases (w.watcher.blocked_pending a.id)) [
      | inr e ↦ rw e (confirm_from-Good r ask checked live w h)
      | inl e ↦ elim (Option-cases (ask a)) [
        | inl f ↦ rw e (rw (f, confirm_from) (confirm_from-Good r ask (a.id ∷ checked) live w h))
        | inr ((status, x), f) ↦ rw e (
            rw (f, confirm_from)
              (and_then-Good (observe r x a status w) _ (observe-Good r x a status w h)
                (λ w' h'. confirm_from-Good r ask (a.id ∷ checked) live w' h')))
      ]
    ]

unblock_from-Good :
    (r : Readers) (ask : Explain) (generation : Text) (live : List Attempt) (w : World)
    → IsGood w
    → Good (unblock_from r ask generation live w)
unfolding unblock_from
unblock_from-Good r ask generation [] w h = h
unblock_from-Good r ask generation (a ∷ live) w h =
    elim (Bool-cases (is_unblocking generation a w)) [
      | inr e ↦ rw e (unblock_from-Good r ask generation live w h)
      | inl e ↦ elim (Option-cases (ask a)) [
        | inl f ↦ rw e (rw (f, unblock_from) (unblock_from-Good r ask generation live w h))
        | inr ((status, x), f) ↦ elim (Bool-cases (text_eq status working)) [
          | inr g ↦ rw e (
              rw (f, unblock_from)
                (rw (g, unblock_from) (unblock_from-Good r ask generation live w h)))
          | inl g ↦ rw e (
              rw (f, unblock_from)
                (rw (g, unblock_from)
                  (and_then-Good (observe r x a working w) _ (observe-Good r x a working w h)
                    (λ w' h'. unblock_from-Good r ask generation live w' h'))))
        ]
      ]
    ]

call_long-Good :
    (x : Answers) (id : ℕ) (t : Turn) (w : World) → IsGood w → Good (call_long x id t w)
unfolding call_long
call_long-Good x id t w h = elim (Bool-cases (t.long || ltb (x.now - t.since) long_turn)) [
  | inl e ↦ rw e h
  | inr e ↦ rw e (
      Announces-Accounted
        (after_note x id w (codes "long") long_detail _ (λ row call f s.
          (alerted row call (codes "attempt.long") long_detail _ f s refl refl, refl))).0
        h)
]

long_turns_from-Good :
    (x : Answers) (live : List Attempt) (ids : List ℕ) (w : World)
    → IsGood w
    → Good (long_turns_from x live ids w)
unfolding long_turns_from
long_turns_from-Good x live [] w h = h
long_turns_from-Good x live (id ∷ ids) w h =
    and_then-Good (check_turn x live id (w.watcher.turns id) w) _ (check (w.watcher.turns id))
      (λ w' h'. long_turns_from-Good x live ids w' h')
  where
    check : (t : Option Turn) → Good (check_turn x live id t w)
    check none = unfold check_turn in h
    check (some t) =
        unfold check_turn in
        elim (Bool-cases (is_running live id)) [
          | inl e ↦ rw e (call_long-Good x id t w h)
          | inr e ↦ rw e h
        ]

caught_turn-IsGood :
    (x : Answers) (a : Attempt) (status : Text) (w : World)
    → IsGood w
    → IsGood (caught_turn x a status w)
unfolding caught_turn
caught_turn-IsGood x a status w h = elim (Option-cases (w.watcher.turns a.id)) [
  | inr (t, e) ↦ rw (e, caught_turn) h
  | inl e ↦ elim (Bool-cases (text_eq status working)) [
    | inl f ↦ rw (e, caught_turn) (rw (f, caught_turn) h)
    | inr f ↦ rw (e, caught_turn) (rw (f, caught_turn) h)
  ]
]

catch_up_one-Good :
    (r : Readers) (carried : Bool) (a : Attempt) (status : Text) (x : Answers) (w : World)
    → IsGood w
    → Good (catch_up_one r carried a status x w)
unfolding catch_up_one
catch_up_one-Good r carried a status x w h =
    let prev = caught_up carried a (last_kind a.id w.db) status in
    elim (Bool-cases (text_eq prev (codes "idle?"))) [
      | inl e ↦ rw e h
      | inr e ↦
          rw e (observe-Good r x a status _ (caught_turn-IsGood x a status (see a.id prev w) h))
    ]

catch_up_from-Good :
    (r : Readers) (ask : Explain) (generation : Text) (carried : ℕ → Bool) (live : List Attempt)
    (w : World)
    → IsGood w
    → Good (catch_up_from r ask generation carried live w)
unfolding catch_up_from
catch_up_from-Good r ask generation carried [] w h = h
catch_up_from-Good r ask generation carried (a ∷ live) w h =
    let skip = catch_up_from-Good r ask generation carried live w h in
    elim (Bool-cases (
      not (attempt_status_eq a.status AttemptStatus.running)
      || not (text_eq a.terminal.server_generation generation))) [
        | inl e ↦ rw e skip
        | inr e ↦ elim (Option-cases (ask a)) [
          | inl f ↦ rw e (rw (f, catch_up_from) skip)
          | inr ((status, x), f) ↦ rw e (
              rw (f, catch_up_from)
                (and_then-Good (catch_up_one r (carried a.id) a status x w) _
                  (catch_up_one-Good r (carried a.id) a status x w h)
                  (λ w' h'. catch_up_from-Good r ask generation carried live w' h')))
        ]
      ]

-- However observe, confirmBlocked, unblock, longTurns and catchUp of one watcher follow each other,
-- whatever luvus answers them and whatever calls of State/Calls other processes make in between: the
-- database is one that such calls lead to, and for every alert that these five have raised, its log has
-- an event of the same kind about the same attempt. The watcher's other alerts, on the supervisor, on
-- decisions, on ended attempts and on refused requests, are none of theirs.
pub Watched-Accounted : (w : World) → Watched w → Accounted w.db w.watcher.alerts
unfolding confirm_blocked unblock long_turns catch_up
Watched-Accounted w (Watched.begins _ reachable fresh) = record {
  reachable = reachable;
  grounded = rw fresh tt;
}
Watched-Accounted w (Watched.elsewhere {w = before} s commit_error call) =
    step-Accounted commit_error call before.db before.watcher.alerts (Watched-Accounted before s)
Watched-Accounted w (Watched.looks {w = before} s r x a status) =
    observe-Good r x a status before (Watched-Accounted before s)
Watched-Accounted w (Watched.confirms {w = before} s r ask) =
    confirm_from-Good r ask [] _ before (Watched-Accounted before s)
Watched-Accounted w (Watched.unblocks {w = before} s r ask generation) =
    unblock_from-Good r ask generation (live_attempts before.db) before (Watched-Accounted before s)
Watched-Accounted w (Watched.calls_long {w = before} s x ids) =
    long_turns_from-Good x _ ids before (Watched-Accounted before s)
Watched-Accounted w (Watched.catches_up {w = before} s r ask generation carried) =
    catch_up_from-Good r ask generation carried (live_attempts before.db) before
      (Watched-Accounted before s)
