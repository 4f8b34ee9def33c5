-- ===== src/State/Endings.antt =====
-- What ends once: an attempt (attempt.go), a decision (decision.go), a report's wait for a reader
-- (report.go), an input's wait for delivery (supervisor.go) and a timer (timer.go).
use hand.Base.{
  Bool, Error, Option, Result, Text, arith, conflict, err, false, find, find-true, find-update,
  find-update_where, inl, inr, refl, some, subst, sym, true, update_where, ℕ, ◌==◌, ◌↔◌, ◌∙◌, ◌≡◌,
  ◌≢◌, ◌⊎◌,
}
use hand.State.Schema.{
  Attempt, AttemptStatus, Db, Decision, DecisionStatus, Report, Timer, TimerStatus,
}
use hand.State.Transactions.{
  Holds, M, exec-Holds, imp-Holds, pure-Holds, query-Holds, query_row, refuse, refuse-Holds,
  row-Holds, ◌>>=◌,
}
use hand.State.Transactions.Success.{
  Succeeds, exec-Succeeds, held, pure-Succeeds, refuse-Succeeds, row-Succeeds,
}
use hand.State.Statuses.{attempt_ends, contains_attempt_status, is_live, is_opened}
use hand.State.Events.{append_event}
use hand.State.Attempts.{attempt_of, end_attempt, screen_column, update_attempt}
use hand.State.Decisions.{close_decision, decision_of, is_open_with, set_decision}
use hand.State.Reports.{ack_report, report_of, set_acked}
use hand.State.Timers.{cancel_timer, set_cancelled, timer_of}
use hand.State.Screens.{screen_tail}

pub some_inj : {A : Type 0} (a b : A) → some a ≡ some b → a ≡ b
some_inj a b h = cc

-- A check that lets through.
refuse-passes :
    {A : Type 0} (test : Bool) (e : Error) (k : Unit {0} → M A) (db : Db) {r : Result (A × Db)}
    → test ≡ false
    → k tt db ≡ r
    → (refuse test e >>= k) db ≡ r
unfolding ◌>>=◌
refuse-passes test e k db q h = rw q h

-- A row that is there, refused.
pub row-refused :
    {A B : Type 0} (f : Db → Option A) (e e' : Error) (test : A → Bool) (k : A → Unit {0} → M B)
    (db : Db) (a : A)
    → f db ≡ some a
    → test a ≡ true
    → (query_row f e >>= λ x. refuse (test x) e' >>= k x) db ≡ err e'
unfolding ◌>>=◌
row-refused f e e' test k db a q t = rw (q, ◌>>=◌) (rw t refl)

ended_dead :
    (s to : AttemptStatus) → contains_attempt_status (attempt_ends s) to ≡ true → is_live to ≡ false
ended_dead s to h = ground arith

dead_ends :
    (s to : AttemptStatus) → is_live s ≡ false → contains_attempt_status (attempt_ends s) to ≡ false
dead_ends s to h = ground arith

-- A worker that was launched can fail; one that ran can exit, be stopped or be interrupted.
abbrev pub MayEnd : AttemptStatus → AttemptStatus → Type 0
MayEnd from to =
    ((from ≡ AttemptStatus.launching) × (to ≡ AttemptStatus.failed))
    ⊎ ((from ≡ AttemptStatus.running)
        × ((to ≡ AttemptStatus.exited)
            ⊎ (to ≡ AttemptStatus.stopped)
            ⊎ (to ≡ AttemptStatus.interrupted)))

attempt_ends-MayEnd :
    (from to : AttemptStatus)
    → contains_attempt_status (attempt_ends from) to ≡ true
    → MayEnd from to
attempt_ends-MayEnd AttemptStatus.launching to h = inl (refl, ground arith)
attempt_ends-MayEnd AttemptStatus.running AttemptStatus.exited h = inr (refl, inl refl)
attempt_ends-MayEnd AttemptStatus.running AttemptStatus.stopped h = inr (refl, inr (inl refl))
attempt_ends-MayEnd AttemptStatus.running AttemptStatus.interrupted h = inr (refl, inr (inr refl))
attempt_ends-MayEnd from to h = absurd (ground arith)

MayEnd-attempt_ends :
    (from to : AttemptStatus)
    → MayEnd from to
    → contains_attempt_status (attempt_ends from) to ≡ true
MayEnd-attempt_ends from to (inl (f, e)) = rw (f, e) refl
MayEnd-attempt_ends from to (inr (f, inl e)) = rw (f, e) refl
MayEnd-attempt_ends from to (inr (f, inr (inl e))) = rw (f, e) refl
MayEnd-attempt_ends from to (inr (f, inr (inr e))) = rw (f, e) refl

-- The row of an attempt that ended.
abbrev pub ended_row : AttemptStatus → Text → Text → ℕ → Attempt → Attempt
ended_row to reason screen now a = record a {
  status = to;
  reason = reason;
  ended_at = some now;
  screen = screen_column (screen_tail screen);
}

end_attempt_effect :
    (id : ℕ) (to : AttemptStatus) (reason screen : Text) (now : ℕ) (db : Db) (a : Attempt)
    → attempt_of id db ≡ some a
    → Holds
        (λ _ db'.
          MayEnd a.status to
          × (attempt_of id db' ≡ some (ended_row to reason screen now a))
          × ((other : ℕ) (b : Attempt)
              → other ≢ id
              → attempt_of other db ≡ some b
              → attempt_of other db' ≡ some b))
        (end_attempt id to reason screen now db)
unfolding end_attempt update_attempt append_event
end_attempt_effect id to reason screen now db a found = row-Holds _ _ _ _ λ a' found'.
    refuse-Holds _ _ _ _ λ allowed.
      let same : a' ≡ a = some_inj a' a (sym found' ∙ found) in
      let passes : contains_attempt_status (attempt_ends a'.status) to ≡ true = ground arith in
      let f : Attempt → Attempt = ended_row to reason screen now in
      let is_it : Attempt → Bool = λ (x : Attempt). x.id == id in
      exec-Holds _ _ _ (
        exec-Holds _ _ _ (
          pure-Holds _ _ (
            subst (λ (x : Attempt). MayEnd x.status to) same
                (attempt_ends-MayEnd a'.status to passes),
            find-update is_it f db.attempts (λ y. refl) found,
            λ other b differs there.
                let is_other : Attempt → Bool = λ (x : Attempt). x.id == other in
                let miss : is_it b ≡ false =
                  ground (arith, differs, find-true is_other db.attempts there) in
                rw miss at (find-update_where is_other is_it f db.attempts (λ y. refl) there),
          )))

-- An attempt that is there ends exactly when `to` is failed and it was launching, or `to` is exited,
-- stopped or interrupted and it was running. Its row is then the same but for the status, which is
-- `to`, the reason, the time of the end and the tail of the screen, and no other attempt has changed.
pub end_attempt_iff :
    (id : ℕ) (to : AttemptStatus) (reason screen : Text) (now : ℕ) (db : Db) (a : Attempt)
    → attempt_of id db ≡ some a
    → (Succeeds (end_attempt id to reason screen now db) ↔ MayEnd a.status to)
      × Holds
          (λ _ db'.
            (attempt_of id db' ≡ some (ended_row to reason screen now a))
            × ((other : ℕ) (b : Attempt)
                → other ≢ id
                → attempt_of other db ≡ some b
                → attempt_of other db' ≡ some b))
          (end_attempt id to reason screen now db)
unfolding end_attempt
end_attempt_iff id to reason screen now db a found =
    let effect = end_attempt_effect id to reason screen now db a found in
    (
      (
        λ there. (held _ effect there).0,
        λ may. row-Succeeds _ _ _ _ a found (
            refuse-Succeeds _ _ _ _ (ground (arith, MayEnd-attempt_ends a.status to may))
              (exec-Succeeds _ _ _ (exec-Succeeds _ _ _ (pure-Succeeds _ _)))),
      ),
      imp-Holds _ _ _ (λ _ db' h. (h.1, h.2)) effect,
    )

-- Once an attempt has ended, its row holds what the caller was given, it is not live, and no second
-- end is taken.
pub end_attempt_once :
    (id : ℕ) (to : AttemptStatus) (reason screen : Text) (now : ℕ) (db : Db)
    → Holds
        (λ a db'.
          (attempt_of id db' ≡ some a)
          × (is_live a.status ≡ false)
          × ((to' : AttemptStatus) (reason' screen' : Text) (now' : ℕ)
              → end_attempt id to' reason' screen' now' db' ≡ err conflict))
        (end_attempt id to reason screen now db)
unfolding end_attempt update_attempt append_event
end_attempt_once id to reason screen now db = row-Holds _ _ _ _ λ a found.
    refuse-Holds _ _ _ _ λ allowed.
      let dead : is_live to ≡ false = ended_dead a.status to (ground arith) in
      let f : Attempt → Attempt = λ (r : Attempt). record r {
        status = to;
        reason = reason;
        ended_at = some now;
        screen = screen_column (screen_tail screen);
      } in
      let there = find-update (λ (x : Attempt). x.id == id) f db.attempts (λ y. refl) found in
      exec-Holds _ _ _ (
        exec-Holds _ _ _ (
          pure-Holds _ _ (
            there,
            dead,
            λ to' reason' screen' now'.
                row-refused _ _ _ _ _ _ (f a) there (ground (arith, dead_ends to to' dead)),
          )))

-- A decision is closed once: after that its row holds the answer that was given, and to close it
-- again, by an answer or by a withdrawal, is a conflict.
pub close_decision_once :
    (id : ℕ) (to : DecisionStatus) (text by : Text) (now : ℕ) (db : Db)
    → is_opened to ≡ false
    → Holds
        (λ d db'.
          (decision_of id db' ≡ some d)
          × (d.status ≡ to)
          × (d.answer ≡ text)
          × ((to' : DecisionStatus) (text' by' : Text) (now' : ℕ)
              → close_decision id to' text' by' now' db' ≡ err conflict))
        (close_decision id to text by now db)
unfolding close_decision set_decision append_event
close_decision_once id to text by now db closes = row-Holds _ _ _ _ λ d found.
    refuse-Holds _ _ _ _ λ opened. query-Holds _ _ _ (
      exec-Holds _ _ _ (
        refuse-Holds _ _ _ _ λ _. exec-Holds _ _ _ (
          pure-Holds _ _ (
            let f : Decision → Decision = λ (r : Decision). record r {
              status = to;
              answer = text;
              answered_by = by;
              closed_at = some now;
            } in
            let hit : is_open_with id d ≡ true =
              ground (arith, find-true (λ (x : Decision). x.id == id) db.decisions found) in
            let there : find (λ (x : Decision). x.id == id)
                  (update_where (is_open_with id) f db.decisions)
                ≡ some (f d) =
              rw hit at (
                find-update_where (λ (x : Decision). x.id == id) (is_open_with id) f db.decisions
                  (λ y. refl) found) in
            (
              there,
              refl,
              refl,
              λ to' text' by' now'. row-refused _ _ _ _ _ _ (f d) there (ground arith),
            )))))

-- A report is acknowledged once: after that its row holds who read it, and a second acknowledgement
-- in the same name is a conflict.
pub ack_report_once :
    (id : ℕ) (by : Text) (now : ℕ) (db : Db)
    → Holds
        (λ r db'.
          (report_of id db' ≡ some r)
          × (r.acked_at ≡ some now)
          × (r.acked_by ≡ by)
          × ((now' : ℕ) → ack_report id by now' db' ≡ err conflict))
        (ack_report id by now db)
unfolding ack_report set_acked append_event
ack_report_once id by now db = refuse-Holds _ _ _ _ λ named. row-Holds _ _ _ _ λ r found.
    refuse-Holds _ _ _ _ λ unread.
      let f : Report → Report = λ (x : Report). record x { acked_at = some now; acked_by = by } in
      let there = find-update (λ (x : Report). x.id == id) f db.reports (λ y. refl) found in
      exec-Holds _ _ _ (
        exec-Holds _ _ _ (
          pure-Holds _ _ (
            there,
            refl,
            refl,
            λ now'. refuse-passes _ _ _ _ named (row-refused _ _ _ _ _ _ (f r) there refl),
          )))

-- A timer is cancelled once: after that its row says so, and to cancel it again is a conflict.
pub cancel_timer_once :
    (id at : ℕ) (db : Db)
    → Holds
        (λ t db'.
          ((u : Timer) × (timer_of id db' ≡ some u) × (u.status ≡ TimerStatus.cancelled))
          × ((at' : ℕ) → cancel_timer id at' db' ≡ err conflict))
        (cancel_timer id at db)
unfolding cancel_timer set_cancelled append_event
cancel_timer_once id at db = row-Holds _ _ _ _ λ t found. refuse-Holds _ _ _ _ λ _.
    let f : Timer → Timer =
      λ (x : Timer). record x { status = TimerStatus.cancelled; ended_at = some at } in
    let there = find-update (λ (x : Timer). x.id == id) f db.timers (λ y. refl) found in
    exec-Holds _ _ _ (
      exec-Holds _ _ _
        (pure-Holds _ _ ((f t, there, refl), λ at'. row-refused _ _ _ _ _ _ (f t) there refl)))
