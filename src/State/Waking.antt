-- ===== src/State/Waking.antt =====
-- internal/state/supervisor.go: one supervisor at a time, how far it was woken, and inputs that are
-- delivered once.
use hand.Base.{
  All, All-imp, All-of, All-update, Bool, Bool-cases, List, [], arith, conflict, count_where,
  count_where-append, count_where-none, err, exists_where-false, false, find-update, find_last, inl,
  inr, is_empty, max_of, max_of-bounds, not, refl, some, sym, text_eq, update_where, ℕ, ◌&&◌, ◌++◌,
  ◌<◌, ◌==◌, ◌↔◌, ◌∙◌, ◌∷◌, ◌≡◌, ◌≤◌,
}
use hand.State.Schema.{Db, Supervisor, SupervisorInput}
use hand.State.Transactions.{
  Holds, exec-Holds, exec_last-Holds, pure-Holds, query-Holds, refuse-Holds, row-Holds, ◌>>=◌,
}
use hand.State.Transactions.Success.{
  Succeeds, exec-Succeeds, exec_last-Succeeds, held, refuse-Succeeds, row-Succeeds,
}
use hand.State.Events.{append_event}
use hand.State.Statuses.{is_live}
use hand.State.Inputs.{deliver_supervisor_input, is_pending, set_delivered}
use hand.State.Attempts.{opencode}
use hand.State.Supervisors.{
  SupervisorSpec, add_supervisor, advance_wake_cursor, announce_supervisor, insert_supervisor,
  live_supervisor, new_supervisor, next_supervisor_id, supervisor_of, update_supervisor,
}
use hand.State.Endings.{row-refused, some_inj}

abbrev pub is_live_supervisor : Supervisor → Bool
is_live_supervisor s = is_live s.status

-- Where AddSupervisor succeeds, no supervisor was live, and the one that it adds is then the only
-- live one, is found as such, and has a key past those of all before it.
pub add_supervisor-only_live :
    (spec : SupervisorSpec) (now : ℕ) (db : Db)
    → Holds
        (λ s db'.
          (count_where is_live_supervisor db.supervisors ≡ 0)
          × (count_where is_live_supervisor db'.supervisors ≡ 1)
          × (live_supervisor db' ≡ some s)
          × All (λ (x : Supervisor). x.id < s.id) db.supervisors)
        (add_supervisor spec now db)
unfolding add_supervisor insert_supervisor new_supervisor live_supervisor
add_supervisor-only_live spec now db = refuse-Holds _ _ _ _ λ _. refuse-Holds _ _ _ _ λ _.
    query-Holds _ _ _ (
      refuse-Holds _ _ _ _ λ none_live. query-Holds _ _ _ (
        exec-Holds _ _ _ (
          exec-Holds _ _ _ (
            pure-Holds _ _ (
              let s = new_supervisor spec now (next_supervisor_id db) in
              let dead = exists_where-false is_live_supervisor db.supervisors none_live in
              let same = announced s now (insert_supervisor s db) in
              (
                count_where-none is_live_supervisor db.supervisors dead,
                rw same (
                    omega (
                      arith,
                      count_where-append is_live_supervisor db.supervisors (s ∷ []),
                      count_where-none is_live_supervisor db.supervisors dead,
                    )),
                rw same (last_found db.supervisors s dead),
                All-imp
                    (λ (x : Supervisor). x.id ≤ max_of (λ (y : Supervisor). y.id) db.supervisors)
                    (λ (x : Supervisor). x.id < s.id) db.supervisors (λ x h. omega arith)
                    (max_of-bounds (λ (y : Supervisor). y.id) db.supervisors),
              ))))))
  where
    announced :
        (s : Supervisor) (now : ℕ) (db : Db)
        → (announce_supervisor s now db).supervisors ≡ db.supervisors
    announced s now db = elim (Bool-cases (text_eq s.harness opencode && not (is_empty s.model))) [
      | inl e ↦ rw e refl
      | inr e ↦ rw e refl
    ]

    last_found :
        (xs : List Supervisor) (s : Supervisor)
        → All (λ (x : Supervisor). is_live x.status ≡ false) xs
        → find_last is_live_supervisor (xs ++ s ∷ []) ≡ find_last is_live_supervisor (s ∷ [])
    last_found [] s h = refl
    last_found (x ∷ xs) s h = rw (last_found xs s h.1) (ground (arith, h.0))

cursor_guard :
    (id seq now : ℕ) (db : Db) (s : Supervisor)
    → supervisor_of id db ≡ some s
    → Holds (λ _ _. s.wake_cursor < seq) (advance_wake_cursor id seq now db)
unfolding advance_wake_cursor
cursor_guard id seq now db s found = row-Holds _ _ _ _ λ s' found'. refuse-Holds _ _ _ _ λ on.
    let same : s ≡ s' = some_inj s s' (sym found ∙ found') in
    exec-Holds _ _ _ (exec_last-Holds _ _ (rw same (ground arith)))

-- AdvanceWakeCursor of a supervisor that is there succeeds exactly when it moves the cursor on.
pub advance_wake_cursor_iff :
    (id seq now : ℕ) (db : Db) (s : Supervisor)
    → supervisor_of id db ≡ some s
    → Succeeds (advance_wake_cursor id seq now db) ↔ (s.wake_cursor < seq)
unfolding advance_wake_cursor
advance_wake_cursor_iff id seq now db s found = (
  λ there. held _ (cursor_guard id seq now db s found) there,
  λ on.
      row-Succeeds _ _ _ _ s found
        (refuse-Succeeds _ _ _ _ (ground arith) (exec-Succeeds _ _ _ (exec_last-Succeeds _ _))),
)

-- Once the cursor is at `seq`, it stands there, and waking up to `seq` or before is a conflict.
pub advance_wake_cursor_once :
    (id seq now : ℕ) (db : Db)
    → Holds
        (λ _ db'.
          ((s : Supervisor) × (supervisor_of id db' ≡ some s) × (s.wake_cursor ≡ seq))
          × ((seq' now' : ℕ) → seq' ≤ seq → advance_wake_cursor id seq' now' db' ≡ err conflict))
        (advance_wake_cursor id seq now db)
unfolding advance_wake_cursor update_supervisor append_event
advance_wake_cursor_once id seq now db = row-Holds _ _ _ _ λ s found. refuse-Holds _ _ _ _ λ on.
    let f : Supervisor → Supervisor = λ (r : Supervisor). record r { wake_cursor = seq } in
    let there = find-update (λ (x : Supervisor). x.id == id) f db.supervisors (λ y. refl) found in
    exec-Holds _ _ _ (
      exec_last-Holds _ _ (
        (f s, there, refl),
        λ seq' now' before. row-refused _ _ _ _ _ _ (f s) there (ground arith),
      ))

nothing_pending :
    (id : ℕ) (typed : Bool) (now : ℕ) (db : Db)
    → count_where (is_pending id) db.inputs ≡ 0
    → deliver_supervisor_input id typed now db ≡ err conflict
unfolding deliver_supervisor_input ◌>>=◌
nothing_pending id typed now db none_there = rw none_there refl

-- An input is delivered once: after that, it is not pending and a second delivery is a conflict.
pub deliver_supervisor_input_once :
    (id : ℕ) (typed : Bool) (now : ℕ) (db : Db)
    → Holds
        (λ _ db'.
          All (λ (i : SupervisorInput). is_pending id i ≡ false) db'.inputs
          × ((typed' : Bool) (now' : ℕ)
              → deliver_supervisor_input id typed' now' db' ≡ err conflict))
        (deliver_supervisor_input id typed now db)
unfolding deliver_supervisor_input set_delivered append_event
deliver_supervisor_input_once id typed now db = query-Holds _ _ _ (
    exec-Holds _ _ _ (
      refuse-Holds _ _ _ _ λ _. exec_last-Holds _ _ (
        let f : SupervisorInput → SupervisorInput =
          λ (i : SupervisorInput). record i { delivered_at = some now } in
        let gone =
          All-update (λ _. Unit {0}) (λ (i : SupervisorInput). is_pending id i ≡ false)
            (is_pending id) f db.inputs (λ i _ _. ground arith) (λ i _ miss. miss)
            (All-of _ db.inputs (λ _. tt)) in
        (
          gone,
          λ typed' now'.
              nothing_pending id typed' now' _
                (count_where-none (is_pending id) (update_where (is_pending id) f db.inputs) gone),
        ))))
