-- ===== src/State/Consistency/Supervisors.antt =====
-- The operations of supervisor.go write none of the tables that the invariant reads.
use hand.Base.{Bool, Bool-cases, Text, [], inl, inr, is_empty, not, text_eq, ℕ, ◌&&◌, ◌||◌}
use hand.State.Schema.{AttemptStatus, Db, Supervisor, Terminal}
use hand.State.Transactions.{
  Holds, exec-Holds, exec_last-Holds, lift-Holds, pure-Holds, query-Holds, refuse-Holds, row-Holds,
}
use hand.State.Inputs.{add_supervisor_input, deliver_supervisor_input}
use hand.State.Supervisors.{
  SupervisorSpec, add_supervisor, advance_wake_cursor, announce_supervisor,
  cancel_supervisor_switch, end_supervisor, insert_supervisor, new_supervisor, next_supervisor_id,
  note_supervisor, set_supervisor_model, set_supervisor_session, set_supervisor_switch, set_switch,
  supervisor_running,
}
use hand.State.Statuses.{is_live}
use hand.State.Attempts.{opencode}
use hand.State.Consistency.{SameCore, SameCore-refl, SameCore-trans}
use hand.State.Consistency.Rest.{rest_SameCore}

announce_supervisor-SameCore :
    (s : Supervisor) (now : ℕ) (db : Db) → SameCore db (announce_supervisor s now db)
unfolding announce_supervisor
announce_supervisor-SameCore s now db =
    elim (Bool-cases (text_eq s.harness opencode && not (is_empty s.model))) [
      | inl e ↦ rw e rest_SameCore
      | inr e ↦ rw e rest_SameCore
    ]

pub add_supervisor-SameCore :
    (spec : SupervisorSpec) (now : ℕ) (db : Db)
    → Holds (λ _ db'. SameCore db db') (add_supervisor spec now db)
unfolding add_supervisor
add_supervisor-SameCore spec now db = refuse-Holds _ _ _ _ λ _. refuse-Holds _ _ _ _ λ _.
    query-Holds _ _ _ (
      refuse-Holds _ _ _ _ λ _. query-Holds _ _ _ (
        exec-Holds _ _ _ (
          exec-Holds _ _ _ (
            pure-Holds _ _ (
              let s = new_supervisor spec now (next_supervisor_id db) in
              SameCore-trans {b = insert_supervisor s db} rest_SameCore
                (announce_supervisor-SameCore s now (insert_supervisor s db)))))))

pub supervisor_running-SameCore :
    (id : ℕ) (t : Terminal) (now : ℕ) (db : Db)
    → Holds (λ _ db'. SameCore db db') (supervisor_running id t now db)
unfolding supervisor_running
supervisor_running-SameCore id t now db = row-Holds _ _ _ _ λ s _.
    refuse-Holds _ _ _ _ λ _. exec-Holds _ _ _ (exec-Holds _ _ _ (pure-Holds _ _ rest_SameCore))

pub end_supervisor-SameCore :
    (id : ℕ) (to : AttemptStatus) (reason : Text) (now : ℕ) (db : Db)
    → Holds (λ _ db'. SameCore db db') (end_supervisor id to reason now db)
unfolding end_supervisor
end_supervisor-SameCore id to reason now db = row-Holds _ _ _ _ λ s _.
    refuse-Holds _ _ _ _ λ _. exec-Holds _ _ _ (exec-Holds _ _ _ (pure-Holds _ _ rest_SameCore))

set_switch-SameCore :
    (id : ℕ) (model effort : Text) (now : ℕ) (db : Db)
    → Holds (λ _ db'. SameCore db db') (set_switch id model effort now db)
unfolding set_switch
set_switch-SameCore id model effort now db = row-Holds _ _ _ _ λ s _. refuse-Holds _ _ _ _ λ _.
    refuse-Holds _ _ _ _ λ _. refuse-Holds _ _ _ _ λ _.
      refuse-Holds _ _ _ _ λ _. exec-Holds _ _ _ (exec-Holds _ _ _ (pure-Holds _ _ rest_SameCore))

pub set_supervisor_switch-SameCore :
    (id : ℕ) (model effort : Text) (now : ℕ) (db : Db)
    → Holds (λ _ db'. SameCore db db') (set_supervisor_switch id model effort now db)
unfolding set_supervisor_switch
set_supervisor_switch-SameCore id model effort now db =
    refuse-Holds _ _ _ _ λ _. set_switch-SameCore id model effort now db

pub cancel_supervisor_switch-SameCore :
    (id now : ℕ) (db : Db) → Holds (λ _ db'. SameCore db db') (cancel_supervisor_switch id now db)
unfolding cancel_supervisor_switch
cancel_supervisor_switch-SameCore id now db = set_switch-SameCore id [] [] now db

pub set_supervisor_session-SameCore :
    (id : ℕ) (session : Text) (now : ℕ) (db : Db)
    → Holds (λ _ db'. SameCore db db') (set_supervisor_session id session now db)
unfolding set_supervisor_session
set_supervisor_session-SameCore id session now db = row-Holds _ _ _ _ λ s _.
    elim (Bool-cases (text_eq s.session session)) [
      | inl e ↦ rw e (pure-Holds _ _ (SameCore-refl db))
      | inr e ↦ rw e (exec-Holds _ _ _ (exec_last-Holds _ _ rest_SameCore))
    ]

pub set_supervisor_model-SameCore :
    (id : ℕ) (model effort : Text) (now : ℕ) (db : Db)
    → Holds (λ _ db'. SameCore db db') (set_supervisor_model id model effort now db)
unfolding set_supervisor_model
set_supervisor_model-SameCore id model effort now db = row-Holds _ _ _ _ λ s _.
    elim (Bool-cases
      (not (is_live s.status) || (text_eq s.model model && text_eq s.effort effort))) [
        | inl e ↦ rw e (pure-Holds _ _ (SameCore-refl db))
        | inr e ↦ rw e (exec-Holds _ _ _ (exec_last-Holds _ _ rest_SameCore))
      ]

pub advance_wake_cursor-SameCore :
    (id seq now : ℕ) (db : Db)
    → Holds (λ _ db'. SameCore db db') (advance_wake_cursor id seq now db)
unfolding advance_wake_cursor
advance_wake_cursor-SameCore id seq now db =
    row-Holds _ _ _ _
      λ s _. refuse-Holds _ _ _ _ λ _. exec-Holds _ _ _ (exec_last-Holds _ _ rest_SameCore)

pub note_supervisor-SameCore :
    (id : ℕ) (kind detail : Text) (now : ℕ) (db : Db)
    → Holds (λ _ db'. SameCore db db') (note_supervisor id kind detail now db)
unfolding note_supervisor
note_supervisor-SameCore id kind detail now db =
    row-Holds _ _ _ _ λ s _. exec_last-Holds _ _ rest_SameCore

pub add_supervisor_input-SameCore :
    (text : Text) (now : ℕ) (db : Db)
    → Holds (λ _ db'. SameCore db db') (add_supervisor_input text now db)
unfolding add_supervisor_input
add_supervisor_input-SameCore text now db =
    lift-Holds _ _ _
      λ _ _. query-Holds _ _ _ (exec-Holds _ _ _ (exec-Holds _ _ _ (pure-Holds _ _ rest_SameCore)))

pub deliver_supervisor_input-SameCore :
    (id : ℕ) (typed : Bool) (now : ℕ) (db : Db)
    → Holds (λ _ db'. SameCore db db') (deliver_supervisor_input id typed now db)
unfolding deliver_supervisor_input
deliver_supervisor_input-SameCore id typed now db =
    query-Holds _ _ _
      (exec-Holds _ _ _ (refuse-Holds _ _ _ _ λ _. exec_last-Holds _ _ rest_SameCore))
