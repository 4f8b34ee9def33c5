-- ===== src/State/Log/Supervisors.antt =====
-- The operations of supervisor.go append to the log.
use hand.Base.{Bool, Bool-cases, Text, [], inl, inr, not, text_eq, ℕ, ◌&&◌, ◌||◌}
use hand.State.Schema.{AttemptStatus, Db, Supervisor, Terminal}
use hand.State.Transactions.{
  Holds, exec-Holds, exec_last-Holds, lift-Holds, pure-Holds, query-Holds, refuse-Holds, row-Holds,
}
use hand.State.Statuses.{is_live}
use hand.State.Inputs.{add_supervisor_input, deliver_supervisor_input}
use hand.State.Supervisors.{
  SupervisorSpec, add_supervisor, advance_wake_cursor, announce_supervisor,
  cancel_supervisor_switch, end_supervisor, insert_supervisor, new_supervisor, next_supervisor_id,
  note_supervisor, set_supervisor_model, set_supervisor_session, set_supervisor_switch, set_switch,
  supervisor_running,
}
use hand.State.Log.{Sound, emitted_Sound, optional_Sound, write_Sound}

announce_supervisor-Sound :
    {before : Db} (s : Supervisor) (now : ℕ) (db : Db)
    → Sound before db
    → Sound before (announce_supervisor s now db)
unfolding announce_supervisor
announce_supervisor-Sound s now db c = optional_Sound _ now _ _ _ _ (emitted_Sound c _ _ _ _)

pub add_supervisor-Sound :
    {before : Db} (spec : SupervisorSpec) (now : ℕ) (db : Db)
    → Sound before db
    → Holds (λ _ db'. Sound before db') (add_supervisor spec now db)
unfolding add_supervisor
add_supervisor-Sound spec now db c = refuse-Holds _ _ _ _ λ _. refuse-Holds _ _ _ _ λ _.
    query-Holds _ _ _ (
      refuse-Holds _ _ _ _ λ _. query-Holds _ _ _ (
        exec-Holds _ _ _ (
          exec-Holds _ _ _ (
            pure-Holds _ _ (
              announce_supervisor-Sound (new_supervisor spec now (next_supervisor_id db)) now
                (insert_supervisor (new_supervisor spec now (next_supervisor_id db)) db)
                (write_Sound c))))))

pub supervisor_running-Sound :
    {before : Db} (id : ℕ) (t : Terminal) (now : ℕ) (db : Db)
    → Sound before db
    → Holds (λ _ db'. Sound before db') (supervisor_running id t now db)
unfolding supervisor_running
supervisor_running-Sound id t now db c = row-Holds _ _ _ _ λ s _. refuse-Holds _ _ _ _ λ _.
    exec-Holds _ _ _ (exec-Holds _ _ _ (pure-Holds _ _ (emitted_Sound (write_Sound c) _ _ _ _)))

pub end_supervisor-Sound :
    {before : Db} (id : ℕ) (to : AttemptStatus) (reason : Text) (now : ℕ) (db : Db)
    → Sound before db
    → Holds (λ _ db'. Sound before db') (end_supervisor id to reason now db)
unfolding end_supervisor
end_supervisor-Sound id to reason now db c = row-Holds _ _ _ _ λ s _. refuse-Holds _ _ _ _ λ _.
    exec-Holds _ _ _ (exec-Holds _ _ _ (pure-Holds _ _ (emitted_Sound (write_Sound c) _ _ _ _)))

set_switch-Sound :
    {before : Db} (id : ℕ) (model effort : Text) (now : ℕ) (db : Db)
    → Sound before db
    → Holds (λ _ db'. Sound before db') (set_switch id model effort now db)
unfolding set_switch
set_switch-Sound id model effort now db c = row-Holds _ _ _ _ λ s _. refuse-Holds _ _ _ _ λ _.
    refuse-Holds _ _ _ _ λ _. refuse-Holds _ _ _ _ λ _. refuse-Holds _ _ _ _ λ _.
      exec-Holds _ _ _ (exec-Holds _ _ _ (pure-Holds _ _ (emitted_Sound (write_Sound c) _ _ _ _)))

pub set_supervisor_switch-Sound :
    {before : Db} (id : ℕ) (model effort : Text) (now : ℕ) (db : Db)
    → Sound before db
    → Holds (λ _ db'. Sound before db') (set_supervisor_switch id model effort now db)
unfolding set_supervisor_switch
set_supervisor_switch-Sound id model effort now db c =
    refuse-Holds _ _ _ _ λ _. set_switch-Sound id model effort now db c

pub cancel_supervisor_switch-Sound :
    {before : Db} (id now : ℕ) (db : Db)
    → Sound before db
    → Holds (λ _ db'. Sound before db') (cancel_supervisor_switch id now db)
unfolding cancel_supervisor_switch
cancel_supervisor_switch-Sound id now db c = set_switch-Sound id [] [] now db c

pub set_supervisor_session-Sound :
    {before : Db} (id : ℕ) (session : Text) (now : ℕ) (db : Db)
    → Sound before db
    → Holds (λ _ db'. Sound before db') (set_supervisor_session id session now db)
unfolding set_supervisor_session
set_supervisor_session-Sound id session now db c = row-Holds _ _ _ _ λ s _.
    elim (Bool-cases (text_eq s.session session)) [
      | inl e ↦ rw e (pure-Holds _ _ c)
      | inr e ↦
          rw e (exec-Holds _ _ _ (exec_last-Holds _ _ (emitted_Sound (write_Sound c) _ _ _ _)))
    ]

pub set_supervisor_model-Sound :
    {before : Db} (id : ℕ) (model effort : Text) (now : ℕ) (db : Db)
    → Sound before db
    → Holds (λ _ db'. Sound before db') (set_supervisor_model id model effort now db)
unfolding set_supervisor_model
set_supervisor_model-Sound id model effort now db c = row-Holds _ _ _ _ λ s _.
    elim (Bool-cases
      (not (is_live s.status) || (text_eq s.model model && text_eq s.effort effort))) [
        | inl e ↦ rw e (pure-Holds _ _ c)
        | inr e ↦
            rw e (exec-Holds _ _ _ (exec_last-Holds _ _ (emitted_Sound (write_Sound c) _ _ _ _)))
      ]

pub advance_wake_cursor-Sound :
    {before : Db} (id seq now : ℕ) (db : Db)
    → Sound before db
    → Holds (λ _ db'. Sound before db') (advance_wake_cursor id seq now db)
unfolding advance_wake_cursor
advance_wake_cursor-Sound id seq now db c = row-Holds _ _ _ _ λ s _.
    refuse-Holds _ _ _ _
      λ _. exec-Holds _ _ _ (exec_last-Holds _ _ (emitted_Sound (write_Sound c) _ _ _ _))

pub note_supervisor-Sound :
    {before : Db} (id : ℕ) (kind detail : Text) (now : ℕ) (db : Db)
    → Sound before db
    → Holds (λ _ db'. Sound before db') (note_supervisor id kind detail now db)
unfolding note_supervisor
note_supervisor-Sound id kind detail now db c =
    row-Holds _ _ _ _ λ s _. exec_last-Holds _ _ (emitted_Sound (write_Sound c) _ _ _ _)

pub add_supervisor_input-Sound :
    {before : Db} (text : Text) (now : ℕ) (db : Db)
    → Sound before db
    → Holds (λ _ db'. Sound before db') (add_supervisor_input text now db)
unfolding add_supervisor_input
add_supervisor_input-Sound text now db c = lift-Holds _ _ _ λ _ _.
    query-Holds _ _ _
      (exec-Holds _ _ _ (exec-Holds _ _ _ (pure-Holds _ _ (emitted_Sound (write_Sound c) _ _ _ _))))

pub deliver_supervisor_input-Sound :
    {before : Db} (id : ℕ) (typed : Bool) (now : ℕ) (db : Db)
    → Sound before db
    → Holds (λ _ db'. Sound before db') (deliver_supervisor_input id typed now db)
unfolding deliver_supervisor_input
deliver_supervisor_input-Sound id typed now db c = query-Holds _ _ _ (
    exec-Holds _ _ _
      (refuse-Holds _ _ _ _ λ _. exec_last-Holds _ _ (emitted_Sound (write_Sound c) _ _ _ _)))
