-- ===== src/State/Supervisors.antt =====
-- internal/state/supervisor.go: the agent that runs the fleet, what is typed to it, and how far it
-- has been woken.
use hand.Base.{
  Bool, List, Option, Text, [], codes, conflict, contains_text, decimal, exists_where, find,
  find_last, if◌then◌else◌, invalid, is_empty, leb, length, max_of, none, not, not_found, one_line,
  some, text_eq, trim_space, update_where, ℕ, ◌&&◌, ◌++◌, ◌+◌, ◌==◌, ◌||◌, ◌∷◌,
}
use hand.State.Schema.{AttemptStatus, Db, Supervisor, Terminal, no_terminal}
use hand.State.Transactions.{M, exec, pure, query, query_row, refuse, ◌>>=◌, ◌>>◌}
use hand.State.Statuses.{
  attempt_status_eq, attempt_status_text, contains_attempt_status, is_live, supervisor_ends,
}
use hand.State.Events.{append_event, emit}
use hand.State.Refs.{noted, supervisor_ref}
use hand.State.Attempts.{asked_model, harnesses, opencode}

-- SupervisorSpec.
pub record SupervisorSpec : Type 0 where
  pub harness : Text
  pub model : Text
  pub effort : Text
  pub argv : List Text
  pub session : Text
  pub wake_cursor : ℕ

abbrev pub supervisor_of : ℕ → Db → Option Supervisor
supervisor_of id db = find (λ (s : Supervisor). s.id == id) db.supervisors

-- getSupervisor.
abbrev pub get_supervisor : ℕ → M Supervisor
get_supervisor id = query_row (supervisor_of id) not_found

abbrev pub next_supervisor_id : Db → ℕ
next_supervisor_id db = max_of (λ (s : Supervisor). s.id) db.supervisors + 1

abbrev pub has_live_supervisor : Db → Bool
has_live_supervisor db = exists_where (λ (s : Supervisor). is_live s.status) db.supervisors

unfoldable pub new_supervisor : SupervisorSpec → ℕ → ℕ → Supervisor
new_supervisor spec now id = record {
  id = id;
  harness = spec.harness;
  model = spec.model;
  effort = spec.effort;
  argv = spec.argv;
  session = spec.session;
  status = AttemptStatus.launching;
  terminal = no_terminal;
  wake_cursor = spec.wake_cursor;
  reason = [];
  created_at = now;
  ended_at = none;
  switch_model = [];
  switch_effort = [];
}

unfoldable pub insert_supervisor : Supervisor → Db → Db
insert_supervisor s db = record db { supervisors = db.supervisors ++ s ∷ [] }

-- The events of AddSupervisor.
unfoldable pub announce_supervisor : Supervisor → ℕ → Db → Db
unfolding append_event text_eq asked_model supervisor_ref
announce_supervisor s now db =
    let launched =
      append_event now (codes "supervisor.launching") 0 (noted (supervisor_ref s.id) s.harness)
        db in
    if text_eq s.harness opencode && not (is_empty s.model)
    then append_event now (codes "model.requested") 0
        (noted (supervisor_ref s.id) (asked_model s.model s.effort)) launched
    else launched

-- Store.AddSupervisor.
unfoldable pub add_supervisor : SupervisorSpec → ℕ → M Supervisor
unfolding contains_text new_supervisor insert_supervisor announce_supervisor
add_supervisor spec now = do
  refuse (not (contains_text harnesses spec.harness)) invalid
  refuse (length spec.argv == 0) invalid
  live ← query has_live_supervisor
  refuse live conflict
  id ← query next_supervisor_id
  exec (insert_supervisor (new_supervisor spec now id))
  exec (announce_supervisor (new_supervisor spec now id) now)
  pure (new_supervisor spec now id)

-- UPDATE supervisor SET ... WHERE id = ?.
unfoldable pub update_supervisor : ℕ → (Supervisor → Supervisor) → Db → Db
update_supervisor id f db = record db {
  supervisors = update_where (λ (s : Supervisor). s.id == id) f db.supervisors;
}

-- Store.SupervisorRunning.
unfoldable pub supervisor_running : ℕ → Terminal → ℕ → M Supervisor
unfolding update_supervisor append_event supervisor_ref
supervisor_running id t now = do
  s ← get_supervisor id
  refuse (not (attempt_status_eq s.status AttemptStatus.launching)) conflict
  exec (
      update_supervisor id
        (λ (r : Supervisor). record r { status = AttemptStatus.running; terminal = t }))
  emit now (codes "supervisor.started") 0 (noted (supervisor_ref id) (codes "pane " ++ t.pane_id))
  pure (record s { status = AttemptStatus.running; terminal = t })

-- Store.EndSupervisor.
unfoldable pub end_supervisor : ℕ → AttemptStatus → Text → ℕ → M Supervisor
unfolding update_supervisor append_event supervisor_ref
end_supervisor id to reason now = do
  s ← get_supervisor id
  refuse (not (contains_attempt_status (supervisor_ends s.status) to)) conflict
  exec (
      update_supervisor id
        (λ (r : Supervisor). record r { status = to; reason = reason; ended_at = some now }))
  emit now (codes "supervisor." ++ attempt_status_text to) 0 (noted (supervisor_ref id) reason)
  pure (record s { status = to; reason = reason; ended_at = some now })

-- Supervisor.Switching.
abbrev pub is_switching : Supervisor → Bool
is_switching s = not (is_empty s.switch_model)

unfoldable pub set_switch_row : ℕ → Text → Text → Db → Db
unfolding update_supervisor
set_switch_row id model effort =
    update_supervisor id
      (λ (r : Supervisor). record r { switch_model = model; switch_effort = effort })

-- setSwitch; an empty model cancels.
unfoldable pub set_switch : ℕ → Text → Text → ℕ → M Supervisor
unfolding trim_space text_eq set_switch_row append_event one_line supervisor_ref
set_switch id model effort now = do
  s ← get_supervisor id
  refuse (not (is_empty model) && is_empty (trim_space effort) && not (text_eq s.harness opencode))
      invalid
  refuse
      (not (attempt_status_eq s.status AttemptStatus.running)
        && (not (is_empty model) || is_live s.status))
      conflict
  refuse (is_empty model && not (is_switching s)) conflict
  refuse (not (is_empty model) && is_switching s) conflict
  exec (set_switch_row id model effort)
  emit now (codes "supervisor.switch") 0 (
      noted (supervisor_ref id) (
        if is_empty model
        then codes "canceled"
        else codes "to " ++ one_line (model ++ 32 ∷ effort)))
  pure (record s { switch_model = model; switch_effort = effort })

-- Store.SetSupervisorSwitch and CancelSupervisorSwitch.
unfoldable pub set_supervisor_switch : ℕ → Text → Text → ℕ → M Supervisor
unfolding trim_space set_switch
set_supervisor_switch id model effort now = do
  refuse (is_empty (trim_space model)) invalid
  set_switch id model effort now

unfoldable pub cancel_supervisor_switch : ℕ → ℕ → M Supervisor
unfolding set_switch
cancel_supervisor_switch id now = set_switch id [] [] now

-- Store.SetSupervisorSession.
unfoldable pub set_supervisor_session : ℕ → Text → ℕ → M (Unit {0})
unfolding text_eq update_supervisor append_event supervisor_ref
set_supervisor_session id session now = do
  s ← get_supervisor id
  if text_eq s.session session then pure tt else do
    exec (update_supervisor id (λ (r : Supervisor). record r { session = session }))
    emit now (codes "supervisor.session") 0 (noted (supervisor_ref id) session)

-- Store.SetSupervisorModel.
unfoldable pub set_supervisor_model : ℕ → Text → Text → ℕ → M (Unit {0})
unfolding text_eq update_supervisor append_event one_line supervisor_ref
set_supervisor_model id model effort now = do
  s ← get_supervisor id
  if not (is_live s.status) || (text_eq s.model model && text_eq s.effort effort)
      then pure tt
      else do
        exec
            (update_supervisor id (λ (r : Supervisor). record r { model = model; effort = effort }))
        emit now (codes "model.changed") 0
            (one_line (noted (supervisor_ref id) (model ++ 32 ∷ effort)))

-- Store.AdvanceWakeCursor.
unfoldable pub advance_wake_cursor : ℕ → ℕ → ℕ → M (Unit {0})
unfolding update_supervisor append_event decimal
advance_wake_cursor id seq now = do
  s ← get_supervisor id
  refuse (leb seq s.wake_cursor) conflict
  exec (update_supervisor id (λ (r : Supervisor). record r { wake_cursor = seq }))
  emit now (codes "supervisor.delivered") 0 (codes "wake to " ++ decimal seq)

-- Store.NoteSupervisor.
unfoldable pub note_supervisor : ℕ → Text → Text → ℕ → M (Unit {0})
unfolding append_event supervisor_ref
note_supervisor id kind detail now = do
  _ ← get_supervisor id
  emit now (codes "supervisor." ++ kind) 0 (noted (supervisor_ref id) detail)

-- Store.LiveSupervisor.
unfoldable pub live_supervisor : Db → Option Supervisor
live_supervisor db = find_last (λ (s : Supervisor). is_live s.status) db.supervisors

-- Store.LastStartedSupervisor: the newest that did not fail before it had a terminal.
unfoldable pub last_started_supervisor : Db → Option Supervisor
last_started_supervisor db =
    find_last
      (λ (s : Supervisor).
        not (attempt_status_eq s.status AttemptStatus.failed)
        || not (is_empty s.terminal.terminal_id))
      db.supervisors
