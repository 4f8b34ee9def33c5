-- ===== src/State/Inputs.antt =====
-- internal/state/supervisor.go: what is typed to the supervisor.
use hand.Base.{
  Bool, List, Result, Text, [], byte_len, codes, conflict, count_where, decimal, err, exists_where,
  if◌then◌else◌, invalid, is_control, is_empty, ltb, max_of, none, not, ok, select, some,
  starts_with, trim_left, trim_space, update_where, ℕ, ◌&&◌, ◌++◌, ◌+◌, ◌==◌, ◌||◌, ◌∷◌,
}
use hand.State.Schema.{Db, SupervisorInput}
use hand.State.Transactions.{M, exec, lift, pure, query, refuse, ◌>>=◌, ◌>>◌}
use hand.State.Statuses.{is_none}
use hand.State.Events.{append_event, emit}
use hand.State.Refs.{input_ref, noted}

abbrev pub max_message_bytes : ℕ
max_message_bytes = 16384

abbrev pub envelope_prefix : Text
envelope_prefix = codes "[hand v1"

-- CheckMessage of a text that is valid UTF-8.
unfoldable pub check_message : Text → Result (Unit {0})
unfolding trim_space trim_left byte_len starts_with is_control
check_message text =
    if is_empty (trim_space text)
      || ltb max_message_bytes (byte_len text)
      || starts_with envelope_prefix (trim_left text)
      || exists_where (λ c. is_control c && not (c == 10) && not (c == 9)) text
    then err invalid
    else ok tt

abbrev pub next_input_id : Db → ℕ
next_input_id db = max_of (λ (i : SupervisorInput). i.id) db.inputs + 1

unfoldable pub insert_input : SupervisorInput → Db → Db
insert_input i db = record db { inputs = db.inputs ++ i ∷ [] }

-- Store.AddSupervisorInput.
unfoldable pub add_supervisor_input : Text → ℕ → M SupervisorInput
unfolding check_message insert_input append_event byte_len decimal input_ref
add_supervisor_input text now = do
  _ ← lift (check_message text)
  id ← query next_input_id
  let i : SupervisorInput = record { id = id; body = text; created_at = now; delivered_at = none }
  exec (insert_input i)
  emit now (codes "supervisor.input") 0
      (noted (input_ref id) (decimal (byte_len text) ++ codes " bytes"))
  pure i

abbrev pub is_pending : ℕ → SupervisorInput → Bool
is_pending id i = i.id == id && is_none i.delivered_at

unfoldable pub set_delivered : ℕ → ℕ → Db → Db
set_delivered id now db = record db {
  inputs =
      update_where (is_pending id) (λ (i : SupervisorInput). record i { delivered_at = some now })
        db.inputs;
}

-- Store.DeliverSupervisorInput.
unfoldable pub deliver_supervisor_input : ℕ → Bool → ℕ → M (Unit {0})
unfolding set_delivered append_event input_ref
deliver_supervisor_input id typed now = do
  affected ← query (λ db. count_where (is_pending id) db.inputs)
  exec (set_delivered id now)
  refuse (affected == 0) conflict
  emit now (codes "supervisor.delivered") 0
      (if typed then noted (input_ref id) (codes "typed") else input_ref id)

-- Store.PendingSupervisorInputs.
unfoldable pub pending_supervisor_inputs : Db → List SupervisorInput
pending_supervisor_inputs db = select (λ (i : SupervisorInput). is_none i.delivered_at) db.inputs
