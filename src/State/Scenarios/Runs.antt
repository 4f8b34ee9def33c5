-- ===== src/State/Scenarios/Runs.antt =====
-- Whole runs, and the theorems on what calls lead to.
use hand.Base.{
  All, List, Text, [], byte_len, codes, false, map, none, refl, some, ℕ, ◌<◌, ◌↔◌, ◌∷◌, ◌≡◌,
}
use hand.State.Schema.{Db, Device, TaskStatus, empty_db}
use hand.State.Transactions.{Holds, ◌>>=◌}
use hand.State.Transactions.Success.{Succeeds}
use hand.State.Statuses.{task_status_text}
use hand.State.Tasks.{
  add_task, is_armed_of, is_live_of, is_open_of, is_unread_of, status_of, transition,
}
use hand.State.Decisions.{ask}
use hand.State.Projects.{add_project}
use hand.State.Devices.{
  add_device, delete_device, device_with_secret, insert_device, revoke_device, valid_phone_label,
}
use hand.State.Events.{append_event}
use hand.State.Trust.{add_device-lets_in}
use hand.State.Calls.{Call, Later, Reachable, perform, step}
use hand.State.Consistency.{Consistent}
use hand.State.Consistency.Calls.{Reachable-Consistent}
use hand.State.Log.{Logs}
use hand.State.Log.Calls.{log_appends}
use hand.State.Finished.{finished_task_settled}
use hand.State.Transition.{MayMove, transition_iff}
use hand.State.Scenarios.{calm, calm-Consistent, clean_path, secret, task}
use hand.State.History.{Since}
use hand.State.History.Calls.{settled_stays}

abbrev given_calls : List Call
given_calls =
    Call.call_add_project clean_path clean_path (codes "web") (codes "/srv/web") [] 1
    ∷ Call.call_add_task (codes "web") (codes "Fix it") [] 2
    ∷ Call.call_ask 1 (codes "Now?") 3
    ∷ Call.call_transition 1 (codes "abandoned") [] 4
    ∷ []

abbrev pub run : List Call → Db → Db
run [] db = db
run (c ∷ cs) db = run cs (step none c db)

pub run-Reachable : (cs : List Call) (db : Db) → Reachable db → Reachable (run cs db)
run-Reachable [] db r = r
run-Reachable (c ∷ cs) db r = run-Reachable cs (step none c db) (Reachable.after r none c)

abbrev abandoned_db : Db
abandoned_db = run given_calls empty_db

abandoned_db-Reachable : Reachable abandoned_db
abandoned_db-Reachable = run-Reachable given_calls empty_db Reachable.start

abandoned_status : status_of 1 abandoned_db.tasks ≡ some TaskStatus.abandoned
unfolding step perform add_project add_task ask transition ◌>>=◌
abandoned_status = refl

Reachable-Consistent_example : Consistent abandoned_db
Reachable-Consistent_example = Reachable-Consistent abandoned_db abandoned_db-Reachable

finished_task_settled_example :
    All (λ a. is_live_of 1 a ≡ false) abandoned_db.attempts
    × All (λ d. is_open_of 1 d ≡ false) abandoned_db.decisions
    × All (λ t. is_armed_of 1 t ≡ false) abandoned_db.timers
    × (TaskStatus.abandoned ≡ TaskStatus.done
        → All (λ r. is_unread_of 1 r ≡ false) abandoned_db.reports)
finished_task_settled_example =
    finished_task_settled 1 abandoned_db TaskStatus.abandoned abandoned_db-Reachable
      abandoned_status refl

log_appends_example : Logs abandoned_db (step none (Call.call_fire_timers 9) abandoned_db)
log_appends_example = log_appends abandoned_db abandoned_db-Reachable none (Call.call_fire_timers 9)

-- A phone is paired and revoked.
abbrev phone_calls : List Call
phone_calls =
    Call.call_add_device (codes "Phone") [] secret [] 1
    ∷ Call.call_revoke_device 1 2
    ∷ Call.call_add_device (codes "Phone") [] secret [] 3
    ∷ []

abbrev paired_db : Db
paired_db = run phone_calls empty_db

-- The second phone has an id of its own.
paired_ids : map (λ (d : Device). d.id) paired_db.devices ≡ 2 ∷ []
unfolding step perform add_device revoke_device insert_device delete_device append_event ◌>>=◌
    byte_len valid_phone_label
paired_ids = refl

add_device-lets_in_example :
    Holds
      (λ d db'.
        (device_with_secret d.id secret db' ≡ some d)
        × All (λ (x : Device). x.id < d.id) paired_db.devices
        × ((later : Db) (name' login' secret_hash' phone' : Text) (now' : ℕ)
            → Later db' later
            → Holds
                (λ d' _. d.id < d'.id)
                (add_device name' login' secret_hash' phone' now' later)))
      (add_device (codes "Tablet") [] secret [] 11 paired_db)
add_device-lets_in_example =
    add_device-lets_in (codes "Tablet") [] secret [] 11 paired_db
      (run-Reachable phone_calls empty_db Reachable.start)

transition_iff_example :
    Succeeds (transition 1 (task_status_text TaskStatus.done) [] 11 calm)
    ↔ MayMove calm 1 task TaskStatus.done []
transition_iff_example = transition_iff 1 TaskStatus.done [] 11 calm task calm-Consistent refl

settled_stays_example :
    Since abandoned_db (step none (Call.call_transition 1 (codes "active") [] 9) abandoned_db)
settled_stays_example =
    settled_stays abandoned_db
      (step none (Call.call_transition 1 (codes "active") [] 9) abandoned_db)
      (Later.next Later.at_once none (Call.call_transition 1 (codes "active") [] 9))
