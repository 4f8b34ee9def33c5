-- ===== src/State/Consistency/Rest.antt =====
-- The operations on plans, events, projects, grants, the fleet, supervisors and devices write none
-- of the tables that the invariant reads.
use hand.Base.{Bool-cases, List, Option, Text, [], codes, exists_where, inl, inr, refl, ℕ, ◌∷◌, ◌≡◌}
use hand.State.Schema.{Db, Device, Event, Fleet, Grant, Plan, Project, Supervisor, SupervisorInput}
use hand.State.Transactions.{
  Holds, bind-Holds, exec-Holds, exec_last-Holds, pure-Holds, query-Holds, refuse-Holds,
  refuse_last-Holds, row-Holds,
}
use hand.State.Tasks.{deliver, deliver_refs, is_delivery}
use hand.State.Events.{append_event, gc_removed, inbox_pruned, note_luvus}
use hand.State.Consistency.{SameCore, SameCore-refl, SameCore-trans}
use hand.State.Consistency.Events.{append_event-SameCore}
use hand.State.Reports.{record_quiet}
use hand.State.Decisions.{require_open_task, set_plan}
use hand.State.Attempts.{note_attempt}

-- The tables that the invariant does not read may hold anything.
pub rest_SameCore :
    {db : Db} {plans : List Plan} {events : List Event} {event_seq : ℕ} {projects : List Project}
    {grants : List Grant} {fleet : Option Fleet} {supervisors : List Supervisor}
    {inputs : List SupervisorInput} {devices : List Device} {device_seq : ℕ}
    → SameCore db (record db {
      plans = plans;
      events = events;
      event_seq = event_seq;
      projects = projects;
      grants = grants;
      fleet = fleet;
      supervisors = supervisors;
      inputs = inputs;
      devices = devices;
      device_seq = device_seq;
    })
rest_SameCore = record {
  tasks = refl;
  attempts = refl;
  decisions = refl;
  reports = refl;
  timers = refl;
}

pub deliver_refs-SameCore :
    (id now : ℕ) (refs : List Text) (db : Db)
    → Holds (λ _ db'. SameCore db db') (deliver_refs id now refs db)
unfolding deliver_refs
deliver_refs-SameCore id now [] db = pure-Holds _ _ (SameCore-refl db)
deliver_refs-SameCore id now (ref ∷ refs) db =
    query-Holds _ _ _ (elim (Bool-cases (exists_where (is_delivery id ref) db.events)) [
      | inl e ↦ rw e (deliver_refs-SameCore id now refs db)
      | inr e ↦ rw e (
          exec-Holds _ _ _ (
            bind-Holds _ _ _ _
              (deliver_refs-SameCore id now refs
                (append_event now (codes "task.delivered") id ref db))
              λ added db' h.
                pure-Holds _ _ (
                  SameCore-trans (append_event-SameCore now (codes "task.delivered") id ref db) h)))
    ])

pub deliver-SameCore :
    (id : ℕ) (refs : List Text) (now : ℕ) (db : Db)
    → Holds (λ _ db'. SameCore db db') (deliver id refs now db)
unfolding deliver
deliver-SameCore id refs now db = row-Holds _ _ _ _ λ t _.
    refuse-Holds _ _ _ _
      λ _. bind-Holds _ _ _ _ (deliver_refs-SameCore id now refs db) λ added db' h. pure-Holds _ _ h

pub note_luvus-SameCore :
    (now : ℕ) (kind detail : Text) (db : Db)
    → Holds (λ _ db'. SameCore db db') (note_luvus now kind detail db)
unfolding note_luvus
note_luvus-SameCore now kind detail db = exec_last-Holds _ _ (append_event-SameCore now _ _ _ db)

pub inbox_pruned-SameCore :
    (now : ℕ) (detail : Text) (db : Db)
    → Holds (λ _ db'. SameCore db db') (inbox_pruned now detail db)
unfolding inbox_pruned
inbox_pruned-SameCore now detail db = exec_last-Holds _ _ (append_event-SameCore now _ _ _ db)

pub gc_removed-SameCore :
    (now : ℕ) (detail : Text) (db : Db)
    → Holds (λ _ db'. SameCore db db') (gc_removed now detail db)
unfolding gc_removed
gc_removed-SameCore now detail db = exec_last-Holds _ _ (append_event-SameCore now _ _ _ db)

pub require_open_task-keeps :
    (id : ℕ) (db : Db) → Holds (λ _ db'. db' ≡ db) (require_open_task id db)
unfolding require_open_task
require_open_task-keeps id db = row-Holds _ _ _ _ λ t _. refuse_last-Holds _ _ _ λ _. refl

pub set_plan-SameCore :
    (task_id : ℕ) (text : Text) (now : ℕ) (db : Db)
    → Holds (λ _ db'. SameCore db db') (set_plan task_id text now db)
unfolding set_plan
set_plan-SameCore task_id text now db = refuse-Holds _ _ _ _ λ _.
    bind-Holds _ _ _ _ (require_open_task-keeps task_id db) λ _ db' e.
      rw e (query-Holds _ _ _ (exec-Holds _ _ _ (exec-Holds _ _ _ (pure-Holds _ _ rest_SameCore))))

pub record_quiet-SameCore :
    (id : ℕ) (api_error : Text) (now : ℕ) (db : Db)
    → Holds (λ _ db'. SameCore db db') (record_quiet id api_error now db)
unfolding record_quiet
record_quiet-SameCore id api_error now db = row-Holds _ _ _ _ λ a _.
    refuse-Holds _ _ _ _
      λ _. query-Holds _ _ _ (query-Holds _ _ _ (exec-Holds _ _ _ (pure-Holds _ _ rest_SameCore)))

pub note_attempt-SameCore :
    (id : ℕ) (kind detail : Text) (now : ℕ) (db : Db)
    → Holds (λ _ db'. SameCore db db') (note_attempt id kind detail now db)
unfolding note_attempt
note_attempt-SameCore id kind detail now db =
    row-Holds _ _ _ _ λ a _. refuse-Holds _ _ _ _ λ _. exec_last-Holds _ _ rest_SameCore
