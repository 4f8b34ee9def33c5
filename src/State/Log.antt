-- ===== src/State/Log.antt =====
-- The event log of internal/state/event.go: rows are appended and numbered from 1 on, and no row of
-- it is ever changed. With it goes what keeps the ids of devices (device.go) from being used again.
pub mod Settings
pub mod Supervisors
pub mod Tasks
pub mod Attempts
pub mod Decisions
pub mod Timers
pub mod Calls
use hand.Base.{
  All, Bool, List, Option, Text, [], ap, arith, false, if◌then◌else◌, length, refl, true, ℕ, ◌++◌,
  ◌+◌, ◌∙◌, ◌∷◌, ◌≡◌, ◌≤◌,
}
use hand.State.Schema.{
  Attempt, Db, Decision, Device, Event, Fleet, Grant, Plan, Project, Report, Supervisor,
  SupervisorInput, Task, Timer,
}
use hand.State.Events.{append_event}

-- Numbered from `n + 1` on.
abbrev pub Numbered : ℕ → List Event → Type 0
Numbered n [] = Unit {0}
Numbered n (e ∷ es) = (e.seq ≡ n + 1) × Numbered (n + 1) es

-- `db` has a sound log that goes on from the log of `before`.
pub record Logs (before db : Db) : Type 0 where
  pub numbered : Numbered 0 db.events
  pub counted : db.event_seq ≡ length db.events
  pub extends : (added : List Event) × (db.events ≡ before.events ++ added)

pub length-append : {A : Type 0} (xs ys : List A) → length (xs ++ ys) ≡ length xs + length ys
length-append [] ys = omega arith
length-append (x ∷ xs) ys = ground (arith, length-append xs ys)

Numbered-append :
    (n : ℕ) (es : List Event) (e : Event)
    → e.seq ≡ n + length es + 1
    → Numbered n es
    → Numbered n (es ++ e ∷ [])
Numbered-append n [] e q h = (ground arith, tt)
Numbered-append n (x ∷ es) e q h = (h.0, Numbered-append (n + 1) es e (ground arith) h.1)

append_assoc : {A : Type 0} (xs ys zs : List A) → (xs ++ ys) ++ zs ≡ xs ++ (ys ++ zs)
append_assoc [] ys zs = refl
append_assoc (x ∷ xs) ys zs = ap (λ t. x ∷ t) (append_assoc xs ys zs)

module _ {before db : Db} (l : Logs before db) where
  emitted_Logs :
      (at : ℕ) (kind : Text) (task_id : ℕ) (detail : Text)
      → Logs before (append_event at kind task_id detail db)
  unfolding append_event
  emitted_Logs at kind task_id detail =
      let row : Event = record {
        seq = db.event_seq + 1;
        at = at;
        kind = kind;
        task_id = task_id;
        detail = detail;
      } in
      record {
        numbered = Numbered-append 0 db.events row (ground (arith, l.counted)) l.numbered;
        counted = omega (arith, l.counted, length-append db.events (row ∷ []));
        extends = (
          l.extends.0 ++ row ∷ [],
          ap (λ es. es ++ row ∷ []) l.extends.1 ∙ append_assoc before.events l.extends.0 (row ∷ []),
        );
      }

-- `db` comes after `before`: its log goes on, the counter of its devices has not gone back, and is
-- not behind any device.
pub record Sound (before db : Db) : Type 0 where
  pub log : Logs before db
  pub grows : before.device_seq ≤ db.device_seq
  pub bounded : All (λ (d : Device). d.id ≤ db.device_seq) db.devices

pub emitted_Sound :
    {before db : Db}
    → Sound before db
    → (at : ℕ) (kind : Text) (task_id : ℕ) (detail : Text)
    → Sound before (append_event at kind task_id detail db)
unfolding append_event
emitted_Sound c at kind task_id detail = record {
  log = emitted_Logs c.log at kind task_id detail;
  grows = c.grows;
  bounded = c.bounded;
}

-- A write to the other tables leaves the log and the devices as they are.
pub write_Sound :
    {before db : Db} {tasks : List Task} {attempts : List Attempt} {decisions : List Decision}
    {reports : List Report} {timers : List Timer} {plans : List Plan} {projects : List Project}
    {grants : List Grant} {fleet : Option Fleet} {supervisors : List Supervisor}
    {inputs : List SupervisorInput}
    → Sound before db
    → Sound before (record db {
      tasks = tasks;
      attempts = attempts;
      decisions = decisions;
      reports = reports;
      timers = timers;
      plans = plans;
      projects = projects;
      grants = grants;
      fleet = fleet;
      supervisors = supervisors;
      inputs = inputs;
    })
write_Sound c = record {
  log = record { numbered = c.log.numbered; counted = c.log.counted; extends = c.log.extends };
  grows = c.grows;
  bounded = c.bounded;
}

-- A write to the devices leaves the log as it is.
pub devices_Sound :
    {before db : Db} {devices : List Device} {device_seq : ℕ}
    → Sound before db
    → db.device_seq ≤ device_seq
    → All (λ (d : Device). d.id ≤ device_seq) devices
    → Sound before (record db { devices = devices; device_seq = device_seq })
devices_Sound c le all = record {
  log = record { numbered = c.log.numbered; counted = c.log.counted; extends = c.log.extends };
  grows = omega (arith, c.grows, le);
  bounded = all;
}

pub optional_Sound :
    {before : Db} (test : Bool) (now : ℕ) (kind : Text) (task_id : ℕ) (detail : Text) (db : Db)
    → Sound before db
    → Sound before (if test then append_event now kind task_id detail db else db)
optional_Sound true now kind task_id detail db l = emitted_Sound l now kind task_id detail
optional_Sound false now kind task_id detail db l = l
