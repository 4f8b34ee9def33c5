-- ===== src/State/Scenarios/Rows.antt =====
-- The theorems on single rows, tried.
use hand.Base.{
  All, Bool, [], byte_len, codes, count_where, false, find, is_empty, length, refl, select, some,
  text_eq, true, ℕ, ◌&&◌, ◌<◌, ◌==◌, ◌≡◌, ◌≢◌, ◌≤◌,
}
use hand.State.Schema.{Device, Plan, Supervisor, TaskStatus, Timer, empty_db}
use hand.State.Transactions.{Holds}
use hand.State.Statuses.{is_armed, task_status_text}
use hand.State.Events.{is_of_attempt}
use hand.State.Screens.{screen_max, screen_tail}
use hand.State.Tasks.{project_of, transition}
use hand.State.Launches.{add_attempt}
use hand.State.Decisions.{current_plan, is_plan_of, set_plan}
use hand.State.Timers.{armed_timers}
use hand.State.Supervisors.{add_supervisor, live_supervisor}
use hand.State.Projects.{adopt_project}
use hand.State.Devices.{clean_device_text, is_phone, revoke_phone}
use hand.State.Firing.{SortedByDue, armed_timers-SortedByDue}
use hand.State.Bounds.{clean_device_text-length, screen_tail-byte_len}
use hand.State.Revisions.{set_plan-current}
use hand.State.Waking.{add_supervisor-only_live, is_live_supervisor}
use hand.State.Names.{is_of_attempt-one}
use hand.State.Launching.{Launched, add_attempt-Launched}
use hand.State.Trust.{adopt_project-keeps, revoke_phone_forgets}
use hand.State.Scenarios.{busy, calm, label, logged, next_boss, wanted, web}
use hand.State.Moving.{Moved, transition-Moved}
use hand.State.Screens.Plain.{is_plain, screen_tail-All}

armed_timers-SortedByDue_example :
    SortedByDue (armed_timers busy)
    × ((p : Timer → Bool)
        → count_where p (armed_timers busy)
          ≡ count_where (λ (t : Timer). is_armed t.status && p t) busy.timers)
armed_timers-SortedByDue_example = armed_timers-SortedByDue busy

set_plan-current_example :
    Holds
      (λ p db'.
        (current_plan 1 db' ≡ some p)
        × (p.body ≡ codes "Look first.")
        × All (λ (q : Plan). q.revision < p.revision) (select (is_plan_of 1) busy.plans)
        × ((k : ℕ) → k ≢ 1 → current_plan k db' ≡ current_plan k busy))
      (set_plan 1 (codes "Look first.") 11 busy)
set_plan-current_example = set_plan-current 1 (codes "Look first.") 11 busy

add_attempt-Launched_example :
    Holds (λ a db'. Launched wanted calm a db') (add_attempt wanted (codes "/w") 11 calm)
add_attempt-Launched_example = add_attempt-Launched wanted (codes "/w") 11 calm

add_supervisor-only_live_example :
    Holds
      (λ s db'.
        (count_where is_live_supervisor empty_db.supervisors ≡ 0)
        × (count_where is_live_supervisor db'.supervisors ≡ 1)
        × (live_supervisor db' ≡ some s)
        × All (λ (x : Supervisor). x.id < s.id) empty_db.supervisors)
      (add_supervisor next_boss 11 empty_db)
add_supervisor-only_live_example = add_supervisor-only_live next_boss 11 empty_db

is_logged : is_of_attempt 12 logged ≡ true
unfolding is_of_attempt
is_logged = refl

is_of_attempt-one_example : ◌≡◌ {A = ℕ} 12 12
is_of_attempt-one_example = is_of_attempt-one 12 12 logged is_logged is_logged

screen_tail-byte_len_example : byte_len (screen_tail (codes "$ make")) ≤ screen_max
screen_tail-byte_len_example = screen_tail-byte_len (codes "$ make")

clean_device_text-length_example : length (clean_device_text (codes "My phone") 40) ≤ 40
clean_device_text-length_example = clean_device_text-length (codes "My phone") 40

adopt_project-keeps_example :
    Holds
      (λ answered db'.
        (project_of (codes "web") db' ≡ some (record web { settings = answered }))
        × (is_empty web.settings ≡ false → (db' ≡ busy) × (answered ≡ web.settings))
        × (is_empty web.settings ≡ true → answered ≡ codes "{x}"))
      (adopt_project (codes "web") (codes "{x}") 11 busy)
unfolding text_eq
adopt_project-keeps_example = adopt_project-keeps (codes "web") (codes "{x}") 11 busy web refl

revoke_phone_forgets_example :
    Holds
      (λ out db'.
        All (λ (d : Device). is_phone label d ≡ false) db'.devices
        × All (λ (d : Device). is_phone label d ≡ true) out
        × ((id : ℕ) (d : Device)
            → find (λ (x : Device). x.id == id) busy.devices ≡ some d
            → is_phone label d ≡ false
            → find (λ (x : Device). x.id == id) db'.devices ≡ some d))
      (revoke_phone label 11 busy)
revoke_phone_forgets_example = revoke_phone_forgets label 11 busy

transition-Moved_example :
    Holds
      (λ t db'. (t.status ≡ TaskStatus.done) × Moved calm 1 TaskStatus.done 11 db')
      (transition 1 (task_status_text TaskStatus.done) [] 11 calm)
transition-Moved_example = transition-Moved 1 TaskStatus.done [] 11 calm

screen_tail-All_example : All (λ c. is_plain c ≡ true) (screen_tail (codes "$ make"))
screen_tail-All_example = screen_tail-All (codes "$ make")
