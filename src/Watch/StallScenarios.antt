-- ===== src/Watch/StallScenarios.antt =====
-- The theorem on internal/cli/watch_stall.go, tried on a fleet at rest.
use hand.Base.{[], ap, arith, codes, false, length, none, ok, refl, some, ℕ, ◌*◌, ◌∷◌, ◌≡◌, ◌≢◌}
use hand.State.Schema.{Db, Event, empty_db}
use hand.State.Transactions.{◌>>=◌}
use hand.State.Supervisors.{note_supervisor}
use hand.State.Unwatched.{idle_since, is_activity, is_watched, unwatched, unwatched_tasks}
use hand.State.Scenarios.{boss, task}
use hand.Harness.{Stall}
use hand.Watch.World.{resting}
use hand.Watch.Stall.{Look, Rest, Said, stall}
use hand.Watch.Stalling.{Justified, stall-Justified}

abbrev minutes : ℕ → ℕ
minutes n = n * 60000000000

abbrev moved : Event
moved = record { seq = 1; at = 5; kind = codes "task.active"; task_id = 1; detail = codes "t1" }

abbrev idle_db : Db
idle_db = record empty_db {
  tasks = task ∷ [];
  supervisors = boss ∷ [];
  events = moved ∷ [];
  event_seq = 1;
}

abbrev policy : Stall
policy = record { off = false; after = minutes 20; every = minutes 60 }

abbrev look : Look
look = record { now = minutes 80; status = some resting; screen = some (3, false); commit = none }

abbrev at_rest : Rest
at_rest = record { sup = 1; rev = 3; since = some (minutes 1); worked = none }

stall_said :
    (stall (codes "hand") policy [] look at_rest idle_db).0
    ≡ ok (Said.alerted (codes "s1 stalled: t1 is active, no attempt is running, idle 1h19m"))
unfolding stall unwatched is_watched note_supervisor ◌>>=◌ unwatched_tasks is_activity idle_since
stall_said = refl

stall_noted : length (stall (codes "hand") policy [] look at_rest idle_db).2.events ≡ 2
unfolding stall unwatched is_watched note_supervisor ◌>>=◌ unwatched_tasks is_activity idle_since
stall_noted = refl

-- Too early, nothing is said.
stall_early :
    (stall (codes "hand") policy [] (record look { now = minutes 10 }) at_rest idle_db).0
    ≡ ok Said.nothing
unfolding stall unwatched is_watched unwatched_tasks is_activity idle_since
stall_early = refl

stall_writes : (stall (codes "hand") policy [] look at_rest idle_db).2 ≢ idle_db
stall_writes e = omega (arith, stall_noted, ap (λ (db : Db). length db.events) e)

stall-Justified_example : Justified policy [] look idle_db
stall-Justified_example = stall-Justified (codes "hand") policy [] look at_rest idle_db stall_writes
