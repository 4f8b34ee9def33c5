-- ===== src/Watch/Scenarios.antt =====
-- The theorems on internal/cli/watch.go, tried on one running attempt.
use hand.Base.{
  List, [], codes, false, if◌then◌else◌, map, none, refl, some, text_eq, text_eq_iff, true, ◌==◌,
  ◌∷◌, ◌≡◌, ◌≢◌,
}
use mathlib.Core.Bool.{false≢true}
use hand.State.Schema.{Db, Terminal, empty_db}
use hand.State.Transactions.{◌>>=◌}
use hand.State.Calls.{Call, Reachable, perform, step}
use hand.State.Attempts.{attempt_running, note_attempt}
use hand.State.Launches.{add_attempt, new_attempt}
use hand.State.Reports.{record_quiet}
use hand.State.Tasks.{add_task, transition}
use hand.State.Projects.{add_project, create_fleet}
use hand.State.Scenarios.{clean_path, wanted, worker}
use hand.State.Scenarios.Runs.{run, run-Reachable}
use hand.Watch.Observe.{observe, settle, settle_blocked}
use hand.Watch.World.{Alert, Answers, Readers, World, blocked, resting, working}
use hand.Watch.Notes.{Announced}
use hand.Watch.Announce.{observe-Announced}
use hand.Watch.Blocked.{observe-blocked_twice}
use hand.Watch.Session.{Accounted, Watched, Watched-Accounted}

abbrev pane : Terminal
pane = record {
  server_generation = codes "g1";
  terminal_id = codes "t1";
  pane_id = codes "p1";
  pid = 7;
  start_marker = codes "m";
}

abbrev launch_calls : List Call
launch_calls =
    Call.call_create_fleet (codes "f0") (codes "/h") (codes "hub") 1
    ∷ Call.call_add_project clean_path clean_path (codes "web") (codes "/srv/web") [] 1
    ∷ Call.call_add_task (codes "web") (codes "Fix it") [] 2
    ∷ Call.call_transition 1 (codes "active") [] 3
    ∷ Call.call_add_attempt wanted (codes "/w") 3
    ∷ Call.call_attempt_running 1 pane 4
    ∷ []

abbrev launched_db : Db
launched_db = run launch_calls empty_db

-- A screen on which nothing is to be read.
abbrev plain_readers : Readers
plain_readers = record {
  waiting = λ harness s. false;
  question = λ harness s. none;
  claude_idle = λ s. true;
  claude_title = λ s. [];
  limit = λ harness s. none;
  api_error = λ harness s. [];
}

abbrev later_answers : Answers
later_answers = record {
  now = 60000000000;
  screen = some (record { terminal_id = []; text = codes "$" });
  hint = some (codes "Allow?");
  commit = none;
}

abbrev fresh_world : World
fresh_world = record {
  db = launched_db;
  watcher = record {
    seen = λ id. if id == 1 then working else [];
    turns = λ id. none;
    held_at = λ id. none;
    blocked_pending = λ id. false;
    busy = none;
    screens = λ id. [];
    sweeps = 0;
    alerts = [];
  };
}

-- An agent that comes to rest is announced; a blocked one at the second look.
rest_alert :
    map
      (λ (al : Alert). al.text)
      (observe plain_readers later_answers worker resting fresh_world).1.watcher.alerts
    ≡ codes "a1 quiet: turn ended without a new report" ∷ []
unfolding observe settle perform create_fleet transition step add_project add_task add_attempt
    attempt_running record_quiet ◌>>=◌ new_attempt
rest_alert = refl

blocked_alerts :
    let once = (observe plain_readers later_answers worker blocked fresh_world).1 in
    let again =
      (observe
        (record plain_readers { waiting = λ harness s. true })
        later_answers
        worker
        blocked
        once).1 in
    (once.watcher.alerts ≡ [])
    × (map (λ (al : Alert). al.text) again.watcher.alerts ≡ codes "a1 blocked: Allow?" ∷ [])
unfolding observe settle settle_blocked perform create_fleet transition step add_project add_task
    add_attempt attempt_running note_attempt ◌>>=◌ new_attempt
blocked_alerts = (refl, refl)

observe-Announced_example :
    Announced later_answers 1 fresh_world
      (observe plain_readers later_answers worker resting fresh_world)
observe-Announced_example = observe-Announced plain_readers later_answers worker resting fresh_world

working-ne-blocked : working ≢ blocked
unfolding text_eq
working-ne-blocked e = false≢true ((text_eq_iff working blocked).1 e)

observe-blocked_twice_example :
    ((observe plain_readers later_answers worker blocked
        (observe plain_readers later_answers worker working fresh_world).1).1.db
      ≡ (observe plain_readers later_answers worker working fresh_world).1.db)
    × ((observe plain_readers later_answers worker blocked
          (observe plain_readers later_answers worker working fresh_world).1).1.watcher.alerts
        ≡ (observe plain_readers later_answers worker working fresh_world).1.watcher.alerts)
observe-blocked_twice_example =
    observe-blocked_twice plain_readers later_answers later_answers worker working fresh_world
      working-ne-blocked

abbrev rested_world : World
rested_world = (observe plain_readers later_answers worker resting fresh_world).1

rested_world-Watched : Watched rested_world
rested_world-Watched =
    Watched.looks
      (Watched.begins fresh_world (run-Reachable launch_calls empty_db Reachable.start) refl)
      plain_readers later_answers worker resting

Watched-Accounted_example : Accounted rested_world.db rested_world.watcher.alerts
Watched-Accounted_example = Watched-Accounted rested_world rested_world-Watched
