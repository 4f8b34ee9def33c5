-- ===== src/State/Launches.antt =====
-- internal/state/attempt.go, AddAttempt: the launch of a worker on a task.
use hand.Base.{
  List, Option, Result, Text, [], codes, conflict, contains_text, if◌then◌else◌, invalid, is_empty,
  length, max_of, none, not, not_found, some, suc, text_eq, zero, ℕ, ◌&&◌, ◌++◌, ◌+◌, ◌==◌, ◌||◌,
  ◌∷◌,
}
use hand.State.Schema.{Access, Approve, Attempt, AttemptStatus, Db, TaskStatus, no_terminal}
use hand.State.Transactions.{M, exec, lift, pure, query, query_row, refuse, require, ◌>>=◌, ◌>>◌}
use hand.State.Statuses.{is_live, is_none, task_status_eq}
use hand.State.Events.{append_event}
use hand.State.Refs.{attempt_ref, noted, task_ref}
use hand.State.Tasks.{cancel_waits, live_attempt, task_of}
use hand.State.Attempts.{asked_model, get_attempt, harnesses, opencode}

-- AttemptSpec; `argv_for` is the callback that builds the command once the worktree is known.
pub record AttemptSpec : Type 0 where
  pub task_id : ℕ
  pub harness : Text
  pub model : Text
  pub effort : Text
  pub argv : List Text
  pub argv_for : Option (Text → Result (List Text))
  pub continues : ℕ
  pub approve : Text
  pub access : Text

-- The checks of `spec.Approve` and `spec.Access`, an empty word for the default.
unfoldable pub read_approve : Text → Option Approve
unfolding text_eq
read_approve word =
    if is_empty word || text_eq word (codes "never")
    then some Approve.never
    else if text_eq word (codes "ask")
    then some Approve.ask
    else none

unfoldable pub read_access : Text → Option Access
unfolding text_eq
read_access word =
    if is_empty word || text_eq word (codes "open")
    then some Access.open_access
    else if text_eq word (codes "readonly")
    then some Access.readonly
    else none

-- filepath.Join of a clean root that does not end in a slash and a name.
abbrev pub join_path : Text → Text → Text
join_path root name = if is_empty root then name else root ++ b'/' ∷ name

-- The branch of the attempt that is continued, "" where none is.
unfoldable pub continued_branch : ℕ → ℕ → M Text
continued_branch task_id zero = pure []
continued_branch task_id (suc n) = do
  prev ← get_attempt (suc n)
  refuse (not (prev.task_id == task_id)) invalid
  refuse (is_live prev.status) conflict
  refuse (is_none prev.cleaned_at) conflict
  pure prev.branch

abbrev pub next_attempt_id : Db → ℕ
next_attempt_id db = max_of (λ (a : Attempt). a.id) db.attempts + 1

unfoldable pub launch_argv : Option (Text → Result (List Text)) → List Text → Text → M (List Text)
launch_argv none argv worktree = pure argv
launch_argv (some build) argv worktree = lift (build worktree)

unfoldable pub insert_attempt : Attempt → Db → Db
insert_attempt a db = record db { attempts = db.attempts ++ a ∷ [] }

unfoldable pub new_attempt :
    AttemptSpec → Approve → Access → ℕ → ℕ → List Text → Text → Text → Attempt
new_attempt spec approve access now id argv worktree branch = record {
  id = id;
  task_id = spec.task_id;
  harness = spec.harness;
  model = spec.model;
  effort = spec.effort;
  argv = argv;
  worktree = worktree;
  branch = branch;
  status = AttemptStatus.launching;
  terminal = no_terminal;
  reason = [];
  continues = spec.continues;
  created_at = now;
  ended_at = none;
  cleaned_at = none;
  approve = approve;
  access = access;
  kept = [];
  screen = none;
}

-- The events that AddAttempt writes, after it has cancelled the task's waits.
unfoldable pub announce_attempt : Attempt → ℕ → Db → Db
unfolding append_event text_eq cancel_waits asked_model attempt_ref
announce_attempt a now db =
    let launched =
      append_event now (codes "attempt.launching") a.task_id (attempt_ref a.id)
        (cancel_waits a.task_id now db) in
    if text_eq a.harness opencode && not (is_empty a.model)
    then append_event now (codes "model.requested") a.task_id
        (noted (attempt_ref a.id) (asked_model a.model a.effort)) launched
    else launched

unfoldable pub attempt_name : ℕ → ℕ → Text
unfolding task_ref attempt_ref
attempt_name task_id id = task_ref task_id ++ b'-' ∷ attempt_ref id

abbrev pub branch_for : Text → Text → Text → Text
branch_for branch fleet name =
    if is_empty branch then codes "hand/" ++ fleet ++ b'/' ∷ name else branch

unfoldable pub add_attempt_tx : AttemptSpec → Approve → Access → Text → ℕ → M Attempt
unfolding continued_branch launch_argv insert_attempt announce_attempt attempt_name
add_attempt_tx spec approve access root now = do
  t ← query_row (task_of spec.task_id) not_found
  refuse (not (task_status_eq t.status TaskStatus.active)) conflict
  branch ← continued_branch spec.task_id spec.continues
  live ← query (live_attempt spec.task_id)
  refuse (not (live == 0)) conflict
  fleet ← query_row (λ db. db.fleet) not_found
  id ← query next_attempt_id
  let name = attempt_name spec.task_id id
  let worktree = join_path root name
  argv ← launch_argv spec.argv_for spec.argv worktree
  refuse (length argv == 0) invalid
  let a = new_attempt spec approve access now id argv worktree (branch_for branch fleet.id name)
  exec (insert_attempt a)
  exec (announce_attempt a now)
  pure a

-- Store.AddAttempt.
unfoldable pub add_attempt : AttemptSpec → Text → ℕ → M Attempt
unfolding contains_text read_approve read_access add_attempt_tx
add_attempt spec root now = do
  refuse (not (contains_text harnesses spec.harness)) invalid
  approve ← require (read_approve spec.approve) invalid
  access ← require (read_access spec.access) invalid
  add_attempt_tx spec approve access root now
