-- ===== src/State/Decisions.antt =====
-- internal/state/decision.go and plan.go: what a task asks its operator, and the plan of a task.
use hand.Base.{
  Bool, List, Option, Text, [], codes, conflict, count_where, find, has_line_break, if◌then◌else◌,
  invalid, is_empty, length, ltb, max_of, none, not, not_found, select, some, take, trim_space,
  update_where, ℕ, ◌&&◌, ◌++◌, ◌+◌, ◌-◌, ◌==◌, ◌||◌, ◌∷◌,
}
use hand.State.Schema.{Db, Decision, DecisionStatus, Plan, TaskStatus}
use hand.State.Transactions.{M, exec, pure, query, query_row, refuse, ◌>>=◌, ◌>>◌}
use hand.State.Statuses.{is_opened, task_status_eq}
use hand.State.Events.{append_event, emit}
use hand.State.Refs.{decision_ref, plan_ref}
use hand.State.Tasks.{task_of}

abbrev pub max_headline : ℕ
max_headline = 120

abbrev pub max_question : ℕ
max_question = 8000

-- strings.Cut(s, "\n"): what stands before the first line break, and behind it.
unfoldable pub before_break : Text → Text
before_break [] = []
before_break (c ∷ s) = let rest = before_break s in if c == 10 then [] else c ∷ rest

unfoldable pub after_break : Text → Text
after_break [] = []
after_break (c ∷ s) = let rest = after_break s in if c == 10 then s else rest

-- Decision.firstLine.
unfoldable pub first_line : Text → Text
unfolding before_break trim_space
first_line question = trim_space (before_break (trim_space question))

-- Decision.Headline.
unfoldable pub headline : Text → Text
unfolding first_line trim_space
headline question =
    let line = first_line question in
    if ltb max_headline (length line)
    then trim_space (take (max_headline - 1) line) ++ 0x2026 ∷ []
    else line

-- Decision.Body.
unfoldable pub body : Text → Text
unfolding first_line after_break trim_space
body question =
    if ltb max_headline (length (first_line question))
    then trim_space question
    else trim_space (after_break (trim_space question))

-- requireOpenTask of plan.go.
unfoldable pub require_open_task : ℕ → M (Unit {0})
require_open_task id = do
  t ← query_row (task_of id) not_found
  refuse
      (not (task_status_eq t.status TaskStatus.inbox)
        && not (task_status_eq t.status TaskStatus.active))
      conflict

abbrev pub next_decision_id : Db → ℕ
next_decision_id db = max_of (λ (d : Decision). d.id) db.decisions + 1

unfoldable pub new_decision : ℕ → Text → ℕ → ℕ → Decision
new_decision task_id question now id = record {
  id = id;
  task_id = task_id;
  question = question;
  status = DecisionStatus.opened;
  answer = [];
  answered_by = [];
  created_at = now;
  closed_at = none;
}

unfoldable pub insert_decision : Decision → Db → Db
insert_decision d db = record db { decisions = db.decisions ++ d ∷ [] }

unfoldable pub ask_tx : ℕ → Text → ℕ → M Decision
unfolding require_open_task new_decision insert_decision append_event decision_ref
ask_tx task_id question now = do
  require_open_task task_id
  id ← query next_decision_id
  exec (insert_decision (new_decision task_id question now id))
  emit now (codes "decision.asked") task_id (decision_ref id)
  pure (new_decision task_id question now id)

-- Store.Ask.
unfoldable pub ask : ℕ → Text → ℕ → M Decision
unfolding trim_space first_line ask_tx
ask task_id question now = do
  let question' = trim_space question
  refuse (is_empty question' || ltb max_question (length question')) invalid
  refuse (ltb max_headline (length (first_line question'))) invalid
  ask_tx task_id question' now

abbrev pub decision_of : ℕ → Db → Option Decision
decision_of id db = find (λ (d : Decision). d.id == id) db.decisions

abbrev pub is_open_with : ℕ → Decision → Bool
is_open_with id d = d.id == id && is_opened d.status

abbrev pub decision_status_text : DecisionStatus → Text
decision_status_text DecisionStatus.opened = codes "open"
decision_status_text DecisionStatus.answered = codes "answered"
decision_status_text DecisionStatus.withdrawn = codes "withdrawn"

unfoldable pub set_decision : ℕ → DecisionStatus → Text → Text → ℕ → Db → Db
set_decision id to answer by now db = record db {
  decisions =
      update_where (is_open_with id)
        (λ (d : Decision). record d {
          status = to;
          answer = answer;
          answered_by = by;
          closed_at = some now;
        })
        db.decisions;
}

-- closeDecision.
unfoldable pub close_decision : ℕ → DecisionStatus → Text → Text → ℕ → M Decision
unfolding set_decision append_event decision_ref
close_decision id to answer by now = do
  d ← query_row (decision_of id) not_found
  refuse (not (is_opened d.status)) conflict
  affected ← query (λ db. count_where (is_open_with id) db.decisions)
  exec (set_decision id to answer by now)
  refuse (not (affected == 1)) conflict
  emit now (codes "decision." ++ decision_status_text to) d.task_id (decision_ref id)
  pure (record d { status = to; answer = answer; answered_by = by; closed_at = some now })

-- Store.Answer.
unfoldable pub answer : ℕ → Text → Text → ℕ → M Decision
unfolding trim_space has_line_break close_decision
answer id text by now = do
  refuse (is_empty (trim_space text)) invalid
  refuse (is_empty (trim_space by) || has_line_break by) invalid
  close_decision id DecisionStatus.answered text by now

-- Store.Withdraw.
unfoldable pub withdraw : ℕ → ℕ → M Decision
unfolding close_decision
withdraw id now = close_decision id DecisionStatus.withdrawn [] [] now

-- Store.OpenDecisionCount, of one task or of all (0).
unfoldable pub open_decision_count : ℕ → Db → ℕ
open_decision_count task_id db =
    count_where (λ (d : Decision). is_opened d.status && (task_id == 0 || d.task_id == task_id))
      db.decisions

abbrev pub is_plan_of : ℕ → Plan → Bool
is_plan_of task_id p = p.task_id == task_id

-- `COALESCE(MAX(revision), 0) + 1` of the task's plans.
unfoldable pub next_revision : ℕ → Db → ℕ
next_revision task_id db =
    max_of (λ (p : Plan). p.revision) (select (is_plan_of task_id) db.plans) + 1

unfoldable pub insert_plan : Plan → Db → Db
insert_plan p db = record db { plans = db.plans ++ p ∷ [] }

-- Store.SetPlan.
unfoldable pub set_plan : ℕ → Text → ℕ → M Plan
unfolding trim_space require_open_task next_revision insert_plan append_event plan_ref
set_plan task_id text now = do
  refuse (is_empty (trim_space text)) invalid
  require_open_task task_id
  revision ← query (next_revision task_id)
  let p : Plan = record { task_id = task_id; revision = revision; body = text; created_at = now }
  exec (insert_plan p)
  emit now (codes "plan.set") task_id (plan_ref revision)
  pure p

-- The plan with the largest revision: `ORDER BY revision DESC LIMIT 1`.
unfoldable pub newest_plan : List Plan → Option Plan
newest_plan [] = none
newest_plan (p ∷ ps) = elim (newest_plan ps) [
  | none ↦ some p
  | some q ↦ if ltb q.revision p.revision then some p else some q
]

-- Store.CurrentPlan.
unfoldable pub current_plan : ℕ → Db → Option Plan
unfolding newest_plan
current_plan task_id db = newest_plan (select (is_plan_of task_id) db.plans)
