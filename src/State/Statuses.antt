-- ===== src/State/Statuses.antt =====
-- The status words of internal/state (task.go, attempt.go, decision.go, report.go, timer.go), and
-- which status may follow which.
use hand.Base.{
  Bool, List, Option, Text, [], codes, false, if◌then◌else◌, none, some, text_eq, true, ℕ, ◌||◌,
  ◌∷◌,
}
use hand.State.Schema.{AttemptStatus, DecisionStatus, ReportStatus, TaskStatus, TimerStatus}

abbrev pub task_status_text : TaskStatus → Text
task_status_text TaskStatus.inbox = codes "inbox"
task_status_text TaskStatus.active = codes "active"
task_status_text TaskStatus.done = codes "done"
task_status_text TaskStatus.abandoned = codes "abandoned"

abbrev pub attempt_status_text : AttemptStatus → Text
attempt_status_text AttemptStatus.launching = codes "launching"
attempt_status_text AttemptStatus.running = codes "running"
attempt_status_text AttemptStatus.exited = codes "exited"
attempt_status_text AttemptStatus.stopped = codes "stopped"
attempt_status_text AttemptStatus.interrupted = codes "interrupted"
attempt_status_text AttemptStatus.failed = codes "failed"

abbrev pub report_status_text : ReportStatus → Text
report_status_text ReportStatus.progress = codes "progress"
report_status_text ReportStatus.done = codes "done"
report_status_text ReportStatus.stuck = codes "stuck"

abbrev pub task_statuses : List TaskStatus
task_statuses = TaskStatus.inbox ∷ TaskStatus.active ∷ TaskStatus.done ∷ TaskStatus.abandoned ∷ []

-- The status that a word names, if it is one of `statuses`.
read_from : Text → List TaskStatus → Option TaskStatus
read_from word [] = none
read_from word (s ∷ ss) = if text_eq (task_status_text s) word then some s else read_from word ss

unfoldable pub read_task_status : Text → Option TaskStatus
unfolding read_from
read_task_status word = read_from word task_statuses

read_report_from : Text → List ReportStatus → Option ReportStatus
read_report_from word [] = none
read_report_from word (s ∷ ss) =
    if text_eq (report_status_text s) word then some s else read_report_from word ss

-- `reportStatuses`.
unfoldable pub read_report_status : Text → Option ReportStatus
unfolding read_report_from
read_report_status word =
    read_report_from word (ReportStatus.progress ∷ ReportStatus.done ∷ ReportStatus.stuck ∷ [])

abbrev pub task_status_eq : TaskStatus → TaskStatus → Bool
task_status_eq TaskStatus.inbox TaskStatus.inbox = true
task_status_eq TaskStatus.active TaskStatus.active = true
task_status_eq TaskStatus.done TaskStatus.done = true
task_status_eq TaskStatus.abandoned TaskStatus.abandoned = true
task_status_eq _ _ = false

abbrev pub attempt_status_eq : AttemptStatus → AttemptStatus → Bool
attempt_status_eq AttemptStatus.launching AttemptStatus.launching = true
attempt_status_eq AttemptStatus.running AttemptStatus.running = true
attempt_status_eq AttemptStatus.exited AttemptStatus.exited = true
attempt_status_eq AttemptStatus.stopped AttemptStatus.stopped = true
attempt_status_eq AttemptStatus.interrupted AttemptStatus.interrupted = true
attempt_status_eq AttemptStatus.failed AttemptStatus.failed = true
attempt_status_eq _ _ = false

-- `transitions` of task.go.
abbrev pub transitions : TaskStatus → List TaskStatus
transitions TaskStatus.inbox = TaskStatus.active ∷ TaskStatus.abandoned ∷ []
transitions TaskStatus.active = TaskStatus.done ∷ TaskStatus.abandoned ∷ []
transitions TaskStatus.done = []
transitions TaskStatus.abandoned = []

abbrev pub contains_status : List TaskStatus → TaskStatus → Bool
contains_status [] s = false
contains_status (t ∷ ts) s = task_status_eq t s || contains_status ts s

-- `attemptEnds` of attempt.go.
abbrev pub attempt_ends : AttemptStatus → List AttemptStatus
attempt_ends AttemptStatus.launching = AttemptStatus.failed ∷ []
attempt_ends AttemptStatus.running =
    AttemptStatus.exited ∷ AttemptStatus.stopped ∷ AttemptStatus.interrupted ∷ []
attempt_ends AttemptStatus.exited = []
attempt_ends AttemptStatus.stopped = []
attempt_ends AttemptStatus.interrupted = []
attempt_ends AttemptStatus.failed = []

-- `supervisorEnds` of supervisor.go.
abbrev pub supervisor_ends : AttemptStatus → List AttemptStatus
supervisor_ends AttemptStatus.launching = AttemptStatus.failed ∷ []
supervisor_ends AttemptStatus.running =
    AttemptStatus.exited ∷ AttemptStatus.interrupted ∷ AttemptStatus.stopped ∷ []
supervisor_ends AttemptStatus.exited = []
supervisor_ends AttemptStatus.stopped = []
supervisor_ends AttemptStatus.interrupted = []
supervisor_ends AttemptStatus.failed = []

abbrev pub contains_attempt_status : List AttemptStatus → AttemptStatus → Bool
contains_attempt_status [] s = false
contains_attempt_status (t ∷ ts) s = attempt_status_eq t s || contains_attempt_status ts s

-- Attempt.Live and Supervisor.Live.
abbrev pub is_live : AttemptStatus → Bool
is_live AttemptStatus.launching = true
is_live AttemptStatus.running = true
is_live _ = false

-- `to == StatusDone || to == StatusAbandoned`.
abbrev pub is_finished : TaskStatus → Bool
is_finished TaskStatus.done = true
is_finished TaskStatus.abandoned = true
is_finished _ = false

abbrev pub is_opened : DecisionStatus → Bool
is_opened DecisionStatus.opened = true
is_opened _ = false

abbrev pub is_armed : TimerStatus → Bool
is_armed TimerStatus.armed = true
is_armed _ = false

abbrev pub is_none : Option ℕ → Bool
is_none none = true
is_none (some n) = false
