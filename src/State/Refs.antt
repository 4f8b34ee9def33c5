-- ===== src/State/Refs.antt =====
-- internal/state/refs.go and the refs of plan.go and supervisor.go: the short names of rows.
use hand.Base.{Text, codes, decimal, ℕ, ◌++◌, ◌∷◌}

unfoldable pub task_ref : ℕ → Text
unfolding decimal
task_ref id = b't' ∷ decimal id

unfoldable pub decision_ref : ℕ → Text
unfolding decimal
decision_ref id = b'd' ∷ decimal id

unfoldable pub attempt_ref : ℕ → Text
unfolding decimal
attempt_ref id = b'a' ∷ decimal id

unfoldable pub report_ref : ℕ → Text
unfolding decimal
report_ref id = b'r' ∷ decimal id

unfoldable pub timer_ref : ℕ → Text
unfolding decimal
timer_ref id = b'w' ∷ decimal id

unfoldable pub plan_ref : ℕ → Text
unfolding decimal
plan_ref revision = b'p' ∷ decimal revision

unfoldable pub supervisor_ref : ℕ → Text
unfolding decimal
supervisor_ref id = b's' ∷ decimal id

unfoldable pub input_ref : ℕ → Text
unfolding decimal
input_ref id = b'i' ∷ decimal id

-- "<ref>: <detail>", the form of an event's detail.
abbrev pub noted : Text → Text → Text
noted ref detail = ref ++ codes ": " ++ detail
