-- ===== src/State/Attempts.antt =====
-- internal/state/attempt.go: an attempt is one worker on a task, from its launch to its removal.
use hand.Base.{
  Bool, List, Option, Result, Text, [], codes, conflict, contains_text, err, find, find_last,
  if◌then◌else◌, invalid, is_empty, ltb, none, not, not_found, ok, one_line, select, some,
  take_last, text_eq, update_where, ℕ, ◌&&◌, ◌++◌, ◌==◌, ◌||◌, ◌∷◌,
}
use hand.State.Schema.{Attempt, AttemptStatus, Db, Terminal}
use hand.State.Transactions.{M, exec, pure, query_row, refuse, ◌>>=◌, ◌>>◌}
use hand.State.Statuses.{
  attempt_ends, attempt_status_eq, attempt_status_text, contains_attempt_status, is_live, is_none,
}
use hand.State.Events.{append_event, attempt_kind, emit}
use hand.State.Refs.{attempt_ref, noted}
use hand.State.Screens.{screen_tail}

abbrev pub harnesses : List Text
harnesses =
    codes "claude"
    ∷ codes "codex"
    ∷ codes "opencode"
    ∷ codes "agy"
    ∷ codes "copilot"
    ∷ codes "omp"
    ∷ []

abbrev pub opencode : Text
opencode = codes "opencode"

abbrev pub attempt_of : ℕ → Db → Option Attempt
attempt_of id db = find (λ (a : Attempt). a.id == id) db.attempts

-- getAttempt.
abbrev pub get_attempt : ℕ → M Attempt
get_attempt id = query_row (attempt_of id) not_found

-- askedModel of asked.go.
unfoldable pub asked_model : Text → Text → Text
asked_model model effort = if is_empty effort then model else model ++ b'#' ∷ effort

-- UPDATE attempt SET ... WHERE id = ?.
unfoldable pub update_attempt : ℕ → (Attempt → Attempt) → Db → Db
update_attempt id f db = record db {
  attempts = update_where (λ (a : Attempt). a.id == id) f db.attempts;
}

-- Store.AttemptRunning.
unfoldable pub attempt_running : ℕ → Terminal → ℕ → M Attempt
unfolding update_attempt append_event attempt_ref
attempt_running id t now = do
  a ← get_attempt id
  refuse (not (attempt_status_eq a.status AttemptStatus.launching)) conflict
  exec (
      update_attempt id
        (λ (r : Attempt). record r { status = AttemptStatus.running; terminal = t }))
  emit now (codes "attempt.running") a.task_id (noted (attempt_ref id) (codes "pane " ++ t.pane_id))
  pure (record a { status = AttemptStatus.running; terminal = t })

-- setAttemptModel.
unfoldable pub model_changed : ℕ → Attempt → Text → Text → Db → Db
unfolding text_eq update_attempt append_event one_line attempt_ref
model_changed now a model effort db =
    if text_eq a.model model && text_eq a.effort effort
    then db
    else append_event now (codes "model.changed") a.task_id
        (one_line (noted (attempt_ref a.id) (model ++ 32 ∷ effort)))
        (update_attempt a.id (λ (r : Attempt). record r { model = model; effort = effort }) db)

-- Store.AttemptSwitched.
unfoldable pub attempt_switched : ℕ → Terminal → Text → Text → Text → Bool → ℕ → M Attempt
unfolding update_attempt append_event text_eq model_changed asked_model attempt_ref
attempt_switched id t to model effort requested now = do
  a ← get_attempt id
  refuse (not (attempt_status_eq a.status AttemptStatus.running)) conflict
  exec (update_attempt id (λ (r : Attempt). record r { terminal = t }))
  emit now (codes "attempt.switched") a.task_id
      (noted (attempt_ref id) (to ++ codes ", pane " ++ t.pane_id))
  exec (model_changed now a model effort)
  exec (λ db.
      if requested && text_eq a.harness opencode && not (is_empty model)
      then append_event now (codes "model.requested") a.task_id
          (noted (attempt_ref id) (asked_model model effort)) db
      else db)
  pure (record a { terminal = t; model = model; effort = effort })

-- `if t := screenTail(screen); t != ""`.
abbrev pub screen_column : Text → Option Text
screen_column [] = none
screen_column (c ∷ s) = some (c ∷ s)

-- Store.EndAttemptWithScreen; EndAttempt is this with an empty screen.
unfoldable pub end_attempt : ℕ → AttemptStatus → Text → Text → ℕ → M Attempt
unfolding update_attempt append_event attempt_ref
end_attempt id to reason screen now = do
  let tail = screen_column (screen_tail screen)
  a ← get_attempt id
  refuse (not (contains_attempt_status (attempt_ends a.status) to)) conflict
  exec (
      update_attempt id (λ (r : Attempt). record r {
        status = to;
        reason = reason;
        ended_at = some now;
        screen = tail;
      }))
  emit now (attempt_kind ++ attempt_status_text to) a.task_id (noted (attempt_ref id) reason)
  pure (record a { status = to; reason = reason; ended_at = some now; screen = tail })

abbrev pub with_reason : Text → Text → Text
with_reason ref [] = ref
with_reason ref (c ∷ s) = noted ref (c ∷ s)

-- cleanAttempt; CleanAttempt gives no reason, CleanAttemptAfter the retention window.
unfoldable pub clean_attempt : ℕ → Text → ℕ → M Attempt
unfolding update_attempt append_event attempt_ref
clean_attempt id why now = do
  a ← get_attempt id
  refuse (is_live a.status) conflict
  refuse (not (is_none a.cleaned_at)) conflict
  exec (update_attempt id (λ (r : Attempt). record r { cleaned_at = some now }))
  emit now (codes "attempt.cleaned") a.task_id (with_reason (attempt_ref id) why)
  pure (record a { cleaned_at = some now })

-- Store.KeepAttempt.
unfoldable pub keep_attempt : ℕ → Text → ℕ → M (Unit {0})
unfolding update_attempt append_event text_eq attempt_ref
keep_attempt id reason now = do
  a ← get_attempt id
  if text_eq a.kept reason || not (is_none a.cleaned_at) then pure tt else do
    exec (update_attempt id (λ (r : Attempt). record r { kept = reason }))
    emit now (codes "attempt.kept") a.task_id (noted (attempt_ref id) reason)

abbrev pub live_kinds : List Text
live_kinds =
    codes "blocked" ∷ codes "working" ∷ codes "limited" ∷ codes "long" ∷ codes "denied" ∷ []

-- Store.NoteAttempt.
unfoldable pub note_attempt : ℕ → Text → Text → ℕ → M (Unit {0})
unfolding contains_text append_event attempt_ref
note_attempt id kind detail now = do
  a ← get_attempt id
  refuse (not (is_live a.status) && contains_text live_kinds kind) conflict
  emit now (attempt_kind ++ kind) a.task_id (noted (attempt_ref id) detail)

-- Store.SetAttemptModel.
unfoldable pub set_attempt_model : ℕ → Text → Text → ℕ → M (Unit {0})
unfolding model_changed
set_attempt_model id model effort now = do
  a ← get_attempt id
  if is_live a.status then exec (model_changed now a model effort) else pure tt

-- Store.LiveAttempts, UncleanedAttempts, KeptAttempts.
unfoldable pub live_attempts : Db → List Attempt
live_attempts db = select (λ (a : Attempt). is_live a.status) db.attempts

unfoldable pub uncleaned_attempts : Db → List Attempt
uncleaned_attempts db = select (λ (a : Attempt). is_none a.cleaned_at) db.attempts

unfoldable pub kept_attempts : Db → List Attempt
kept_attempts db =
    select (λ (a : Attempt). not (is_empty a.kept) && is_none a.cleaned_at) db.attempts

-- Store.Attempts: the newest `limit` attempts of a task, or of all of them.
unfoldable pub list_attempts : ℕ → ℕ → Db → Result (List Attempt)
list_attempts task_id limit db =
    if ltb limit 1
    then err invalid
    else ok (
        take_last limit
          (select (λ (a : Attempt). task_id == 0 || a.task_id == task_id) db.attempts))

-- Store.LatestAttempt.
unfoldable pub latest_attempt : ℕ → Db → Option Attempt
latest_attempt task_id db = find_last (λ (a : Attempt). a.task_id == task_id) db.attempts
