-- ===== src/State/Reports.antt =====
-- internal/state/report.go: what a running attempt reports, and who has read it.
use hand.Base.{
  Bool, List, Option, Result, Text, [], byte_len, codes, conflict, count_where, ends_with, err,
  exists_where, find, find_last, has_line_break, if◌then◌else◌, invalid, is_empty, ltb, max_of,
  none, not, not_found, ok, select, some, starts_with, take, take_last, text_eq, trim_space,
  update_where, ℕ, ◌&&◌, ◌++◌, ◌+◌, ◌==◌, ◌||◌, ◌∷◌,
}
use hand.State.Schema.{AttemptStatus, Db, Event, Report, ReportStatus}
use hand.State.Transactions.{M, exec, pure, query, query_row, refuse, require, ◌>>=◌, ◌>>◌}
use hand.State.Statuses.{
  attempt_status_eq, is_live, is_none, read_report_status, report_status_text,
}
use hand.State.Events.{append_event, emit, last_attempt_event}
use hand.State.Refs.{attempt_ref, noted, report_ref}
use hand.State.Attempts.{get_attempt}

abbrev pub max_report_bytes : ℕ
max_report_bytes = 65536

abbrev pub next_report_id : Db → ℕ
next_report_id db = max_of (λ (r : Report). r.id) db.reports + 1

unfoldable pub new_report : ℕ → ℕ → ReportStatus → Text → ℕ → ℕ → Report
new_report attempt_id task_id status body now id = record {
  id = id;
  attempt_id = attempt_id;
  task_id = task_id;
  status = status;
  body = body;
  created_at = now;
  acked_at = none;
  acked_by = [];
}

unfoldable pub insert_report : Report → Db → Db
insert_report r db = record db { reports = db.reports ++ r ∷ [] }

unfoldable pub add_report_tx : ℕ → ReportStatus → Text → ℕ → M Report
unfolding new_report insert_report append_event attempt_ref report_ref
add_report_tx attempt_id status body now = do
  a ← get_attempt attempt_id
  refuse (not (attempt_status_eq a.status AttemptStatus.running)) conflict
  id ← query next_report_id
  exec (insert_report (new_report attempt_id a.task_id status body now id))
  emit now (codes "attempt.reported") a.task_id
      (noted (attempt_ref attempt_id) (report_ref id ++ 32 ∷ report_status_text status))
  pure (new_report attempt_id a.task_id status body now id)

-- Store.AddReport. `status` is the word that the caller gave.
unfoldable pub add_report : ℕ → Text → Text → ℕ → M Report
unfolding read_report_status trim_space byte_len add_report_tx
add_report attempt_id status body now = do
  s ← require (read_report_status status) invalid
  refuse (is_empty (trim_space body) || ltb max_report_bytes (byte_len body)) invalid
  add_report_tx attempt_id s body now

abbrev pub report_of : ℕ → Db → Option Report
report_of id db = find (λ (r : Report). r.id == id) db.reports

unfoldable pub set_acked : ℕ → Text → ℕ → Db → Db
set_acked id by now db = record db {
  reports =
      update_where (λ (r : Report). r.id == id)
        (λ (r : Report). record r { acked_at = some now; acked_by = by }) db.reports;
}

-- Store.AckReport.
unfoldable pub ack_report : ℕ → Text → ℕ → M Report
unfolding trim_space has_line_break set_acked append_event report_ref
ack_report id by now = do
  refuse (is_empty (trim_space by) || has_line_break by) invalid
  r ← query_row (report_of id) not_found
  refuse (not (is_none r.acked_at)) conflict
  exec (set_acked id by now)
  emit now (codes "report.acked") r.task_id (report_ref id ++ codes " by " ++ by)
  pure (record r { acked_at = some now; acked_by = by })

-- ReportFilter.
pub record ReportFilter : Type 0 where
  pub attempt_id : ℕ
  pub task_id : ℕ
  pub unacked : Bool
  pub oldest : Bool

abbrev pub passes : ReportFilter → Report → Bool
passes f r =
    (f.attempt_id == 0 || r.attempt_id == f.attempt_id)
    && (f.task_id == 0 || r.task_id == f.task_id)
    && (not f.unacked || is_none r.acked_at)

-- Store.Reports.
unfoldable pub list_reports : ReportFilter → ℕ → Db → Result (List Report)
list_reports f limit db =
    if ltb limit 1
    then err invalid
    else ok (
        if f.oldest
        then take limit (select (passes f) db.reports)
        else take_last limit (select (passes f) db.reports))

-- Store.LatestReport.
unfoldable pub latest_report : ReportFilter → Db → Option Report
latest_report f db = find_last (passes f) db.reports

-- Store.UnackedReportCount.
unfoldable pub unacked_report_count : Db → ℕ
unacked_report_count db = count_where (λ (r : Report). is_none r.acked_at) db.reports

abbrev pub quiet : Text
quiet = codes "attempt.quiet"

abbrev pub idle : Text
idle = codes "attempt.idle"

abbrev pub reported : Text
reported = codes "attempt.reported"

-- The detail of an event of the attempt: `detail LIKE 'aN: %'`.
unfoldable pub is_noted_of : ℕ → Event → Bool
unfolding starts_with attempt_ref
is_noted_of id e = starts_with (attempt_ref id ++ codes ": ") e.detail

abbrev is_rest : ℕ → Event → Bool
is_rest id e = (text_eq e.kind quiet || text_eq e.kind idle) && is_noted_of id e

-- Has the attempt reported since its last quiet or idle event?
unfoldable pub has_new_report : ℕ → Db → Bool
unfolding text_eq is_noted_of
has_new_report id db =
    let since = max_of (λ (e : Event). e.seq) (select (is_rest id) db.events) in
    exists_where (λ (e : Event). text_eq e.kind reported && is_noted_of id e && ltb since e.seq)
      db.events

-- The detail and the kind that RecordQuiet gives to the end of a turn.
unfoldable pub quiet_detail : ℕ → Text → Db → Text
unfolding has_new_report report_ref
quiet_detail id api_error db =
    elim (if has_new_report id db
      then find_last (λ (r : Report). r.attempt_id == id) db.reports
      else none) [
        | some r ↦
            codes "turn ended; reported " ++ report_ref r.id ++ 32 ∷ report_status_text r.status
        | none ↦
            if is_empty api_error
            then codes "turn ended without a new report"
            else codes "api error: " ++ api_error
      ]

unfoldable pub quiet_kind : Option Event → Text
unfolding text_eq ends_with
quiet_kind none = quiet
quiet_kind (some last) =
    if text_eq last.kind quiet
      || text_eq last.kind idle
      || (text_eq last.kind reported && not (ends_with (32 ∷ codes "progress") last.detail))
    then idle
    else quiet

-- Store.RecordQuiet.
unfoldable pub record_quiet : ℕ → Text → ℕ → M (Text × Text)
unfolding quiet_detail quiet_kind last_attempt_event append_event attempt_ref
record_quiet id api_error now = do
  a ← get_attempt id
  refuse (not (is_live a.status)) conflict
  detail ← query (quiet_detail id api_error)
  last ← query (last_attempt_event id)
  let kind = quiet_kind last
  emit now kind a.task_id (noted (attempt_ref id) detail)
  pure (kind, detail)
