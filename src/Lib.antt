-- ===== src/Lib.antt =====
-- Hand (github.com/atqamz/hand): a supervisor layer for coding agents. A fleet's whole workflow is
-- a state machine over one SQLite database. The supervisor, the workers, the watcher and the board
-- are separate processes that never talk to each other: each calls methods of state.Store, and each
-- method that writes runs in one immediate transaction, so that the database sees a sequence of
-- calls. This library models that package, internal/state, the watcher of internal/cli, which
-- follows the agents' panes and writes what it sees into the store, the markdown renderer of the
-- board, which shows what agents write, and two small pieces around them.
--
-- Which file models which part:
--
--   Base                       texts, lists, table queries and errors that the parts share
--   State/Schema               the rows and the tables: internal/state/schema.sql, kept.sql,
--                              home.sql and the structs of internal/state
--   State/Transactions         Store.tx and the calls of database/sql inside it: internal/state/state.go
--   State/Refs                 internal/state/refs.go, PlanRef, SupervisorRef, inputRef
--   State/Statuses             the status words and the maps transitions, attemptEnds, supervisorEnds
--   State/Events               internal/state/event.go: emit, closeAll, the notes, the reads
--   State/Tasks                internal/state/task.go: AddTask, Transition, Deliver, Tasks, CountTasks
--   State/Screens              internal/state/attempt.go: screenTail
--   State/Attempts             internal/state/attempt.go and asked.go
--   State/Launches             internal/state/attempt.go: AddAttempt
--   State/Decisions            internal/state/decision.go and plan.go
--   State/Reports              internal/state/report.go
--   State/Clock, State/Timers  internal/state/timer.go, with the formats of package time
--   State/Supervisors          internal/state/supervisor.go
--   State/Inputs               internal/state/supervisor.go: CheckMessage and the inputs
--   State/Projects             internal/state/project.go, grant.go and fleet.go
--   State/Devices              internal/state/device.go
--   State/Queries              internal/state/event.go: the reads of the log, TurnStart, SupervisorHold
--   State/Unwatched            internal/state/unwatched.go
--   State/Calls                the methods that write, as data, without moves, imports and
--                              RebaseProjects; `step` runs one, and Reachable is what any sequence
--                              of them makes of an empty database
--   State/Consistency          the invariant that ties the tables together, call by call
--   State/Log                  the event log and the keys of devices, call by call
--   State/History              what no call changes any more, call by call
--   State/Finished, Transition, Moving, Launching, Endings, Firing, Fired, Revisions, Waking, Trust,
--   Names, Bounds, Screens/Plain
--                              what single operations do
--   State/Scenarios            a fleet on which each theorem is tried, and runs
--   State/Homes, Replacing     internal/state/move.go: replacePathFold, countPath, countHits
--   State/HomeScenarios        the theorem on these, tried
--   Watch/World                the watcher of internal/cli/watch.go: its fields and what it asks
--   Watch/Rest, Observe, Blocked, Turns
--                              observe with noteBlocked, hold (watch_opencode.go), confirmBlocked,
--                              unblock, longTurns and catchUp, over the store they write to
--   Watch/Stall                internal/cli/watch_stall.go: stall, with Unwatched of the store
--   Watch/Notes, Session, Announce, Stalling
--                              what a session of these calls does
--   Watch/Scenarios, StallScenarios
--                              the theorems on the watcher, tried
--   Toon                       internal/toon/toon.go: ShellQuote
--   Toon/Values, Reading       internal/toon/toon.go: Value and the rows of a table
--   Toon/Render, Lines         internal/toon/toon.go: plain, Help and Render
--   Markdown/Escape, Places, Ends, Scan, Inline, Lines, Writer, Tables, Lists, Blocks
--                              internal/markdown/markdown.go, from html.EscapeString to Render
--   Markdown/Html              what safe HTML is
--   Markdown/Writing, Marks, Marker, Safe, Pieces, Items, Page
--                              what each part of a page writes, from the marks to the whole
--   Markdown/Scenarios         the theorem on Render, tried on a page, and a run
--   Harness                    internal/harness/policy.go: Stall.Delay
--   Harness/CommandLine        internal/harness/commandline.go
--   Samples                    the theorems on Toon and Harness, tried
--
-- How the model corresponds to the code. A table is the list of its rows in the order of its
-- integer key, and an SQL statement is the list operation that it stands for: SELECT ... LIMIT 1 is
-- `find` or `find_last`, UPDATE ... WHERE is `update_where`, RowsAffected is `count_where`, and the
-- key of a new row is one past the largest; event and device use AUTOINCREMENT and have counters of
-- their own. A transaction is a function from the database to a result and a database (`M`),
-- written in do blocks in the order of the Go statements; `refuse` is an early return of an error.
-- An error keeps the sentinel that it wraps (ErrNotFound, ErrConflict, ErrInvalid), not its words.
-- The clock that a method reads is its argument `now`; AddTimer reads it twice.
--
-- Bounds. A text is the list of the code points of valid UTF-8, so that the calls of
-- strings.ToValidUTF8 and utf8.ValidString change nothing. A time is its nanoseconds since 1970 and
-- a duration is not negative; both are natural numbers, as are keys and sequence numbers, which the
-- program keeps in int64 columns. Fuel is in `strip_from` of State/Screens, which reads at least
-- one character at each step and gets the length of the text; in `decimal_from` of Base/Texts,
-- which divides by ten and gets the number itself; and in `strip_from` of Toon/Render, which gets
-- the length of the text as well. In State/Homes and Markdown a run out of fuel is `none`, and the
-- theorems show that it does not happen: each round reads a character, a line or more; a quotation
-- holds no quotation; replacePathFold and inline get one more than the length of the text, blocks
-- two more than the number of the lines. References are lower-case, so the case folding of LIKE
-- makes no difference.
--
-- Parameters, not modelled: what the driver's COMMIT answers (`commit_error`); the file system that
-- storedPath asks and filepath.Clean (`stored`, `clean`); the random fleet id; the callback that
-- builds a worker's command (`argv_for`). Errors of the driver other than a failed COMMIT are left
-- out: they end a transaction as any other error does. The JSON of argv is left out, and
-- filepath.Join is modelled for a clean root. For the watcher: what luvus answers, what
-- internal/harness reads on a screen (`Readers` and `Look`), the clock, the order in which
-- longTurns meets the keys of a Go map, and the table of printing characters of strconv.Quote. For
-- Markdown: what net/url says of a link (`Urls`) and the board's links of paths (`local`). Of the
-- watcher's alerts the line is kept and not the notification that it sends.
--
-- Not modelled: migrations, moving and importing a fleet (internal/state/move.go, fleet_import.go)
-- but for the replacing of paths in a text, SearchTasks, RebaseProjects and TrackRecord; of the
-- watcher its delivery of inputs, reconcile, held and the open decisions, which are spread over
-- calls of luvus; the titles that markdown.RenderRefs and RenderDoc put into references by a
-- regular expression; and the packages around the store (the rest of internal/cli, board, luvus,
-- update, the rest of harness and toon), which are mostly I/O. Stall.Delay doubles a duration of at
-- most 24 hours, far from the bounds of int64.

pub mod Base
pub mod State
pub mod Toon
pub mod Harness
pub mod Watch
pub mod Markdown
pub mod Samples
