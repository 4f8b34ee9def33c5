-- ===== src/State.antt =====
-- Package state (internal/state): the database of one fleet and the operations on it.
pub mod Schema
pub mod Transactions
pub mod Refs
pub mod Statuses
pub mod Events
pub mod Tasks
pub mod Screens
pub mod Attempts
pub mod Launches
pub mod Decisions
pub mod Reports
pub mod Clock
pub mod Timers
pub mod Supervisors
pub mod Inputs
pub mod Projects
pub mod Devices
pub mod Calls
pub mod Consistency
pub mod Finished
pub mod History
pub mod Scenarios
pub mod Launching
pub mod Trust
pub mod Names
pub mod Revisions
pub mod Waking
pub mod Bounds
pub mod Firing
pub mod Fired
pub mod Endings
pub mod Transition
pub mod Moving
pub mod Log
pub mod Queries
pub mod Unwatched
pub mod Homes
pub mod Replacing
pub mod HomeScenarios
