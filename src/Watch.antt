-- ===== src/Watch.antt =====
-- internal/cli/watch.go and watch_opencode.go: the watcher, which looks at the agents' panes, notes
-- what it sees in the log and alerts its user. What luvus answers, the clock and the reading of an
-- agent's screen (internal/harness) are arguments.
pub mod World
pub mod Rest
pub mod Observe
pub mod Notes
pub mod Announce
pub mod Blocked
pub mod Turns
pub mod Session
pub mod Stall
pub mod Stalling
pub mod StallScenarios
pub mod Scenarios
