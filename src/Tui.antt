-- ===== src/Tui.antt =====
-- tui/state.rs: what the terminal interface keeps of a run, and how events and keys change it.
-- `ExecutorEvent` and the texts about it are of executor/result.rs (module Events). `Instant::now()` is an
-- argument, a number.
pub mod Logs
pub mod Nodes
pub mod Updates
pub mod Keys
pub mod Scroll
pub mod Cursor
pub mod Counts
pub mod Finishing
pub mod Start
pub mod Totals
mod Examples
