-- ===== src/Runner.antt =====
-- executor/node_runner.rs: one host's run of a plan. What the runner asks of the host, the
-- secrets, the modules and the other hosts is an interface, `Runner.Interface.Env`.
pub mod Values
pub mod Reports
pub mod Interface
pub mod State
pub mod Params
pub mod Tasks
pub mod Gates
pub mod Steps
pub mod Host
pub mod Coordinator
pub mod Accounts
pub mod Summary
pub mod Failures
mod Samples
mod Examples
