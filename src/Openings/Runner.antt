-- ===== src/Openings/Runner.antt =====
-- The engine that runs an opening, crates/openings/src/runner.rs.
pub mod Report
pub mod Env
pub mod Attempts
pub mod Schedule
pub mod Finish
pub mod Retries
pub mod Counters
pub mod Keyed
pub mod Start
pub mod Status
pub mod Follow
pub mod Sequence
pub mod Loop
pub mod Outcome
pub mod Correct
