-- ===== src/Openings.antt =====
-- Openings, graphs of agents: crates/openings.
pub mod Json
pub mod Types
pub mod Strings
pub mod Yaml
pub mod Locate
pub mod Predicates
pub mod Graph
pub mod Parser
pub mod Runner
pub mod Replay
pub mod Example
mod Tests
