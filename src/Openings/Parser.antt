-- ===== src/Openings/Parser.antt =====
-- The parser of openings, crates/openings/src/parser.rs.
pub mod Terms
pub mod Templates
pub mod Hints
pub mod Fields
pub mod Nodes
pub mod Guards
pub mod Accepted
pub mod Substituted
pub mod Document
