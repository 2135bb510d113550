-- ===== src/Bus.antt =====
-- crates/bus: the in-process message bus.
pub mod Lru
pub mod Dedupe
pub mod Message
pub mod Metrics
pub mod Env
pub mod Server
pub mod Publish
mod Tests
