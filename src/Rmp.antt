-- ===== src/Rmp.antt =====
-- crates/rmp: the message protocol, its header, frames and envelopes.
pub mod Error
pub mod Buf
pub mod Header
pub mod Meta
pub mod Frame
pub mod Envelope
mod Tests
