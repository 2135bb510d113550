-- ===== src/Core.antt =====
-- crates/core: the content types that the other crates share.
pub mod Content
pub mod Types
mod Tests
