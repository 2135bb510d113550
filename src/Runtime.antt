-- ===== src/Runtime.antt =====
-- The agent runtime, crates/runtime.
pub mod Text
pub mod Error
pub mod FsPath
pub mod Toml
pub mod Set
pub mod Caps
pub mod Audit
pub mod Hosts
pub mod Hostcalls
pub mod Mailbox
mod Tests
pub mod Ready
mod HostTests
