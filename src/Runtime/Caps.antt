-- ===== src/Runtime/Caps.antt =====
-- crates/runtime/src/caps.rs: the capabilities of an agent.
pub mod CapabilitySet
pub mod Fs
pub mod Net
pub mod Effective
pub mod Parse
pub mod Attenuation
