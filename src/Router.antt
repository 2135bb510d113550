-- ===== src/Router.antt =====
-- The router, which sends a prompt to the shell or to an agent: crates/router.
pub mod Builtins
pub mod Casefold
pub mod Tokens
pub mod Classifier
pub mod Routes
mod Tests
