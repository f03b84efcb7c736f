-- ===== src/Core.antt =====
-- bot/crates/core: the types, the shared state and the gas arithmetic that every other part uses.
pub mod Types
pub mod State
pub mod Gas
pub mod Config
pub mod Environment
pub mod FromEnv
pub mod Loaded
pub mod Required
