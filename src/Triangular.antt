-- ===== src/Triangular.antt =====
-- bot/crates/strategies/triangular: strategy S3.
pub mod Graph
pub mod Search
pub mod Chains
pub mod Sound
pub mod Complete
pub mod BellmanFord
pub mod Keys
pub mod Found
pub mod Reference
pub mod Executor
pub mod Justified
pub mod Best
pub mod Evaluate
pub mod Sized
pub mod Whole
