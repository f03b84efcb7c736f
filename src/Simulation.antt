-- ===== src/Simulation.antt =====
-- bot/crates/simulation: pool mathematics, profit functions, sizing and the simulation gate.
pub mod Amm
pub mod Signs
pub mod Profit
pub mod Sizing
pub mod Termination
pub mod Bounds
pub mod EthCall
pub mod Gate
