-- ===== src/Liquidation.antt =====
-- bot/crates/strategies/liquidation: strategy S2.
pub mod Monitor
pub mod Positions
pub mod Sizing
pub mod Repay
pub mod Executor
pub mod Justified
