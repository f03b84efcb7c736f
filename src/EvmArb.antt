-- ===== src/EvmArb.antt =====
-- bot/crates/strategies/evm_arb: the phases of strategy S1 and its executor.
pub mod Phase
pub mod Window
pub mod Sending
pub mod Executor
pub mod Machine
pub mod Leak
