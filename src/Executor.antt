-- ===== src/Executor.antt =====
-- bot/crates/executor: the wallet pool and the submission of transactions.
pub mod WalletPool
pub mod Selection
pub mod Leak
pub mod Nonces
