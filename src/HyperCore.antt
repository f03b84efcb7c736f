-- ===== src/HyperCore.antt =====
-- bot/crates/hypercore: the L1Read precompile, the CoreWriter orders and the order book.
pub mod Precompile
pub mod CoreWriter
pub mod Book
pub mod Latest
