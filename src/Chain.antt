-- ===== src/Chain.antt =====
-- bot/crates/chain/src: the loops that keep the bot's state in step with the chain. Streams, channels
-- and queries are external; what they give is an argument.
pub mod Blocks
pub mod Pools
pub mod Fees
pub mod Synced
pub mod Providers
pub mod Waits
