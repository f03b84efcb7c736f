-- ===== src/Examples.antt =====
-- Worked examples, on the concrete numbers of Float/Grid.antt.
pub mod Data
mod Wallets
mod Sizes
mod Strategies
mod Phases
mod Routes
mod Services
mod Program
mod Start
mod Counters
