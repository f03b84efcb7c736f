-- ===== src/Scanner.antt =====
-- bot/crates/scanner: the signal detectors and the layers of the opportunity pipeline.
pub mod Signals
pub mod Pipeline
