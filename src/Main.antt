-- ===== src/Main.antt =====
-- bot/src/main.rs: the tasks that a block spawns, the evaluation loop, and the program as a whole.
pub mod Keeps
pub mod Executors
pub mod Ticks
pub mod Tasks
pub mod Program
pub mod Background
pub mod Safety
pub mod Guarantees
pub mod Wiring
pub mod Idle
pub mod Startup
pub mod Start
pub mod Ready
pub mod Begun
pub mod Lines
