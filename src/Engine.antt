-- ===== src/Engine.antt =====
-- internal/engine.
pub mod FailSafe
pub mod Router
pub mod Registry
pub mod Catch
pub mod State
pub mod CallActivity
pub mod Send
pub mod Jobs
pub mod Handle
pub mod Execute
pub mod Loop
pub mod Resume
