-- ===== src/Process.antt =====
-- internal/process/state.go.
pub mod State
pub mod Sanitize
pub mod Instance
pub mod Lifecycle
