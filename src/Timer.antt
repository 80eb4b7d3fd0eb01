-- ===== src/Timer.antt =====
-- internal/element/events/timer.go: when a timer fires next.
pub mod Numbers
pub mod Duration
pub mod Field
pub mod Cron
pub mod Schedule
