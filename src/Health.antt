-- ===== src/Health.antt =====
-- src/health: the health scheduler.
pub mod Scheduler
