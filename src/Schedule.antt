-- ===== src/Schedule.antt =====
-- internal/schedule: jobs that run at the times of a cron expression.
pub mod History
pub mod Job
pub mod Scheduler
