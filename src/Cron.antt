-- ===== src/Cron.antt =====
-- The package packages/cron: its store, its queues and its planners.
pub mod Store
pub mod Semaphore
pub mod TokenBucket
pub mod Every
pub mod At
pub mod Days
pub mod CronPlan
pub mod Calendars
pub mod Expression
pub mod Scheduler
