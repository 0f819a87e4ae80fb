-- ===== src/Scheduler.antt =====
-- The task scheduler (python-back/app/modules/scheduler_center).
pub mod Cron
pub mod Payload
pub mod Store
pub mod Execution
pub mod Service
pub mod Runtime
pub mod Admin
