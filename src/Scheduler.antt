-- ===== src/Scheduler.antt =====
-- lib/scheduler
pub mod WorkerEntry
pub mod Lifecycle
pub mod Simple
pub mod Workers
pub mod Registry
mod Tests
