-- ===== src/Scheduler.antt =====
-- pico-scheduler/scheduler.c.
pub mod Queue
pub mod State
pub mod Service
pub mod Wake
pub mod Switch
pub mod Api
pub mod Invariant
mod Examples
mod Tests
