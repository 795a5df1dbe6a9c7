-- ===== src/Scheduler.antt =====
-- dependency_scheduler.go
pub mod Cycles
pub mod Refs
pub mod Build
pub mod Waves
mod Tests
