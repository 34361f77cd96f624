-- ===== src/Scheduler.antt =====
-- src/scheduler.rs and src/scheduler/*.rs
pub mod Stats
pub mod Interface
pub mod Mean
