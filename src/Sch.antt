-- ===== src/Sch.antt =====
-- src/mg/sch: the tasks and the scheduler that runs them.
pub mod Task
pub mod Scheduler
pub mod Places
