-- ===== src/Sched.antt =====
-- The scheduler: kernel/sched with the tables of include/sched/sched.h.
pub mod Task
pub mod InitTask
pub mod Schedule
pub mod Fork
pub mod Samples
