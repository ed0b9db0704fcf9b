-- ===== src/Task.antt =====
-- kernel/src/task, kernel/src/sched: tasks, their states, their files, and the scheduler.
mod Tests
pub mod FileTable
pub mod Sched
pub mod Life
pub mod Stack
