-- ===== src/Tasks.antt =====
-- kernel/multitasking/task.c and pidTable.c.
pub mod State
pub mod Links
pub mod Queues
pub mod Sched
pub mod Pids
pub mod Sync
pub mod Life
mod Tests
