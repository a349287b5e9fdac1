-- ===== src/Tasks.antt =====
-- Kernel/Tasks: the schedulers, the task manager, and the locks and queues that tasks sleep on.
pub mod State
pub mod Spinlock
pub mod VariableFrequencyBuffer
pub mod Scheduler
pub mod Manager
pub mod Mutex
pub mod WaitQueue
