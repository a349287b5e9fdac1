-- ===== src/Common.antt =====
-- The kernel's own containers, Kernel/Common.
pub mod CircularBuffer
pub mod PriorityQueue
pub mod Hashmap
pub mod Strings
