-- ===== src/Ipc.antt =====
-- Userspace/Libraries/: what programs use to send messages to each other.
pub mod Archive
