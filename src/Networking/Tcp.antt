-- ===== src/Networking/Tcp.antt =====
-- Kernel/Networking/TCP.
pub mod Header
pub mod Socket
pub mod Receive
pub mod Demux
