-- ===== src/Networking.antt =====
-- Kernel/Networking and the byte order of Kernel/API/Endian.h.
pub mod Endian
pub mod Tcp
pub mod Ipv4
