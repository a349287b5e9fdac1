-- ===== src/Networking/Ipv4.antt =====
-- Kernel/Networking/IP/IPv4.cpp.
pub mod Checksum
pub mod Receive
