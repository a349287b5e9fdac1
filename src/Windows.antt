-- ===== src/Windows.antt =====
-- The window server, Userspace/System/WindowServer.
pub mod Geometry
pub mod Clip
