-- ===== src/Drivers.antt =====
-- Kernel/Drivers/.
pub mod Keyboard
