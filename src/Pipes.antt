-- ===== src/Pipes.antt =====
-- Kernel/Pipes/.
pub mod LocalSocket
