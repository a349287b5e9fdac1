-- ===== src/Filesystem.antt =====
-- Kernel/Filesystem/ and the archive that the kernel starts from.
pub mod Path
pub mod Tar
pub mod Nodes
