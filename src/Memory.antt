-- ===== src/Memory.antt =====
-- Kernel/Memory/: copying bytes, physical blocks, page tables and the regions of address spaces.
pub mod Copy
pub mod Bitmap
pub mod Physical
pub mod Paging
pub mod Regions
