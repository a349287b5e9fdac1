-- ===== src/Memory/Physical.antt =====
-- The physical blocks of `Manager`, in Kernel/Memory/MemoryManager.cpp: reserving regions,
-- allocating a block and freeing it. Addresses are numbers below 2^64 in bytes.
pub mod Blocks
mod Tests
use xp_os.Prelude.{ℕ, zero, suc, ◌+◌, ◌*◌, ◌/◌, ◌%◌, ◌==◌, ltb, Option, none, some, if◌then◌else◌}
use xp_os.Memory.Bitmap.{PhysicalBitmap, set_bit, unset_bit, first_unset}

abbrev pub physical_block_size : ℕ
physical_block_size = 0x1000

-- The two loops over the blocks of a region.
unfoldable pub unset_blocks : ℕ → ℕ → PhysicalBitmap → PhysicalBitmap
unset_blocks first zero m = m
unset_blocks first (suc n) m = unset_blocks (suc first) n (unset_bit m first)

unfoldable pub set_blocks : ℕ → ℕ → PhysicalBitmap → PhysicalBitmap
set_blocks first zero m = m
set_blocks first (suc n) m = set_blocks (suc first) n (set_bit m first)

unfoldable pub init_physical_region : ℕ → ℕ → PhysicalBitmap → PhysicalBitmap
init_physical_region base size m =
    set_bit (unset_blocks (base / physical_block_size) (size / physical_block_size) m) 0

-- How many blocks `deinit_physical_region` takes.
unfoldable pub blocks_of : ℕ → ℕ → ℕ
blocks_of base size =
    size / physical_block_size
    + (if size % physical_block_size == 0 then 0 else 1)
    + (if ltb physical_block_size (size % physical_block_size + base % physical_block_size)
        then 1
        else 0)

unfoldable pub deinit_physical_region : ℕ → ℕ → PhysicalBitmap → PhysicalBitmap
deinit_physical_region base size m = set_blocks (base / physical_block_size) (blocks_of base size) m

-- `none` is the panic.
unfoldable pub alloc_physical_block : PhysicalBitmap → Option (ℕ × PhysicalBitmap)
alloc_physical_block m =
    let frame = first_unset m in
    if frame == 0 then none else some (frame * physical_block_size, set_bit m frame)

unfoldable pub free_physical_block : ℕ → PhysicalBitmap → PhysicalBitmap
free_physical_block block m = unset_bit m (block / physical_block_size)
