-- ===== src/Memory/Physical/Tests.antt =====
-- A map of sixteen blocks, of which the first and the last eight are in use.
use xp_os.Prelude.{◌+◌, ◌/◌, ◌≡◌, refl, true, [], ◌∷◌, ◌&&◌, ◌||◌, leb, ltb, arith, inl}
use xp_os.Memory.Bitmap.{PhysicalBitmap, first_unset, first_clear, clear_bit}
use xp_os.Memory.Bitmap.Bits.{used, IsValid}
use xp_os.Memory.Physical.{deinit_physical_region, alloc_physical_block, free_physical_block}
use xp_os.Memory.Physical.Blocks.{
  Allocated, alloc_physical_block_lem, used-deinit_physical_region, free_physical_block-alloc,
}

abbrev blocks : PhysicalBitmap
blocks = record { bitmap = 0x07 ∷ 0xFF ∷ []; bitmap_size = 2 }

blocks-IsValid : IsValid blocks
blocks-IsValid = record { sized = refl; bytes = (omega arith, (omega arith, tt)) }

first_used : used blocks 0 ≡ true
unfolding used
first_used = refl

alloc_physical_block_lem_example : Allocated blocks (alloc_physical_block blocks)
alloc_physical_block_lem_example = alloc_physical_block_lem blocks blocks-IsValid first_used

used-deinit_physical_region_example :
    used (deinit_physical_region 0x3000 0x1800 blocks) 4
    ≡ ((leb (0x3000 / 0x1000) 4 && ltb 4 ((0x3000 + 0x1800 + 0xFFF) / 0x1000)) || used blocks 4)
used-deinit_physical_region_example =
    used-deinit_physical_region blocks blocks-IsValid 0x3000 0x1800 4 (inl refl)

abbrev with_third : PhysicalBitmap
with_third = record { bitmap = 0x0F ∷ 0xFF ∷ []; bitmap_size = 2 }

free_physical_block-alloc_example : used (free_physical_block 0x3000 with_third) 3 ≡ used blocks 3
unfolding alloc_physical_block first_unset first_clear clear_bit
free_physical_block-alloc_example =
    free_physical_block-alloc blocks blocks-IsValid 0x3000 with_third first_used refl 3
