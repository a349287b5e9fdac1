-- ===== src/Memory/Physical/Blocks.antt =====
-- Which blocks are in use after each operation.
use xp_os.Prelude.{
  ℕ, zero, suc, ◌+◌, ◌*◌, ◌/◌, ◌%◌, ◌<◌, ◌≡◌, ◌≢◌, refl, ap, ◌∙◌, Bool, true, false, not, ◌&&◌,
  ◌||◌, Option, none, some, arith, ◌==◌, leb, ltb, ne→==, ltb→le, ==→eq, ap₂, ◌⊎◌, Bool-cases, inl,
  inr,
}
use xp_os.Memory.Bitmap.{PhysicalBitmap, set_bit, unset_bit, first_unset}
use xp_os.Memory.Bitmap.Bits.{
  used, IsValid, used_past, set_bit-IsValid, unset_bit-IsValid, used-set_bit, used-unset_bit,
}
use xp_os.Memory.Bitmap.First.{all_used, first_free, first_unset_lem}
use xp_os.Memory.Physical.{
  unset_blocks, set_blocks, init_physical_region, blocks_of, deinit_physical_region,
  alloc_physical_block, free_physical_block,
}

-- The two outcomes of an allocation: no block is free, or the block given is the first free one, is
-- not block 0, and is now in use besides those that were.
pub data Allocated (m : PhysicalBitmap) : Option (ℕ × PhysicalBitmap) → Type 0 where
  out_of_memory : ((k : ℕ) → used m k ≡ true) → Allocated m none
  allocated :
      (frame : ℕ)
      → (frame == 0) ≡ false
      → used m frame ≡ false
      → ((l : ℕ) → l < frame → used m l ≡ true)
      → (after : PhysicalBitmap) → IsValid after
      → after.bitmap_size ≡ m.bitmap_size
      → ((i : ℕ) → used after i ≡ ((i == frame) || used m i))
      → Allocated m (some (frame * 0x1000, after))

set_bit-size : (m : PhysicalBitmap) (bit : ℕ) → (set_bit m bit).bitmap_size ≡ m.bitmap_size
set_bit-size m bit = elim (Bool-cases (leb (m.bitmap_size * 8) bit)) [
  | inl h ↦ rw h refl
  | inr h ↦ rw h refl
]

unset_bit-size : (m : PhysicalBitmap) (bit : ℕ) → (unset_bit m bit).bitmap_size ≡ m.bitmap_size
unset_bit-size m bit = elim (Bool-cases (leb (m.bitmap_size * 8) bit)) [
  | inl h ↦ rw h refl
  | inr h ↦ rw h refl
]

module _ (m : PhysicalBitmap) (valid : IsValid m) (first_used : used m 0 ≡ true) where
  not_first : (frame : ℕ) → used m frame ≡ false → (frame == 0) ≡ false
  not_first zero h = cc (h, first_used)
  not_first (suc f) h = ne→== (suc f) 0 (omega arith)

  -- An allocation gives the first free block and takes no other, and panics only where no block is
  -- free; block 0 must be in use.
  pub alloc_physical_block_lem : Allocated m (alloc_physical_block m)
  unfolding alloc_physical_block
  alloc_physical_block_lem = elim (first_unset_lem m) [
    | all_used z f ↦ rw z (out_of_memory f)
    | first_free h f ↦ rw (not_first (first_unset m) h) (
        allocated (first_unset m) (not_first (first_unset m) h) h f (set_bit m (first_unset m))
          (set_bit-IsValid m (first_unset m) valid) (set_bit-size m (first_unset m))
          (used-set_bit m (first_unset m) valid))
  ]

-- The bits after one allocation and the freeing of its block.
bits_restored :
    (i frame : ℕ) (valid old : Bool)
    → ((i == frame) ≡ true → old ≡ false)
    → ((i == frame) ≡ true → valid ≡ true)
    → (not ((i == frame) && valid) && ((i == frame) || old)) ≡ old
bits_restored i frame valid old h k = elim (Bool-cases (i == frame)) [
  | inl e ↦ rw (e, h e, k e) refl
  | inr e ↦ rw e refl
]

inside :
    (m : PhysicalBitmap) (i : ℕ) → IsValid m → used m i ≡ false → ltb i (m.bitmap_size * 8) ≡ true
inside m i v h = elim (Bool-cases (ltb i (m.bitmap_size * 8))) [
  | inl e ↦ e
  | inr e ↦ cc (h, used_past m i v (ltb→le i (m.bitmap_size * 8) e))
]

clear_none :
    (first i : ℕ) (b old : Bool) → old ≡ (not (leb first i && ltb i (first + 0) && b) && old)
clear_none first i b old = ground arith

clear_step :
    (first n i size : ℕ) (old : Bool)
    → (not (leb (suc first) i && ltb i (suc first + n) && ltb i size)
        && (not ((i == first) && ltb first size) && old))
      ≡ (not (leb first i && ltb i (first + suc n) && ltb i size) && old)
clear_step first n i size old = ground arith

used-unset_blocks :
    (n first : ℕ) (m : PhysicalBitmap) (i : ℕ)
    → IsValid m
    → used (unset_blocks first n m) i
      ≡ (not (leb first i && ltb i (first + n) && ltb i (m.bitmap_size * 8)) && used m i)
unfolding unset_blocks
used-unset_blocks zero first m i v = clear_none first i (ltb i (m.bitmap_size * 8)) (used m i)
used-unset_blocks (suc n) first m i v =
    used-unset_blocks n (suc first) (unset_bit m first) i (unset_bit-IsValid m first v)
    ∙ rw (unset_bit-size m first, used-unset_bit m first v i)
        (clear_step first n i (m.bitmap_size * 8) (used m i))

set_none : (first i : ℕ) (old : Bool) → old ≡ ((leb first i && ltb i (first + 0)) || old)
set_none first i old = ground arith

set_step :
    (first n i : ℕ) (old : Bool)
    → ((leb (suc first) i && ltb i (suc first + n)) || ((i == first) || old))
      ≡ ((leb first i && ltb i (first + suc n)) || old)
set_step first n i old = ground arith

used-set_blocks :
    (n first : ℕ) (m : PhysicalBitmap) (i : ℕ)
    → IsValid m
    → used (set_blocks first n m) i ≡ ((leb first i && ltb i (first + n)) || used m i)
unfolding set_blocks
used-set_blocks zero first m i v = set_none first i (used m i)
used-set_blocks (suc n) first m i v =
    used-set_blocks n (suc first) (set_bit m first) i (set_bit-IsValid m first v)
    ∙ rw (used-set_bit m first v i) (set_step first n i (used m i))

unset_blocks-IsValid :
    (n first : ℕ) (m : PhysicalBitmap) → IsValid m → IsValid (unset_blocks first n m)
unfolding unset_blocks
unset_blocks-IsValid zero first m v = v
unset_blocks-IsValid (suc n) first m v =
    unset_blocks-IsValid n (suc first) (unset_bit m first) (unset_bit-IsValid m first v)

frame_of : (frame : ℕ) → frame * 0x1000 / 0x1000 ≡ frame
frame_of frame = omega arith

freed_block :
    (m now : PhysicalBitmap) (frame i : ℕ)
    → IsValid m
    → used m frame ≡ false
    → IsValid now
    → now.bitmap_size ≡ m.bitmap_size
    → used now i ≡ ((i == frame) || used m i)
    → used (free_physical_block (frame * 0x1000) now) i ≡ used m i
unfolding free_physical_block
freed_block m now frame i valid free v sized u =
    rw (frame_of frame, used-unset_bit now frame v i, u, sized)
      (bits_restored i frame (ltb frame (m.bitmap_size * 8)) (used m i)
        (λ e. ap (used m) (==→eq i frame e) ∙ free) (λ e. inside m frame valid free))

blocks_end :
    (base size : ℕ)
    → (base % 0x1000 ≡ 0) ⊎ (size % 0x1000 ≢ 0)
    → base / 0x1000 + blocks_of base size ≡ (base + size + 0xFFF) / 0x1000
unfolding blocks_of
blocks_end base size (inl h) = ground arith
blocks_end base size (inr h) = ground arith

module _ (m : PhysicalBitmap) (valid : IsValid m) where
  -- Making a region available frees its blocks, if the map has them, and takes block 0.
  pub used-init_physical_region :
      (base size i : ℕ)
      → used (init_physical_region base size m) i ≡ (
          (i == 0)
          || (not (
                leb (base / 0x1000) i
                && ltb i (base / 0x1000 + size / 0x1000)
                && ltb i (m.bitmap_size * 8))
              && used m i))
  unfolding init_physical_region
  used-init_physical_region base size i =
      used-set_bit (unset_blocks (base / 0x1000) (size / 0x1000) m) 0
        (unset_blocks-IsValid (size / 0x1000) (base / 0x1000) m valid) i
      ∙ ap (λ b. (i == 0) || b) (used-unset_blocks (size / 0x1000) (base / 0x1000) m i valid)

  -- Reserving a region takes exactly the blocks that have a byte of it, besides those in use, where
  -- its base is the start of a block or its size is not a whole number of blocks.
  pub used-deinit_physical_region :
      (base size i : ℕ)
      → (base % 0x1000 ≡ 0) ⊎ (size % 0x1000 ≢ 0)
      → used (deinit_physical_region base size m) i
        ≡ ((leb (base / 0x1000) i && ltb i ((base + size + 0xFFF) / 0x1000)) || used m i)
  unfolding deinit_physical_region
  used-deinit_physical_region base size i h =
      used-set_blocks (blocks_of base size) (base / 0x1000) m i valid
      ∙ ap (λ n. (leb (base / 0x1000) i && ltb i n) || used m i) (blocks_end base size h)

  -- Freeing a block that was just allocated leaves in use what was in use before; block 0 must be.
  pub free_physical_block-alloc :
      (block : ℕ) (after : PhysicalBitmap)
      → used m 0 ≡ true
      → alloc_physical_block m ≡ some (block, after)
      → (i : ℕ) → used (free_physical_block block after) i ≡ used m i
  free_physical_block-alloc block after h e i =
      freed (alloc_physical_block m) (alloc_physical_block_lem m valid h) e
    where
      freed :
          (o : Option (ℕ × PhysicalBitmap))
          → Allocated m o
          → o ≡ some (block, after)
          → used (free_physical_block block after) i ≡ used m i
      freed _ (out_of_memory f) e = cc e
      freed _ (allocated frame ne free _ now v sized u) e =
          ap₂ (λ b w. used (free_physical_block b w) i) (cc e) (cc e)
          ∙ freed_block m now frame i valid free v sized (u i)
