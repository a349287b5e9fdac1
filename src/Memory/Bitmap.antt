-- ===== src/Memory/Bitmap.antt =====
-- `PhysicalBitmap` of Kernel/Memory/MemoryManager.h: one bit for each block of physical memory, set
-- where the block is in use.
pub mod Byte
pub mod Bits
pub mod First
use xp_os.Prelude.{
  ℕ, zero, suc, ◌+◌, ◌-◌, ◌*◌, ◌/◌, ◌%◌, ◌^◌, ◌==◌, leb, not, Option, none, some, List, [], ◌∷◌,
  if◌then◌else◌, get_or, set, replicate,
}
use Prim.Native.Nat.{bit_and, bit_or}

pub record PhysicalBitmap : Type 0 where
  pub bitmap : List ℕ
  pub bitmap_size : ℕ

abbrev pub char_bit : ℕ
char_bit = 8

-- The array is in memory that the caller gives; all of it is overwritten.
unfoldable pub initialise : ℕ → PhysicalBitmap
initialise number_of_bits =
    let size = number_of_bits / char_bit + (if number_of_bits % char_bit == 0 then 0 else 1) in
    record { bitmap = replicate size 0xFF; bitmap_size = size }

-- The byte that has a bit. Past the end the code never looks.
abbrev pub byte_of : PhysicalBitmap → ℕ → ℕ
byte_of m bit = get_or m.bitmap (bit / char_bit) 0xFF

abbrev pub set_bit : PhysicalBitmap → ℕ → PhysicalBitmap
set_bit m bit = if leb (m.bitmap_size * char_bit) bit then m else record m {
  bitmap = set m.bitmap (bit / char_bit) (bit_or (byte_of m bit) (2 ^ (bit % char_bit)));
}

-- `~(1 << k)`, cut to a byte, is 255 - 2^k.
abbrev pub unset_bit : PhysicalBitmap → ℕ → PhysicalBitmap
unset_bit m bit = if leb (m.bitmap_size * char_bit) bit then m else record m {
  bitmap = set m.bitmap (bit / char_bit) (bit_and (byte_of m bit) (0xFF - 2 ^ (bit % char_bit)));
}

-- The inner loop of `first_unset`, from bit `j` on with `n` bits to go.
unfoldable pub clear_bit : ℕ → ℕ → ℕ → Option ℕ
clear_bit byte j zero = none
clear_bit byte j (suc n) =
    let rest = clear_bit byte (suc j) n in if bit_and byte (2 ^ j) == 0 then some j else rest

-- Its outer loop, from byte `i` on.
unfoldable pub first_clear : ℕ → List ℕ → ℕ
first_clear i [] = 0
first_clear i (byte ∷ bytes) =
    let rest = first_clear (suc i) bytes in
    if byte == 0xFF
    then rest
    else elim (clear_bit byte 0 char_bit) [ none ↦ rest | some j ↦ i * char_bit + j ]

unfoldable pub first_unset : PhysicalBitmap → ℕ
first_unset m = first_clear 0 m.bitmap
