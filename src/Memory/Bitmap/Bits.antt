-- ===== src/Memory/Bitmap/Bits.antt =====
-- The bits of a bitmap, and what setting and clearing one does to them.
use xp_os.Prelude.{
  ℕ, zero, suc, ◌+◌, ◌-◌, ◌*◌, ◌/◌, ◌%◌, ◌^◌, ◌≤◌, ◌<◌, ◌≡◌, refl, ap, ◌∙◌, Bool, true, false, not,
  ◌&&◌, ◌||◌, List, [], ◌∷◌, arith, ◌==◌, leb, if◌then◌else◌, length, get_or, set, get_or-set_self,
  get_or-set_ne, length-set, length-replicate, replicate, Bool-cases, inl, inr, ltb,
}
use xp_os.Prelude.All.{All}
use xp_os.Memory.Bitmap.{PhysicalBitmap, char_bit, initialise, byte_of, set_bit, unset_bit}
use Prim.Native.Nat.{bit_and, bit_or}
use xp_os.Memory.Bitmap.Byte.{has_bit, has_bit-or, has_bit-and, or_byte, and_byte, full_byte}

abbrev IsByte : ℕ → Type 0
IsByte b = b < 256

pub record IsValid (m : PhysicalBitmap) : Type 0 where
  pub sized : length m.bitmap ≡ m.bitmap_size
  pub bytes : All IsByte m.bitmap

get_or-IsByte : (xs : List ℕ) (i : ℕ) → All IsByte xs → get_or xs i 0xFF < 256
get_or-IsByte [] i h = omega arith
get_or-IsByte (x ∷ xs) zero h = h.0
get_or-IsByte (x ∷ xs) (suc i) h = get_or-IsByte xs i h.1

set-IsByte : (xs : List ℕ) (i v : ℕ) → All IsByte xs → v < 256 → All IsByte (set xs i v)
set-IsByte [] i v h k = tt
set-IsByte (x ∷ xs) zero v h k = (k, h.1)
set-IsByte (x ∷ xs) (suc i) v h k = (h.0, set-IsByte xs i v h.1 k)

-- Whether a block is in use; the bits past the end count as used, since nothing frees them.
unfoldable pub used : PhysicalBitmap → ℕ → Bool
used m bit = has_bit (byte_of m bit) (bit % char_bit)

get_or_past : (xs : List ℕ) (i d : ℕ) → length xs ≤ i → get_or xs i d ≡ d
get_or_past [] i d h = refl
get_or_past (x ∷ xs) zero d h = absurd (omega arith)
get_or_past (x ∷ xs) (suc i) d h = get_or_past xs i d (omega arith)

pub used_past : (m : PhysicalBitmap) (i : ℕ) → IsValid m → m.bitmap_size * 8 ≤ i → used m i ≡ true
unfolding used
used_past m i v h =
    ap (λ b. has_bit b (i % 8)) (get_or_past m.bitmap (i / 8) 0xFF (omega (arith, v.sized)))
    ∙ full_byte (i % 8) (omega arith)

byte_of_set :
    (xs : List ℕ) (i bit v : ℕ)
    → bit / 8 < length xs
    → get_or (set xs (bit / 8) v) (i / 8) 0xFF
      ≡ (if i / 8 == bit / 8 then v else get_or xs (i / 8) 0xFF)
byte_of_set xs i bit v h =
    ground (arith, get_or-set_self xs (bit / 8) v 0xFF, get_or-set_ne xs (bit / 8) (i / 8) v 0xFF)

-- One bit of a list of bytes of which one is replaced.
bit_of_set :
    (xs : List ℕ) (i bit v : ℕ) (now : Bool)
    → bit / 8 < length xs
    → has_bit v (i % 8) ≡ now
    → has_bit (get_or (set xs (bit / 8) v) (i / 8) 0xFF) (i % 8)
      ≡ (if i / 8 == bit / 8 then now else has_bit (get_or xs (i / 8) 0xFF) (i % 8))
bit_of_set xs i bit v now h e =
    ap (λ b. has_bit b (i % 8)) (byte_of_set xs i bit v h)
    ∙ elim (Bool-cases (i / 8 == bit / 8)) [ inl k ↦ rw k e | inr k ↦ rw k refl ]

same_byte : (i bit : ℕ) → (i / 8 == bit / 8) ≡ true → (i == bit) ≡ (i % 8 == bit % 8)
same_byte i bit h = ground arith

other_byte : (i bit : ℕ) → (i / 8 == bit / 8) ≡ false → (i == bit) ≡ false
other_byte i bit h = ground arith

same_eq : (i bit : ℕ) → (i / 8 == bit / 8) ≡ true → i / 8 ≡ bit / 8
same_eq i bit h = ground arith

or_absorb : (a b : Bool) → (a ≡ true → b ≡ true) → b ≡ (a || b)
or_absorb true b h = h refl
or_absorb false b h = refl

and_false : (a b : Bool) → b ≡ (not (a && false) && b)
and_false true b = refl
and_false false b = refl

and_true : (a b : Bool) → (not a && b) ≡ (not (a && true) && b)
and_true true b = refl
and_true false b = refl

not_ltb : (a n : ℕ) → leb n a ≡ true → ltb a n ≡ false
not_ltb a n h = ground arith

is_ltb : (a n : ℕ) → leb n a ≡ false → ltb a n ≡ true
is_ltb a n h = ground arith

replicate-IsByte : (n : ℕ) → All IsByte (replicate n 0xFF)
replicate-IsByte zero = tt
replicate-IsByte (suc n) = (omega arith, replicate-IsByte n)

-- A new map has every block in use.
pub initialise-IsValid : (n : ℕ) → IsValid (initialise n)
unfolding initialise
initialise-IsValid n = record {
  sized = length-replicate (n / 8 + (if n % 8 == 0 then 0 else 1)) 0xFF;
  bytes = replicate-IsByte (n / 8 + (if n % 8 == 0 then 0 else 1));
}

module _ (m : PhysicalBitmap) (bit : ℕ) (valid : IsValid m) where
  pub set_bit-IsValid : IsValid (set_bit m bit)
  set_bit-IsValid = elim (Bool-cases (leb (m.bitmap_size * 8) bit)) [
    | inl h ↦ rw h valid
    | inr h ↦ rw h record {
      sized = length-set m.bitmap (bit / 8) (bit_or (byte_of m bit) (2 ^ (bit % 8))) ∙ valid.sized;
      bytes = set-IsByte m.bitmap (bit / 8) (bit_or (byte_of m bit) (2 ^ (bit % 8))) valid.bytes (
          or_byte (byte_of m bit) (bit % 8) (get_or-IsByte m.bitmap (bit / 8) valid.bytes)
            (omega arith));
    }
  ]

  pub unset_bit-IsValid : IsValid (unset_bit m bit)
  unset_bit-IsValid = elim (Bool-cases (leb (m.bitmap_size * 8) bit)) [
    | inl h ↦ rw h valid
    | inr h ↦ rw h record {
      sized =
          length-set m.bitmap (bit / 8) (bit_and (byte_of m bit) (0xFF - 2 ^ (bit % 8)))
          ∙ valid.sized;
      bytes =
          set-IsByte m.bitmap (bit / 8) (bit_and (byte_of m bit) (0xFF - 2 ^ (bit % 8))) valid.bytes
            (and_byte (byte_of m bit) (bit % 8) (get_or-IsByte m.bitmap (bit / 8) valid.bytes)
              (omega arith));
    }
  ]

  abbrev old_bit : ℕ → Bool
  old_bit i = has_bit (byte_of m bit) (i % 8)

  old-IsByte : IsByte (byte_of m bit)
  old-IsByte = get_or-IsByte m.bitmap (bit / 8) valid.bytes

  inside : leb (m.bitmap_size * 8) bit ≡ false → bit / 8 < length m.bitmap
  inside h = let e = valid.sized in ground arith

  past : leb (m.bitmap_size * 8) bit ≡ true → (i : ℕ) → (i == bit) ≡ true → used m i ≡ true
  past h i e = used_past m i valid (ground arith)

  -- Setting a bit makes its block used, and changes no other.
  pub used-set_bit : (i : ℕ) → used (set_bit m bit) i ≡ ((i == bit) || used m i)
  unfolding used
  used-set_bit i = elim (Bool-cases (leb (m.bitmap_size * 8) bit)) [
    | inl h ↦ rw h (or_absorb (i == bit) (used m i) (past h i))
    | inr h ↦ rw h (
        bit_of_set m.bitmap i bit (bit_or (byte_of m bit) (2 ^ (bit % 8)))
          ((i % 8 == bit % 8) || old_bit i) (inside h)
          (has_bit-or (byte_of m bit) (bit % 8) (i % 8) old-IsByte (omega arith) (omega arith))
        ∙ elim (Bool-cases (i / 8 == bit / 8)) [
          | inl e ↦ rw (e, same_byte i bit e, same_eq i bit e) refl
          | inr e ↦ rw (e, other_byte i bit e) refl
        ])
  ]

  -- Clearing a bit makes its block free, if the map has it, and changes no other.
  pub used-unset_bit :
      (i : ℕ)
      → used (unset_bit m bit) i ≡ (not ((i == bit) && ltb bit (m.bitmap_size * 8)) && used m i)
  unfolding used
  used-unset_bit i = elim (Bool-cases (leb (m.bitmap_size * 8) bit)) [
    | inl h ↦ rw (h, not_ltb bit (m.bitmap_size * 8) h) (and_false (i == bit) (used m i))
    | inr h ↦
        rw (h, is_ltb bit (m.bitmap_size * 8) h)
          (bit_of_set m.bitmap i bit (bit_and (byte_of m bit) (0xFF - 2 ^ (bit % 8)))
              (not (i % 8 == bit % 8) && old_bit i) (inside h)
              (has_bit-and (byte_of m bit) (bit % 8) (i % 8) old-IsByte (omega arith) (omega arith))
            ∙ elim (Bool-cases (i / 8 == bit / 8)) [
              | inl e ↦
                  rw (e, same_byte i bit e, same_eq i bit e)
                    (and_true (i % 8 == bit % 8) (old_bit i))
              | inr e ↦ rw (e, other_byte i bit e) refl
            ])
  ]
