-- ===== src/Memory/Bitmap/Byte.antt =====
-- The bits of a byte, and what setting and clearing one does to it: every case, by evaluation.
use xp_os.Prelude.{
  ℕ, zero, suc, ◌-◌, ◌^◌, ◌<◌, ◌≡◌, refl, sym, Bool, true, false, not, ◌&&◌, ◌||◌, arith, ◌==◌, leb,
}
use Prim.Native.Nat.{bit_and, bit_or}

-- Every value below a bound, checked by evaluation.
holds_below : ℕ → (ℕ → Bool) → Bool
holds_below zero p = true
holds_below (suc n) p = holds_below n p && p n

holds_below_lem : (n : ℕ) (p : ℕ → Bool) (x : ℕ) → holds_below n p ≡ true → x < n → p x ≡ true
unfolding holds_below
holds_below_lem zero p x h lt = absurd (omega arith)
holds_below_lem (suc n) p x h lt = ground (arith, holds_below_lem n p x)

same : Bool → Bool → Bool
same true b = b
same false b = not b

same→eq : (a b : Bool) → same a b ≡ true → a ≡ b
unfolding same
same→eq true b h = sym h
same→eq false true h = h
same→eq false false h = refl

abbrev pub has_bit : ℕ → ℕ → Bool
has_bit byte j = not (bit_and byte (2 ^ j) == 0)

or_row : ℕ → ℕ → ℕ → Bool
or_row j k b = same (has_bit (bit_or b (2 ^ j)) k) ((k == j) || has_bit b k)

or_table : holds_below 8 (λ j. holds_below 8 (λ k. holds_below 256 (or_row j k))) ≡ true
unfolding holds_below or_row same
or_table = refl

and_row : ℕ → ℕ → ℕ → Bool
and_row j k b = same (has_bit (bit_and b (0xFF - 2 ^ j)) k) (not (k == j) && has_bit b k)

and_table : holds_below 8 (λ j. holds_below 8 (λ k. holds_below 256 (and_row j k))) ≡ true
unfolding holds_below and_row same
and_table = refl

full_table : holds_below 8 (has_bit 0xFF) ≡ true
unfolding holds_below
full_table = refl

or_small : holds_below 8 (λ j. holds_below 256 (λ b. leb (bit_or b (2 ^ j)) 0xFF)) ≡ true
unfolding holds_below
or_small = refl

and_small : holds_below 8 (λ j. holds_below 256 (λ b. leb (bit_and b (0xFF - 2 ^ j)) 0xFF)) ≡ true
unfolding holds_below
and_small = refl

pub has_bit-or :
    (b j k : ℕ) → b < 256 → j < 8 → k < 8 → has_bit (bit_or b (2 ^ j)) k ≡ ((k == j) || has_bit b k)
unfolding or_row
has_bit-or b j k hb hj hk = same→eq (has_bit (bit_or b (2 ^ j)) k) ((k == j) || has_bit b k) (
    holds_below_lem 256 (or_row j k) b
      (holds_below_lem 8 (λ k. holds_below 256 (or_row j k)) k
        (holds_below_lem 8 (λ j. holds_below 8 (λ k. holds_below 256 (or_row j k))) j or_table hj)
        hk)
      hb)

pub has_bit-and :
    (b j k : ℕ)
    → b < 256
    → j < 8
    → k < 8
    → has_bit (bit_and b (0xFF - 2 ^ j)) k ≡ (not (k == j) && has_bit b k)
unfolding and_row
has_bit-and b j k hb hj hk =
    same→eq (has_bit (bit_and b (0xFF - 2 ^ j)) k) (not (k == j) && has_bit b k) (
      holds_below_lem 256 (and_row j k) b
        (holds_below_lem 8 (λ k. holds_below 256 (and_row j k)) k
          (holds_below_lem 8 (λ j. holds_below 8 (λ k. holds_below 256 (and_row j k))) j and_table
            hj)
          hk)
        hb)

leb→lt : (a : ℕ) → leb a 0xFF ≡ true → a < 256
leb→lt a h = ground arith

pub or_byte : (b j : ℕ) → b < 256 → j < 8 → bit_or b (2 ^ j) < 256
or_byte b j hb hj = leb→lt (bit_or b (2 ^ j)) (
    holds_below_lem 256 (λ b. leb (bit_or b (2 ^ j)) 0xFF) b
      (holds_below_lem 8 (λ j. holds_below 256 (λ b. leb (bit_or b (2 ^ j)) 0xFF)) j or_small hj)
      hb)

pub and_byte : (b j : ℕ) → b < 256 → j < 8 → bit_and b (0xFF - 2 ^ j) < 256
and_byte b j hb hj = leb→lt (bit_and b (0xFF - 2 ^ j)) (
    holds_below_lem 256 (λ b. leb (bit_and b (0xFF - 2 ^ j)) 0xFF) b
      (holds_below_lem 8 (λ j. holds_below 256 (λ b. leb (bit_and b (0xFF - 2 ^ j)) 0xFF)) j
        and_small hj)
      hb)

pub full_byte : (k : ℕ) → k < 8 → has_bit 0xFF k ≡ true
full_byte k h = holds_below_lem 8 (has_bit 0xFF) k full_table h
