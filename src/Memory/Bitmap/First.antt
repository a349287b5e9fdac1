-- ===== src/Memory/Bitmap/First.antt =====
-- What `first_unset` finds: the first clear bit, or 0 where there is none.
use xp_os.Prelude.{
  ℕ, zero, suc, ◌+◌, ◌-◌, ◌*◌, ◌/◌, ◌%◌, ◌^◌, ◌≤◌, ◌<◌, ◌≡◌, refl, ap, ◌∙◌, Bool, true, false, not,
  List, [], ◌∷◌, arith, ◌==◌, leb, get_or, Option, none, some, Bool-cases, inl, inr,
}
use xp_os.Memory.Bitmap.{PhysicalBitmap, char_bit, clear_bit, first_clear, first_unset}
use xp_os.Memory.Bitmap.Byte.{has_bit, full_byte}
use xp_os.Memory.Bitmap.Bits.{used}
use Prim.Native.Nat.{bit_and}

-- The outcome of a search of a byte from bit `j` on.
data InByte (b : ℕ) (j : ℕ) : Option ℕ → Type 0 where
  all_set : ((k : ℕ) → j ≤ k → k < 8 → has_bit b k ≡ true) → InByte b j none
  clear_at :
      (r : ℕ)
      → r < 8
      → has_bit b r ≡ false
      → ((k : ℕ) → j ≤ k → k < r → has_bit b k ≡ true)
      → InByte b j (some r)

has_bit-of : (b j : ℕ) (t : Bool) → (bit_and b (2 ^ j) == 0) ≡ t → has_bit b j ≡ not t
has_bit-of b j t h = ap not h

-- The step from bit `j + 1` to bit `j`, which is set.
widen :
    (b j r : ℕ)
    → has_bit b j ≡ true
    → ((k : ℕ) → suc j ≤ k → k < r → has_bit b k ≡ true)
    → (k : ℕ) → j ≤ k
    → k < r
    → has_bit b k ≡ true
widen b j r e f k p q = elim (Bool-cases (k == j)) [
  | inl h ↦ ap (has_bit b) (omega_eq k j h) ∙ e
  | inr h ↦ f k (ground arith) q
]
  where
    omega_eq : (k j : ℕ) → (k == j) ≡ true → k ≡ j
    omega_eq k j h = ground arith

widen-InByte : (b j : ℕ) (o : Option ℕ) → has_bit b j ≡ true → InByte b (suc j) o → InByte b j o
widen-InByte b j _ e (all_set f) = all_set (λ k p q. widen b j 8 e f k p q)
widen-InByte b j _ e (clear_at r lt c f) = clear_at r lt c (widen b j r e f)

clear_bit-InByte : (b j n : ℕ) → j + n ≡ 8 → InByte b j (clear_bit b j n)
unfolding clear_bit
clear_bit-InByte b j zero h = all_set (λ k p q. absurd (omega arith))
clear_bit-InByte b j (suc n) h = elim (Bool-cases (bit_and b (2 ^ j) == 0)) [
  | inl e ↦ rw e (clear_at j (omega arith) (has_bit-of b j true e) (λ k p q. absurd (omega arith)))
  | inr e ↦ rw e (
      widen-InByte b j (clear_bit b (suc j) n) (has_bit-of b j false e)
        (clear_bit-InByte b (suc j) n (omega arith)))
]

abbrev bit : List ℕ → ℕ → Bool
bit xs k = has_bit (get_or xs (k / 8) 0xFF) (k % 8)

-- The outcome of a search of all bytes, of which the first has number `i`.
data InBytes (xs : List ℕ) (i : ℕ) (r : ℕ) : Type 0 where
  full : r ≡ 0 → ((k : ℕ) → bit xs k ≡ true) → InBytes xs i r
  found :
      (k : ℕ)
      → r ≡ i * 8 + k
      → bit xs k ≡ false
      → ((l : ℕ) → l < k → bit xs l ≡ true)
      → InBytes xs i r

bit_low : (b : ℕ) (bs : List ℕ) (k : ℕ) → k < 8 → bit (b ∷ bs) k ≡ has_bit b k
bit_low b bs k h = rw (div_small k h, mod_small k h) refl
  where
    div_small : (k : ℕ) → k < 8 → k / 8 ≡ 0
    div_small k h = omega arith

    mod_small : (k : ℕ) → k < 8 → k % 8 ≡ k
    mod_small k h = omega arith

bit_high : (b : ℕ) (bs : List ℕ) (k : ℕ) → bit (b ∷ bs) (k + 8) ≡ bit bs k
bit_high b bs k = rw (div_next k, mod_next k) refl
  where
    div_next : (k : ℕ) → (k + 8) / 8 ≡ suc (k / 8)
    div_next k = omega arith

    mod_next : (k : ℕ) → (k + 8) % 8 ≡ k % 8
    mod_next k = omega arith

-- The bits of a list with a byte before it that is full.
past_byte :
    (b : ℕ) (bs : List ℕ) (n : ℕ)
    → ((k : ℕ) → k < 8 → has_bit b k ≡ true)
    → ((k : ℕ) → k < n → bit bs k ≡ true)
    → (k : ℕ) → k < n + 8
    → bit (b ∷ bs) k ≡ true
past_byte b bs n low high k lt = elim (Bool-cases (leb 8 k)) [
  | inl h ↦ ap (bit (b ∷ bs)) (back k h) ∙ bit_high b bs (k - 8) ∙ high (k - 8) (ground arith)
  | inr h ↦ bit_low b bs k (ground arith) ∙ low k (ground arith)
]
  where
    back : (k : ℕ) → leb 8 k ≡ true → k ≡ k - 8 + 8
    back k h = ground arith

-- The search goes on behind a byte that is full.
go_on :
    (b : ℕ) (bs : List ℕ) (i : ℕ)
    → ((k : ℕ) → k < 8 → has_bit b k ≡ true)
    → (r : ℕ) → InBytes bs (suc i) r
    → InBytes (b ∷ bs) i r
go_on b bs i low r (full z f) =
    full z (λ k. past_byte b bs (suc k) low (λ l _. f l) k (omega arith))
go_on b bs i low r (found k e c f) =
    found (k + 8) (omega (arith, e)) (bit_high b bs k ∙ c) (past_byte b bs k low f)

byte_full : (b : ℕ) → (b == 0xFF) ≡ true → (k : ℕ) → k < 8 → has_bit b k ≡ true
byte_full b h k lt = ap (λ c. has_bit c k) (is_full b h) ∙ full_byte k lt
  where
    is_full : (b : ℕ) → (b == 0xFF) ≡ true → b ≡ 0xFF
    is_full b h = ground arith

-- What the byte's search gives, with the rest of the search where it gives nothing.
byte_then :
    (b : ℕ) (bs : List ℕ) (i rest : ℕ) (o : Option ℕ)
    → InByte b 0 o
    → InBytes bs (suc i) rest
    → InBytes (b ∷ bs) i (elim o [ none ↦ rest | some j ↦ i * char_bit + j ])
byte_then b bs i rest _ (all_set f) h = go_on b bs i (λ k lt. f k (omega arith) lt) rest h
byte_then b bs i rest _ (clear_at j lt c f) h =
    found j refl (bit_low b bs j lt ∙ c) (λ l q. bit_low b bs l (omega arith) ∙ f l (omega arith) q)

first_clear-InBytes : (xs : List ℕ) (i : ℕ) → InBytes xs i (first_clear i xs)
unfolding first_clear
first_clear-InBytes [] i = full refl (λ k. full_byte (k % 8) (omega arith))
first_clear-InBytes (b ∷ bs) i = elim (Bool-cases (b == 0xFF)) [
  | inl h ↦
      rw h (go_on b bs i (byte_full b h) (first_clear (suc i) bs) (first_clear-InBytes bs (suc i)))
  | inr h ↦ rw h (
      byte_then b bs i (first_clear (suc i) bs) (clear_bit b 0 8) (clear_bit-InByte b 0 8 refl)
        (first_clear-InBytes bs (suc i)))
]

-- The outcome of `first_unset`: 0 and no free block, or the first free block.
pub data FirstUnset (m : PhysicalBitmap) (r : ℕ) : Type 0 where
  all_used : r ≡ 0 → ((k : ℕ) → used m k ≡ true) → FirstUnset m r
  first_free : used m r ≡ false → ((l : ℕ) → l < r → used m l ≡ true) → FirstUnset m r

pub first_unset_lem : (m : PhysicalBitmap) → FirstUnset m (first_unset m)
unfolding first_unset used
first_unset_lem m = elim (first_clear-InBytes m.bitmap 0) [
  | full e f ↦ all_used e f
  | found k e c f ↦ first_free (ap (bit m.bitmap) (at k e) ∙ c) (λ l lt. f l (omega (arith, e)))
]
  where
    at : (k : ℕ) → first_clear 0 m.bitmap ≡ 0 * 8 + k → first_clear 0 m.bitmap ≡ k
    at k e = omega (arith, e)
