-- ===== src/Networking/Ipv4/Checksum/Verify.antt =====
-- A message with its checksum stored in it.
use xp_os.Prelude.{
  ℕ, ◌+◌, ◌-◌, ◌*◌, ◌/◌, ◌%◌, ◌^◌, ◌≤◌, ◌<◌, ◌≡◌, refl, arith, inl, inr, List, [], ◌∷◌, ◌++◌,
  length,
}
use xp_os.Prelude.All.{All}
use xp_os.Prelude.Word.{u32}
use xp_os.Networking.Ipv4.Checksum.{swap16, load16, last_byte, add_words, fold_carries, checksum}
use xp_os.Networking.Ipv4.Checksum.Fold.{fold_carries_lem}

-- The sum of the words without wrap-around.
word_sum : List ℕ → ℕ
word_sum [] = 0
word_sum (b ∷ []) = last_byte b
word_sum (b0 ∷ b1 ∷ rest) = swap16 (load16 b0 b1) + word_sum rest

swap-load : (b0 b1 : ℕ) → b0 < 256 → b1 < 256 → swap16 (load16 b0 b1) ≡ b0 * 256 + b1
unfolding swap16 load16
swap-load b0 b1 h0 h1 = omega arith

word_sum_bound : (l : List ℕ) → All (λ b. b < 256) l → word_sum l ≤ length l * 2 ^ 15 + 2 ^ 24
unfolding word_sum last_byte
word_sum_bound [] h = omega arith
word_sum_bound (b ∷ []) h = ground arith
word_sum_bound (b0 ∷ b1 ∷ rest) h =
    omega (arith, swap-load b0 b1 h.0 h.1.0, word_sum_bound rest h.1.1)

add_words-eq-sum :
    (temp : ℕ) (l : List ℕ) → temp + word_sum l < 2 ^ 32 → add_words temp l ≡ temp + word_sum l
unfolding word_sum add_words
add_words-eq-sum temp [] h = omega arith
add_words-eq-sum temp (b ∷ []) h = omega arith
add_words-eq-sum temp (b0 ∷ b1 ∷ rest) h =
    omega (arith, add_words-eq-sum (u32 (temp + swap16 (load16 b0 b1))) rest (omega arith))

word_sum-append : (a b : List ℕ) → length a % 2 ≡ 0 → word_sum (a ++ b) ≡ word_sum a + word_sum b
unfolding word_sum
word_sum-append [] b h = omega arith
word_sum-append (x ∷ []) b h = omega arith
word_sum-append (x ∷ y ∷ a) b h = omega (arith, word_sum-append a b (omega arith))

fold_complement :
    (s : ℕ) → s ≤ 2 ^ 31 → fold_carries 2 (s + (2 ^ 16 - 1 - fold_carries 2 s)) ≡ 2 ^ 16 - 1
fold_complement s h =
    let (_, low, (k, e), _) = fold_carries_lem 0 s (omega arith) in
    let (_, low', (k', e'), zero') =
      fold_carries_lem 0 (s + (2 ^ 16 - 1 - fold_carries 2 s)) (omega arith) in
    elim zero' [ inl ne ↦ omega arith | inr eq ↦ omega arith ]

swap16-bytes :
    (n : ℕ)
    → n < 2 ^ 16
    → (swap16 n < 2 ^ 16) × (swap16 n % 256 ≡ n / 256) × (swap16 n / 256 ≡ n % 256)
unfolding swap16
swap16-bytes n h = (omega arith, omega arith, omega arith)

module _ (a b : List ℕ) (even : length a % 2 ≡ 0) (a_bytes : All (λ x. x < 256) a)
    (b_bytes : All (λ x. x < 256) b) (short : length a + length b ≤ 2 ^ 15) where
  with_word : ℕ → ℕ → List ℕ
  with_word b0 b1 = a ++ (b0 ∷ b1 ∷ b)

  rest_sum : ℕ
  rest_sum = word_sum a + word_sum b

  rest_sum-bound : rest_sum ≤ 2 ^ 31
  unfolding rest_sum
  rest_sum-bound = omega (arith, word_sum_bound a a_bytes, word_sum_bound b b_bytes)

  add_words-with_word :
      (b0 b1 : ℕ) → b0 < 256 → b1 < 256 → add_words 0 (with_word b0 b1) ≡ rest_sum + (b0 * 256 + b1)
  unfolding with_word word_sum rest_sum
  add_words-with_word b0 b1 h0 h1 =
      let total : word_sum (with_word b0 b1) ≡ rest_sum + (b0 * 256 + b1) =
        omega (arith, word_sum-append a (b0 ∷ b1 ∷ b) even, swap-load b0 b1 h0 h1) in
      omega (arith, rest_sum-bound, total, add_words-eq-sum 0 (with_word b0 b1))

  -- The checksum stored in a message makes the checksum of the whole message 0: `a` and `b` are what
  -- stands before and behind its field, which the code sets to 0 first. The message is of bytes, it
  -- has 32768 of them at most beside the field, and the field begins at an even place.
  pub checksum_verifies :
      let c = checksum (a ++ (0 ∷ 0 ∷ b)) in
      (c < 2 ^ 16) × (checksum (a ++ (c % 256 ∷ c / 256 ∷ b)) ≡ 0)
  unfolding with_word checksum
  checksum_verifies =
      let n = 2 ^ 16 - 1 - fold_carries 2 rest_sum in
      let (_, low, _, _) = fold_carries_lem 0 rest_sum (omega (arith, rest_sum-bound)) in
      let (small, first, second) = swap16-bytes n (omega arith) in
      let before : add_words 0 (a ++ (0 ∷ 0 ∷ b)) ≡ rest_sum =
        omega (arith, add_words-with_word 0 0 (omega arith) (omega arith)) in
      let after : add_words 0 (a ++ (n / 256 ∷ n % 256 ∷ b)) ≡ rest_sum + n =
        omega (arith, add_words-with_word (n / 256) (n % 256) (omega arith) (omega arith)) in
      rw (before, first, second, after, fold_complement rest_sum rest_sum-bound)
        (small, unfold swap16 in refl)

add_words-odd :
    (temp : ℕ) (a : List ℕ) (b : ℕ)
    → length a % 2 ≡ 0
    → b < 128
    → add_words temp (a ++ (b ∷ [])) ≡ add_words temp (a ++ (b ∷ 0 ∷ []))
unfolding add_words last_byte swap16 load16
add_words-odd temp [] b h low = ground arith
add_words-odd temp (x ∷ []) b h low = omega arith
add_words-odd temp (x ∷ y ∷ a) b h low =
    add_words-odd (u32 (temp + swap16 (load16 x y))) a b (omega arith) low

-- A message of an odd number of bytes, the last of which is below 128, has the checksum of the
-- message with a byte of 0 put behind it.
pub checksum-odd :
    (a : List ℕ) (b : ℕ)
    → length a % 2 ≡ 0
    → b < 128
    → checksum (a ++ (b ∷ [])) ≡ checksum (a ++ (b ∷ 0 ∷ []))
unfolding checksum
checksum-odd a b h low = rw (add_words-odd 0 a b h low) refl
