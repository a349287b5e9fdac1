-- ===== src/Filesystem/Tar/Image/Octal.antt =====
-- The size of a file, from its octal digits.
use xp_os.Prelude.{ℕ, zero, suc, ◌+◌, ◌*◌, ◌<◌, ◌^◌, ◌%◌, ◌/◌, ◌≡◌, ap, sym, ◌∙◌, arith}
use xp_os.Prelude.Word.{u64}
use xp_os.Filesystem.Tar.Image.{digit, size_loop, get_size}

digit_lem : (d : ℕ) → d < 8 → digit (48 + d) ≡ d
unfolding digit
digit_lem d h = ground arith

-- The characters from `i` digits down to the first one write `n`.
abbrev pub Writes : (ℕ → ℕ) → ℕ → ℕ → Type 0
Writes field zero n = n ≡ 0
Writes field (suc i) n = (field i ≡ 48 + n % 8) × Writes field i (n / 8)

-- The weight of each digit fits 64 bits.
abbrev Fits : ℕ → ℕ → Type 0
Fits zero count = Unit
Fits (suc i) count = (count * 8 < 2 ^ 64) × Fits i (count * 8)

last_digit : (n count : ℕ) → n * count ≡ n % 8 * count + n / 8 * (count * 8)
last_digit n count =
    let e : n ≡ n % 8 + n / 8 * 8 = omega arith in omega (arith, ap (λ (t : ℕ). t * count) e)

size_loop_lem :
    (field : ℕ → ℕ) (i n count size : ℕ)
    → Writes field i n
    → Fits i count
    → size + n * count < 2 ^ 64
    → size_loop field i count size ≡ size + n * count
unfolding size_loop
size_loop_lem field zero n count size w f h = rw w (omega arith)
size_loop_lem field (suc i) n count size (e, w) (f, fs) h =
    let weight : u64 (count * 8) ≡ count * 8 = omega (arith, f) in
    let low : n % 8 * count + n / 8 * (count * 8) ≡ n * count = sym (last_digit n count) in
    let bound : size + n % 8 * count < 2 ^ 64 = omega (arith, h, low) in
    let total : size + n % 8 * count + n / 8 * (count * 8) ≡ size + n * count =
      omega (arith, low) in
    let sum : u64 (size + digit (field i) * count) ≡ size + n % 8 * count =
      rw e (rw (digit_lem (n % 8) (omega arith)) (omega (arith, bound))) in
    rw weight (
      rw sum (
        size_loop_lem field i (n / 8) (count * 8) (size + n % 8 * count) w fs
          (omega (arith, h, total))
        ∙ total))

-- The eleven characters of the size are the octal digits of a number. Then `get_size` is the number.
pub get_size_lem :
    (memory : ℕ → ℕ) (header n : ℕ)
    → Writes (λ i. memory (header + 124 + i)) 11 n
    → n < 2 ^ 33
    → get_size memory header ≡ n
unfolding get_size
get_size_lem memory header n w h =
    size_loop_lem (λ i. memory (header + 124 + i)) 11 n 1 0 w (ground arith) (omega (arith, h))
    ∙ omega arith
