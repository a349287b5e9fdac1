-- ===== src/Networking/Ipv4/Checksum/Tests.antt =====
-- A well-known header of twenty bytes, whose checksum is b861 (hexadecimal).
use xp_os.Prelude.{ℕ, ◌%◌, ◌/◌, ◌^◌, ◌<◌, ◌≡◌, ◌≢◌, refl, arith, List, [], ◌∷◌, ◌++◌}
use xp_os.Networking.Ipv4.Checksum.{checksum, add_words, fold_carries}
use xp_os.Networking.Ipv4.Checksum.Verify.{checksum_verifies}

abbrev before : List ℕ
before = 0x45 ∷ 0 ∷ 0 ∷ 0x73 ∷ 0 ∷ 0 ∷ 0x40 ∷ 0 ∷ 0x40 ∷ 0x11 ∷ []

abbrev behind : List ℕ
behind = 0xc0 ∷ 0xa8 ∷ 0 ∷ 1 ∷ 0xc0 ∷ 0xa8 ∷ 0 ∷ 0xc7 ∷ []

-- The bytes b8 and 61, as a word of a little-endian machine.
known : checksum (before ++ (0 ∷ 0 ∷ behind)) ≡ 0x61b8
unfolding checksum fold_carries add_words
known = refl

-- A message that ends with a byte of 128 has not the checksum of the message with 0 behind it.
sign_extended : checksum (128 ∷ []) ≢ checksum (128 ∷ 0 ∷ [])
unfolding checksum fold_carries add_words
sign_extended = omega arith

checksum_verifies_example :
    let c = checksum (before ++ (0 ∷ 0 ∷ behind)) in
    (c < 2 ^ 16) × (checksum (before ++ (c % 256 ∷ c / 256 ∷ behind)) ≡ 0)
checksum_verifies_example =
    checksum_verifies before behind refl
      (
        omega arith,
        (
          omega arith,
          (
            omega arith,
            (
              omega arith,
              (
                omega arith,
                (omega arith, (omega arith, (omega arith, (omega arith, (omega arith, tt))))),
              ),
            ),
          ),
        ),
      )
      (
        omega arith,
        (
          omega arith,
          (
            omega arith,
            (omega arith, (omega arith, (omega arith, (omega arith, (omega arith, tt))))),
          ),
        ),
      )
      (omega arith)

abbrev carried : ℕ
carried = 0x2479c
