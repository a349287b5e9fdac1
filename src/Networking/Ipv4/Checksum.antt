-- ===== src/Networking/Ipv4/Checksum.antt =====
-- `checksum` of Kernel/Networking/IP/IPv4.cpp, on a little-endian machine: the sum of 16-bit words
-- in network order, with the carries added back in, inverted.
pub mod Fold
pub mod Verify
mod Tests
use xp_os.Prelude.{ℕ, zero, suc, ◌+◌, ◌-◌, ◌*◌, ◌/◌, ◌%◌, ◌^◌, List, [], ◌∷◌, ltb, if◌then◌else◌}
use xp_os.Prelude.Word.{u32}

-- `((v & 0xFF00) >> 8) | ((v & 0x00FF) << 8)`
unfoldable pub swap16 : ℕ → ℕ
swap16 v = v / 256 % 256 + v % 256 * 256

-- `data[i]`, from its two bytes.
unfoldable pub load16 : ℕ → ℕ → ℕ
load16 low high = low + high * 256

-- `((uint16_t)((char*)data)[size-1]) << 8`: a `char` is signed, so a byte from 128 on is extended
-- with ones before it is shifted.
unfoldable pub last_byte : ℕ → ℕ
last_byte b = if ltb b 128 then b * 256 else (0xFF00 + b) * 256

-- The loop over the words and the odd byte behind them, from a sum `temp` on.
unfoldable pub add_words : ℕ → List ℕ → ℕ
unfolding swap16 load16 last_byte
add_words temp [] = temp
add_words temp (b ∷ []) = u32 (temp + last_byte b)
add_words temp (b0 ∷ b1 ∷ rest) = add_words (u32 (temp + swap16 (load16 b0 b1))) rest

-- `while (temp & 0xFFFF0000) temp = (temp & 0xFFFF) + (temp >> 16)`, for `fuel` rounds at most.
unfoldable pub fold_carries : ℕ → ℕ → ℕ
fold_carries zero temp = temp
fold_carries (suc fuel) temp =
    let rest = fold_carries fuel (temp % 2 ^ 16 + temp / 2 ^ 16) in
    if ltb temp (2 ^ 16) then temp else rest

-- Two rounds are enough for a 32-bit sum.
unfoldable pub checksum : List ℕ → ℕ
unfolding swap16
checksum data_bytes = swap16 (2 ^ 16 - 1 - fold_carries 2 (add_words 0 data_bytes))
