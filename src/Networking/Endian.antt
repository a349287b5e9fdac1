-- ===== src/Networking/Endian.antt =====
-- `Utilities::BigEndian<T>` of Kernel/API/Endian.h on a little-endian machine: `set_value` lays a
-- value out with its high byte first, and `get_value` reads it back.
use xp_os.Prelude.{ℕ, ◌+◌, ◌*◌, ◌/◌, ◌%◌, ◌^◌, List, [], ◌∷◌, get_or}

abbrev pub byte : List ℕ → ℕ → ℕ
byte bytes i = get_or bytes i 0

-- `get_value` of the field at offset `i`.
abbrev pub get8 : List ℕ → ℕ → ℕ
get8 bytes i = byte bytes i

abbrev pub get16 : List ℕ → ℕ → ℕ
get16 bytes i = byte bytes i * 2 ^ 8 + byte bytes (i + 1)

abbrev pub get32 : List ℕ → ℕ → ℕ
get32 bytes i =
    byte bytes i * 2 ^ 24
    + byte bytes (i + 1) * 2 ^ 16
    + byte bytes (i + 2) * 2 ^ 8
    + byte bytes (i + 3)

-- The bytes that `set_value` stores.
abbrev pub set8 : ℕ → List ℕ
set8 v = v ∷ []

abbrev pub set16 : ℕ → List ℕ
set16 v = (v / 2 ^ 8) ∷ (v % 2 ^ 8) ∷ []

abbrev pub set32 : ℕ → List ℕ
set32 v = (v / 2 ^ 24) ∷ (v / 2 ^ 16 % 2 ^ 8) ∷ (v / 2 ^ 8 % 2 ^ 8) ∷ (v % 2 ^ 8) ∷ []
