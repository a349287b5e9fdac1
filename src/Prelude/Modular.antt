-- ===== src/Prelude/Modular.antt =====
-- Indices that go round an array: `%` on less than two laps, as a test.
use native.Mathlib.Nat.{mod-eq_of_lt, mod-eq-sub-mod}
use native.Mathlib.Omega.{arith}
use mathlib.Core.Path.{◌≡◌}
use mathlib.Core.Logic.{◌≢◌}
use Prim.Native.Nat.{ℕ, ◌+◌, ◌-◌, ◌%◌, ◌<◌}
use xp_os.Prelude.Tests.{ltb, if◌then◌else◌}

-- One lap of an index round an array of `size` places.
unfoldable pub wrap : ℕ → ℕ → ℕ
wrap size a = if ltb a size then a else a - size

pub mod-eq-wrap : (size a : ℕ) → 0 < size → a < size + size → a % size ≡ wrap size a
unfolding wrap
mod-eq-wrap size a pos h = ground (
  arith,
  mod-eq_of_lt {n = a} {m = size},
  mod-eq-sub-mod {n = a} {m = size},
  mod-eq_of_lt {n = a - size} {m = size},
)

pub wrap-lt : (size a : ℕ) → a < size + size → wrap size a < size
unfolding wrap
wrap-lt size a h = ground arith

-- Two places less than a lap ahead of one index are different places.
pub mod_injective :
    (size a d e : ℕ) → a < size → d < size → e < size → d ≢ e → (a + d) % size ≢ (a + e) % size
unfolding wrap
mod_injective size a d e ha hd he ne =
    ground (arith, mod-eq-wrap size (a + d), mod-eq-wrap size (a + e))
