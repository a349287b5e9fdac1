-- ===== src/Prelude/Map.antt =====
-- Partial maps with number keys, as functions: what a `Hashmap` is to its clients.
use Prim.Native.Nat.{ℕ}
use mathlib.Core.Path.{◌≡◌}
use mathlib.Core.Logic.{◌≢◌}
use mathlib.Core.Option.{Option, some}
use native.Mathlib.Omega.{arith}
use xp_os.Prelude.Tests.{◌==◌, if◌then◌else◌}

abbrev pub update {ℓ} : {V : Type ℓ} → (ℕ → Option V) → ℕ → V → ℕ → Option V
update m k v j = if j == k then some v else m j

pub update_self {ℓ} : {V : Type ℓ} (m : ℕ → Option V) (k : ℕ) (v : V) → update m k v k ≡ some v
update_self m k v = ground arith

pub update_ne {ℓ} :
    {V : Type ℓ} (m : ℕ → Option V) (k : ℕ) (v : V) (j : ℕ) → j ≢ k → update m k v j ≡ m j
update_ne m k v j h = ground arith
