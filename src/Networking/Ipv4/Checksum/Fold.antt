-- ===== src/Networking/Ipv4/Checksum/Fold.antt =====
-- Adding the carries back in.
use xp_os.Prelude.{
  ℕ, zero, suc, ◌+◌, ◌-◌, ◌*◌, ◌/◌, ◌%◌, ◌^◌, ◌≤◌, ◌<◌, ◌≡◌, ◌≢◌, refl, ◌∙◌, sym, arith, ◌⊎◌, inl,
  inr, Bool-cases, ltb, ltb→lt, ltb→le,
}
use xp_os.Networking.Ipv4.Checksum.{fold_carries}

fold_small : (fuel temp : ℕ) → temp < 2 ^ 16 → fold_carries fuel temp ≡ temp
unfolding fold_carries
fold_small zero temp h = refl
fold_small (suc fuel) temp h = ground arith

fold_large :
    (fuel temp : ℕ)
    → 2 ^ 16 ≤ temp
    → fold_carries (suc fuel) temp ≡ fold_carries fuel (temp % 2 ^ 16 + temp / 2 ^ 16)
unfolding fold_carries
fold_large fuel temp h = ground arith

-- One round of the loop.
abbrev round : ℕ → ℕ
round temp = temp % 2 ^ 16 + temp / 2 ^ 16

rounds : (fuel temp : ℕ) → temp < 2 ^ 32 → fold_carries (suc (suc fuel)) temp ≡ round (round temp)
rounds fuel temp h = elim (Bool-cases (ltb temp (2 ^ 16))) [
  | inl lt ↦ omega (arith, fold_small (suc (suc fuel)) temp (ltb→lt _ _ lt), ltb→lt _ _ lt)
  | inr ge ↦ elim (Bool-cases (ltb (round temp) (2 ^ 16))) [
    | inl lt ↦ omega (
      arith,
      fold_large (suc fuel) temp (ltb→le _ _ ge),
      fold_small (suc fuel) (round temp) (ltb→lt _ _ lt),
      ltb→lt _ _ lt,
    )
    | inr ge' ↦ omega (
      arith,
      fold_large (suc fuel) temp (ltb→le _ _ ge),
      fold_large fuel (round temp) (ltb→le _ _ ge'),
      fold_small fuel (round (round temp)) (omega arith),
    )
  ]
]

-- The loop ends after two rounds for every 32-bit sum: with any more fuel the result is the same.
-- It is a 16-bit number, which differs from the sum by a multiple of 2^16 - 1, and it is 0 for a
-- sum of 0 only.
pub fold_carries_lem :
    (fuel temp : ℕ)
    → temp < 2 ^ 32
    → let r = fold_carries 2 temp in
      (fold_carries (suc (suc fuel)) temp ≡ r)
      × (r < 2 ^ 16)
      × ((k : ℕ) × (temp ≡ r + k * (2 ^ 16 - 1)))
      × ((r ≢ 0) ⊎ (temp ≡ 0))
fold_carries_lem fuel temp h = (
  rounds fuel temp h ∙ sym (rounds 0 temp h),
  omega (arith, rounds 0 temp h),
  (temp / 2 ^ 16 + round temp / 2 ^ 16, omega (arith, rounds 0 temp h)),
  elim (Bool-cases (ltb 0 temp)) [
    | inl lt ↦ inl (omega (arith, rounds 0 temp h, ltb→lt _ _ lt))
    | inr ge ↦ inr (omega (arith, ltb→le _ _ ge))
  ],
)
