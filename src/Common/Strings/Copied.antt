-- ===== src/Common/Strings/Copied.antt =====
-- What `strncpy` copies.
use xp_os.Prelude.{
  le→ltb, ℕ, suc, ◌+◌, ◌-◌, ◌<◌, ◌≤◌, min, ◌≡◌, refl, arith, List, [], ◌∷◌, ◌++◌, none, some, ◌^◌,
  ◌==◌, length, drop, replicate, Bool-cases, inl, inr, ==→ne,
}
use xp_os.Common.Strings.{decrement, copy_loop, strncpy}

-- With room for a prefix of the source, the loop copies it and leaves nothing to fill.
pub copy_loop-prefix :
    (c : ℕ) (name rest : List ℕ)
    → copy_loop ((c ∷ name) ++ rest) (length (c ∷ name)) ≡ (c ∷ name, 0)
unfolding copy_loop decrement
copy_loop-prefix c [] rest = ground arith
copy_loop-prefix c (d ∷ name) rest = ground (arith, copy_loop-prefix d name rest)

-- A count that is not 0 bounds what is written; what is left of it is what the source did not use.
copy_loop-length :
    (str : List ℕ) (num : ℕ)
    → 0 < num
    → (length (copy_loop str num).0 ≡ min num (length str + 1))
      × ((copy_loop str num).1 ≡ num - length str)
unfolding copy_loop decrement
copy_loop-length [] num h = (omega arith, omega arith)
copy_loop-length (c ∷ str) num h = elim (Bool-cases (num - 1 == 0)) [
  | inl e ↦ ground arith
  | inr e ↦ ground (arith, copy_loop-length str (num - 1) (omega (arith, ==→ne (num - 1) 0 e)))
]

-- With a count of 0, `strncpy` of a text that is not empty writes behind every room below 2 ^ 63.
pub strncpy-zero : (room c : ℕ) (str : List ℕ) → room < 2 ^ 63 → strncpy room (c ∷ str) 0 ≡ none
unfolding strncpy copy_loop decrement
strncpy-zero room c str h = ground (arith, copy_loop-length str (2 ^ 64 - 1) (omega arith))

-- A prefix of the source that is not empty and fits is what is copied.
pub strncpy-fits :
    (c : ℕ) (name rest : List ℕ)
    → length (c ∷ name) ≤ 256
    → strncpy 256 ((c ∷ name) ++ rest) (length (c ∷ name)) ≡ some (c ∷ name)
unfolding strncpy
strncpy-fits c name rest h = rw (copy_loop-prefix c name rest) (ground arith)

-- A text is shorter than the count, and there is room for it with its NUL and for the rest of the
-- count. Then what `strncpy` leaves starts with a NUL: it is the empty text.
pub strncpy-shorter :
    (room num : ℕ) (str : List ℕ)
    → length str < num
    → length str < room
    → num - length str ≤ room
    → (bytes : List ℕ) × (strncpy room str num ≡ some (0 ∷ bytes))
unfolding strncpy
strncpy-shorter room num str short fits rest =
    let (written, left) = copy_loop-length str num (omega (arith, short)) in
    let more : (copy_loop str num).1 ≡ suc (num - length str - 1) = omega (arith, left, short) in
    (
      replicate (num - length str - 1) 0 ++ drop (suc (num - length str - 1)) (copy_loop str num).0,
      rw more (
          rw
            (
              le→ltb room (length (copy_loop str num).0) (omega (arith, written, fits)),
              le→ltb room (suc (num - length str - 1)) (omega (arith, rest, short)),
            )
            refl),
    )
