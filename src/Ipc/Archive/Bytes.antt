-- ===== src/Ipc/Archive/Bytes.antt =====
-- Integers as bytes, and what it means that a type can be written and read back.
use xp_os.Prelude.{
  ◌-◌, ltb, leb, true, ℕ, zero, suc, ◌+◌, ◌*◌, ◌/◌, ◌^◌, ◌<◌, ◌≡◌, refl, ap, ap₂, sym, ◌∙◌, List,
  [], ◌∷◌, ◌++◌, length, take, drop, arith, length-append,
}
use mathlib.Core.Path.{subst}
use mathlib.Core.List.{append_assoc}
use native.Mathlib.Numerals.{unary_clauses}
use xp_os.Ipc.Archive.{
  DeserialisedData, Archivable, bytes_of, value_of, integral, push_bytes, pop_bytes, bytes_before,
}
use xp_os.Prelude.Word.{u32}

pub length-bytes_of : (size v : ℕ) → length (bytes_of size v) ≡ size
unfolding bytes_of
length-bytes_of zero v = refl
length-bytes_of (suc size) v = ap suc (length-bytes_of size (v / 256))

next_power : (n : ℕ) → 256 ^ suc n ≡ 256 ^ n * 256
next_power n = simp unary_clauses refl

quotient_fits : (limit v : ℕ) → v < limit * 256 → v / 256 < limit
quotient_fits limit v h = omega (arith, h)

pub value_of-bytes_of : (size v : ℕ) → v < 256 ^ size → value_of (bytes_of size v) ≡ v
unfolding bytes_of value_of
value_of-bytes_of zero v h = omega arith
value_of-bytes_of (suc size) v h = omega (
  arith,
  value_of-bytes_of size (v / 256)
      (quotient_fits (256 ^ size) v (subst (λ n. v < n) (next_power size) h)),
)

pub take_prefix {ℓ} : {A : Type ℓ} → (xs ys : List A) → take (length xs) (xs ++ ys) ≡ xs
take_prefix [] ys = refl
take_prefix (x ∷ xs) ys = ap (λ l. x ∷ l) (take_prefix xs ys)

pub drop_prefix {ℓ} : {A : Type ℓ} → (xs ys : List A) → drop (length xs) (xs ++ ys) ≡ ys
drop_prefix [] ys = refl
drop_prefix (x ∷ xs) ys = drop_prefix xs ys

drop_nil {ℓ} : {A : Type ℓ} → (n : ℕ) → drop {A = A} n [] ≡ []
drop_nil zero = refl
drop_nil (suc n) = refl

add_left : (m n : ℕ) → suc (m + n) ≡ suc m + n
add_left m n = omega arith

zero_left : (n : ℕ) → n ≡ zero + n
zero_left n = omega arith

pub drop-drop {ℓ} : {A : Type ℓ} → (m n : ℕ) (xs : List A) → drop n (drop m xs) ≡ drop (m + n) xs
drop-drop zero n xs = ap (λ k. drop k xs) (zero_left n)
drop-drop (suc m) n [] = drop_nil n ∙ sym (drop_nil (suc m + n))
drop-drop (suc m) n (x ∷ xs) = drop-drop m n xs ∙ ap (λ k. drop k (x ∷ xs)) (add_left m n)

-- The bytes that are still to be read begin with `bytes`, and the offset stays an `int` that is not
-- negative as they are read.
pub record Reads (d : DeserialisedData) (bytes rest : List ℕ) : Type 0 where
  pub ahead : drop d.current_offset d.raw_bytes ≡ bytes ++ rest
  pub room : d.current_offset + length bytes < 2 ^ 31

-- After `bytes` have been read.
abbrev pub skip : List ℕ → DeserialisedData → DeserialisedData
skip bytes d = record d { current_offset = d.current_offset + length bytes }

pub skip-Reads :
    (d : DeserialisedData) (bytes more rest : List ℕ)
    → Reads d (bytes ++ more) rest
    → Reads (skip bytes d) more rest
skip-Reads d bytes more rest h = record {
  ahead =
      sym (drop-drop d.current_offset (length bytes) d.raw_bytes)
      ∙ ap (drop (length bytes)) (h.ahead ∙ append_assoc bytes more rest)
      ∙ drop_prefix bytes (more ++ rest);
  room = omega (arith, h.room, length-append bytes more);
}

-- Writing appends the bytes of a value, and reading them gives the value back, for values that fit.
pub record IsLawful {ℓ} {A : Type ℓ} (item : Archivable A) (Fits : A → Type 0) : Type ℓ where
  pub code : A → List ℕ
  pub encodes : (x : A) (message : List ℕ) → item.encode x message ≡ message ++ code x
  pub decodes :
      (x : A) (d : DeserialisedData) (rest : List ℕ)
      → Fits x
      → Reads d (code x) rest
      → item.decode d ≡ (x, skip (code x) d)

pop_ahead :
    (size : ℕ) (d : DeserialisedData)
    → d.current_offset + size < 2 ^ 31
    → pop_bytes size d ≡ (
      take size (drop d.current_offset d.raw_bytes),
      record d { current_offset = d.current_offset + size },
    )
unfolding pop_bytes bytes_before
pop_ahead size d room =
    let same : u32 (d.current_offset + size) ≡ d.current_offset + size = omega (arith, room) in
    let back : d.current_offset + size - size ≡ d.current_offset = omega arith in
    let inside : ltb (d.current_offset + size) (2 ^ 31) ≡ true = ground arith in
    let enough : leb size (d.current_offset + size) ≡ true = ground arith in
    rw (same, inside, enough, back) refl

-- An integer of `size` bytes is read back as it was written.
pub integral_decodes :
    (size v : ℕ) (d : DeserialisedData) (rest : List ℕ)
    → v < 256 ^ size
    → Reads d (bytes_of size v) rest
    → (integral size).decode d ≡ (v, skip (bytes_of size v) d)
integral_decodes size v d rest fits h =
    ap (λ (q : List ℕ × DeserialisedData). (value_of q.0, q.1))
      (pop_ahead size d (omega (arith, h.room, length-bytes_of size v)))
    ∙ ap₂ (λ a n. (a, record d { current_offset = d.current_offset + n }))
        (ap (λ l. value_of (take size l)) h.ahead
          ∙ ap (λ n. value_of (take n (bytes_of size v ++ rest))) (sym (length-bytes_of size v))
          ∙ ap value_of (take_prefix (bytes_of size v) rest)
          ∙ value_of-bytes_of size v fits)
        (sym (length-bytes_of size v))

pub integral-IsLawful : (size : ℕ) → IsLawful (integral size) (λ v. v < 256 ^ size)
unfolding push_bytes
integral-IsLawful size = record {
  code = bytes_of size;
  encodes = λ v message. refl;
  decodes = integral_decodes size;
}

pub skip_nil : (d : DeserialisedData) → d ≡ skip [] d
skip_nil d = ap (λ o. record d { current_offset = o }) (zero_right d.current_offset)
  where
    zero_right : (n : ℕ) → n ≡ n + 0
    zero_right n = omega arith

pub skip-append : (d : DeserialisedData) (xs ys : List ℕ) → skip ys (skip xs d) ≡ skip (xs ++ ys) d
skip-append d xs ys = ap (λ o. record d { current_offset = o }) sum
  where
    sum : d.current_offset + length xs + length ys ≡ d.current_offset + length (xs ++ ys)
    sum = omega (arith, length-append xs ys)

pub first-Reads :
    (d : DeserialisedData) (bytes more rest : List ℕ)
    → Reads d (bytes ++ more) rest
    → Reads d bytes (more ++ rest)
first-Reads d bytes more rest h = record {
  ahead = h.ahead ∙ append_assoc bytes more rest;
  room = omega (arith, h.room, length-append bytes more);
}

-- What a lawful type writes behind `before` is read back from there, if the bytes so far are fewer
-- than 2^31.
pub round_trip {ℓ} :
    {A : Type ℓ}
    → (item : Archivable A) (Fits : A → Type 0) → IsLawful item Fits
    → (x : A) (before after : List ℕ) → Fits x
    → length (item.encode x before) < 2 ^ 31
    → item.decode
        (record { raw_bytes = item.encode x before ++ after; current_offset = length before })
      ≡ (
        x,
        record {
          raw_bytes = item.encode x before ++ after;
          current_offset = length (item.encode x before);
        },
      )
round_trip item Fits lawful x before after fits room =
    lawful.decodes x start after fits (record { ahead = ahead; room = omega (arith, moved, room) })
    ∙ ap (λ n. (x, record start { current_offset = n })) moved
  where
    start : DeserialisedData
    start = record { raw_bytes = item.encode x before ++ after; current_offset = length before }

    ahead : drop (length before) (item.encode x before ++ after) ≡ lawful.code x ++ after
    ahead =
        ap (λ l. drop (length before) (l ++ after)) (lawful.encodes x before)
        ∙ ap (drop (length before)) (append_assoc before (lawful.code x) after)
        ∙ drop_prefix before (lawful.code x ++ after)

    moved : length before + length (lawful.code x) ≡ length (item.encode x before)
    moved = sym (ap length (lawful.encodes x before) ∙ length-append before (lawful.code x))
