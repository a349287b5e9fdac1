-- ===== src/Memory/Copy.antt =====
-- `memcpy` of Kernel/Memory/Memory.h. A block of memory is the list of its bytes, an address
-- inside it an index, and the source of a copy the list of the bytes from its address on.
use xp_os.Prelude.{
  ℕ, zero, suc, ◌+◌, ◌-◌, ◌≤◌, ◌<◌, ◌≡◌, refl, ap, ◌∙◌, List, [], ◌∷◌, arith, length, get_or, set,
  length-set, get_or-set_self, get_or-set_ne, ltb, leb, ◌&&◌, if◌then◌else◌,
}

-- `while (sz--) *dptr++ = *sptr++`. A source that ends early stops the copy; the code would read
-- past the end, so every statement bounds `sz` by the length of the source.
unfoldable pub slow_memcpy : List ℕ → ℕ → List ℕ → ℕ → List ℕ
slow_memcpy dst dptr src zero = dst
slow_memcpy dst dptr [] (suc sz) = dst
slow_memcpy dst dptr (x ∷ src) (suc sz) = slow_memcpy (set dst dptr x) (suc dptr) src sz

unfoldable pub memcpy : List ℕ → ℕ → List ℕ → ℕ → List ℕ
memcpy dst dptr src sz = slow_memcpy dst dptr src sz

slow_memcpy-length :
    (dst : List ℕ) (p : ℕ) (src : List ℕ) (sz : ℕ) → length (slow_memcpy dst p src sz) ≡ length dst
unfolding slow_memcpy
slow_memcpy-length dst p src zero = refl
slow_memcpy-length dst p [] (suc sz) = refl
slow_memcpy-length dst p (x ∷ src) (suc sz) =
    slow_memcpy-length (set dst p x) (suc p) src sz ∙ length-set dst p x

-- Below the first address nothing changes.
slow_memcpy_below :
    (dst : List ℕ) (p : ℕ) (src : List ℕ) (sz i d : ℕ)
    → i < p
    → get_or (slow_memcpy dst p src sz) i d ≡ get_or dst i d
unfolding slow_memcpy
slow_memcpy_below dst p src zero i d h = refl
slow_memcpy_below dst p [] (suc sz) i d h = refl
slow_memcpy_below dst p (x ∷ src) (suc sz) i d h =
    slow_memcpy_below (set dst p x) (suc p) src sz i d (omega arith)
    ∙ get_or-set_ne dst p i x d (omega arith)

slow_memcpy_inside :
    (dst : List ℕ) (p : ℕ) (src : List ℕ) (sz i d : ℕ)
    → p + sz ≤ length dst
    → sz ≤ length src
    → i < sz
    → get_or (slow_memcpy dst p src sz) (p + i) d ≡ get_or src i d
unfolding slow_memcpy
slow_memcpy_inside dst p src zero i d hd hs h = absurd (omega arith)
slow_memcpy_inside dst p [] (suc sz) i d hd hs h = absurd (omega arith)
slow_memcpy_inside dst p (x ∷ src) (suc sz) zero d hd hs h =
    ap (λ j. get_or (slow_memcpy (set dst p x) (suc p) src sz) j d) at
    ∙ slow_memcpy_below (set dst p x) (suc p) src sz p d (omega arith)
    ∙ get_or-set_self dst p x d (omega arith)
  where
    at : p + zero ≡ p
    at = omega arith
slow_memcpy_inside dst p (x ∷ src) (suc sz) (suc i) d hd hs h =
    ap (λ j. get_or (slow_memcpy (set dst p x) (suc p) src sz) j d) at
    ∙ slow_memcpy_inside (set dst p x) (suc p) src sz i d (omega (arith, length-set dst p x))
        (omega arith) (omega arith)
  where
    at : p + suc i ≡ suc p + i
    at = omega arith

slow_memcpy_above :
    (dst : List ℕ) (p : ℕ) (src : List ℕ) (sz i d : ℕ)
    → p + sz ≤ i
    → get_or (slow_memcpy dst p src sz) i d ≡ get_or dst i d
unfolding slow_memcpy
slow_memcpy_above dst p src zero i d h = refl
slow_memcpy_above dst p [] (suc sz) i d h = refl
slow_memcpy_above dst p (x ∷ src) (suc sz) i d h =
    slow_memcpy_above (set dst p x) (suc p) src sz i d (omega arith)
    ∙ get_or-set_ne dst p i x d (omega arith)

pub length-memcpy :
    (dst : List ℕ) (p : ℕ) (src : List ℕ) (sz : ℕ) → length (memcpy dst p src sz) ≡ length dst
unfolding memcpy
length-memcpy dst p src sz = slow_memcpy-length dst p src sz

-- Each byte after a copy within both blocks: the source's inside the range, the old one outside.
pub get_or-memcpy :
    (dst : List ℕ) (p : ℕ) (src : List ℕ) (sz i d : ℕ)
    → p + sz ≤ length dst
    → sz ≤ length src
    → get_or (memcpy dst p src sz) i d
      ≡ (if leb p i && ltb i (p + sz) then get_or src (i - p) d else get_or dst i d)
unfolding memcpy
get_or-memcpy dst p src sz i d hd hs = ground (
  arith,
  slow_memcpy_below dst p src sz i d,
  slow_memcpy_above dst p src sz i d,
  slow_memcpy_inside dst p src sz (i - p) d,
)
