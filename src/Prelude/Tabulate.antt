-- ===== src/Prelude/Tabulate.antt =====
-- A list given by its length and its value at each index, and the parts of an array in that form:
-- two arrays agree once they agree pointwise.
use Prim.Native.Nat.{ℕ, zero, suc, ◌+◌, ◌≤◌, ◌<◌}
use mathlib.Core.Path.{◌≡◌, refl, sym, ap, ap₂, ◌∙◌}
use mathlib.Core.List.{List, [], ◌∷◌, ◌++◌}
use native.Mathlib.Omega.{arith}
use xp_os.Prelude.Lists.{length, get_or, take, drop}

suc-add_move : (s i : ℕ) → suc (s + i) ≡ s + suc i
suc-add_move s i = omega arith

suc-add_left : (s i : ℕ) → suc (s + i) ≡ suc s + i
suc-add_left s i = omega arith

module _ {ℓ} {A : Type ℓ} where
  abbrev pub tabulate : ℕ → (ℕ → A) → List A
  tabulate zero f = []
  tabulate (suc n) f = f 0 ∷ tabulate n (λ i. f (suc i))

  pub length-tabulate : (n : ℕ) (f : ℕ → A) → length (tabulate n f) ≡ n
  length-tabulate zero f = refl
  length-tabulate (suc n) f = ap suc (length-tabulate n (λ i. f (suc i)))

  pub tabulate_ext :
      (n : ℕ) (f g : ℕ → A) → ((i : ℕ) → i < n → f i ≡ g i) → tabulate n f ≡ tabulate n g
  tabulate_ext zero f g h = refl
  tabulate_ext (suc n) f g h =
      ap₂ ◌∷◌ (h 0 (omega arith))
        (tabulate_ext n (λ i. f (suc i)) (λ i. g (suc i)) (λ i lt. h (suc i) (omega arith)))

  pub tabulate-add :
      (m n : ℕ) (f : ℕ → A) → tabulate (m + n) f ≡ tabulate m f ++ tabulate n (λ i. f (m + i))
  tabulate-add zero n f =
      rw zero_left (tabulate_ext n f (λ i. f (zero + i)) (λ i lt. ap f (omega arith)))
    where
      zero_left : zero + n ≡ n
      zero_left = omega arith
  tabulate-add (suc m) n f =
      ap (λ k. tabulate k f) left
      ∙ ap (λ l. f 0 ∷ l)
          (tabulate-add m n (λ i. f (suc i)) ∙ ap (λ l. tabulate m (λ i. f (suc i)) ++ l) right)
    where
      left : suc m + n ≡ suc (m + n)
      left = omega arith

      right : tabulate n (λ i. f (suc (m + i))) ≡ tabulate n (λ i. f (suc m + i))
      right =
          tabulate_ext n (λ i. f (suc (m + i))) (λ i. f (suc m + i)) (λ i lt. ap f (omega arith))

  pub get_or-tabulate :
      (n : ℕ) (f : ℕ → A) (i : ℕ) (d : A) → i < n → get_or (tabulate n f) i d ≡ f i
  get_or-tabulate zero f i d h = absurd (omega arith)
  get_or-tabulate (suc n) f zero d h = refl
  get_or-tabulate (suc n) f (suc i) d h = get_or-tabulate n (λ j. f (suc j)) i d (omega arith)

  -- The k elements of an array from index s on are a table.
  pub take-drop-eq-tabulate :
      (k s : ℕ) (xs : List A) (d : A)
      → s + k ≤ length xs
      → take k (drop s xs) ≡ tabulate k (λ i. get_or xs (s + i) d)
  take-drop-eq-tabulate zero s xs d h = refl
  take-drop-eq-tabulate (suc k) zero [] d h = absurd (omega arith)
  take-drop-eq-tabulate (suc k) zero (x ∷ xs) d h =
      ap (λ l. x ∷ l)
        (take-drop-eq-tabulate k zero xs d (omega arith)
          ∙ tabulate_ext k (λ i. get_or xs (zero + i) d) (λ i. get_or (x ∷ xs) (zero + suc i) d)
              (λ i lt. ap (λ j. get_or (x ∷ xs) j d) (suc-add_move zero i)))
  take-drop-eq-tabulate (suc k) (suc s) [] d h = absurd (omega arith)
  take-drop-eq-tabulate (suc k) (suc s) (x ∷ xs) d h =
      take-drop-eq-tabulate (suc k) s xs d (omega arith)
      ∙ tabulate_ext (suc k) (λ i. get_or xs (s + i) d) (λ i. get_or (x ∷ xs) (suc s + i) d)
          (λ i lt. ap (λ j. get_or (x ∷ xs) j d) (suc-add_left s i))

  pub get_or-drop :
      (n : ℕ) (xs : List A) (i : ℕ) (d : A) → get_or (drop n xs) i d ≡ get_or xs (n + i) d
  get_or-drop zero xs i d = ap (λ j. get_or xs j d) (zero_left i)
    where
      zero_left : (i : ℕ) → i ≡ zero + i
      zero_left i = omega arith
  get_or-drop (suc n) [] i d = refl
  get_or-drop (suc n) (x ∷ xs) i d =
      get_or-drop n xs i d ∙ ap (λ j. get_or (x ∷ xs) j d) (suc-add_left n i)

  pub take-tabulate : (n k : ℕ) (f : ℕ → A) → k ≤ n → take k (tabulate n f) ≡ tabulate k f
  take-tabulate n zero f h = refl
  take-tabulate zero (suc k) f h = absurd (omega arith)
  take-tabulate (suc n) (suc k) f h =
      ap (λ l. f 0 ∷ l) (take-tabulate n k (λ i. f (suc i)) (omega arith))

  pub drop-tabulate :
      (k n : ℕ) (f : ℕ → A) → drop k (tabulate (k + n) f) ≡ tabulate n (λ i. f (k + i))
  drop-tabulate zero n f =
      rw (zero_left n) (tabulate_ext n f (λ i. f (zero + i)) (λ i lt. ap f (omega arith)))
    where
      zero_left : (n : ℕ) → zero + n ≡ n
      zero_left n = omega arith
  drop-tabulate (suc k) n f =
      ap (λ m. drop (suc k) (tabulate m f)) (sym (suc-add_left k n))
      ∙ drop-tabulate k n (λ i. f (suc i))
      ∙ tabulate_ext n (λ i. f (suc (k + i))) (λ i. f (suc k + i)) (λ i lt. ap f (suc-add_left k i))
