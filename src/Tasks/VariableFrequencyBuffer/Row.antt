-- ===== src/Tasks/VariableFrequencyBuffer/Row.antt =====
-- The lists of the ring laid out in a row from the current one on, and what replacing one does to it.
use xp_os.Prelude.{
  ℕ, zero, suc, ◌+◌, ◌-◌, ◌%◌, ◌<◌, ◌≡◌, ◌≢◌, refl, sym, ap, ap₂, ◌∙◌, List, [], ◌∷◌, ◌++◌, arith,
  length, get_or, set, get_or-set_self, get_or-set_ne,
}
use native.Mathlib.Nat.{mod-lt, mod-add-mod, add-mod_right}
use mathlib.Core.List.{append-nil, append_assoc}
use xp_os.Prelude.Modular.{mod_injective}
use xp_os.Tasks.VariableFrequencyBuffer.{VariableFrequencyBuffer}
use xp_os.Tasks.VariableFrequencyBuffer.Scan.{total, ahead}

-- The lists f 0, f 1, ..., f (n - 1), one behind the other.
unfoldable pub row : ℕ → (ℕ → List ℕ) → List ℕ
row zero f = []
row (suc n) f = f 0 ++ row n (λ i. f (suc i))

-- The ids in the order in which `get_next` hands them out.
unfoldable pub pending : ℕ → VariableFrequencyBuffer → List ℕ
pending slots b = row slots (ahead slots b.buffer b.current_list)

pub row_ext : (n : ℕ) (f g : ℕ → List ℕ) → ((i : ℕ) → i < n → f i ≡ g i) → row n f ≡ row n g
unfolding row
row_ext zero f g h = refl
row_ext (suc n) f g h =
    ap₂ ◌++◌ (h 0 (omega arith))
      (row_ext n (λ i. f (suc i)) (λ i. g (suc i)) (λ i lt. h (suc i) (omega arith)))

pub row_empty : (n : ℕ) (f : ℕ → List ℕ) → ((i : ℕ) → i < n → f i ≡ []) → row n f ≡ []
unfolding row
row_empty zero f h = refl
row_empty (suc n) f h =
    rw (h 0 (omega arith)) (row_empty n (λ i. f (suc i)) (λ i lt. h (suc i) (omega arith)))

pub row-add : (m n : ℕ) (f : ℕ → List ℕ) → row (m + n) f ≡ row m f ++ row n (λ i. f (m + i))
unfolding row
row-add zero n f =
    ap (λ k. row k f) left ∙ row_ext n f (λ i. f (zero + i)) (λ i lt. ap f (omega arith))
  where
    left : zero + n ≡ n
    left = omega arith
row-add (suc m) n f =
    ap (λ k. row k f) left
    ∙ ap (λ l. f 0 ++ l)
        (row-add m n (λ i. f (suc i))
          ∙ ap (λ l. row m (λ i. f (suc i)) ++ l)
              (row_ext n (λ i. f (suc (m + i))) (λ i. f (suc m + i)) (λ i lt. ap f (omega arith))))
    ∙ sym (append_assoc (f 0) (row m (λ i. f (suc i))) (row n (λ i. f (suc m + i))))
  where
    left : suc m + n ≡ suc (m + n)
    left = omega arith

pub total-set :
    (ls : List (List ℕ)) (i : ℕ) (l : List ℕ)
    → i < length ls
    → total (set ls i l) + length (get_or ls i []) ≡ total ls + length l
unfolding total
total-set [] i l h = absurd (omega arith)
total-set (x ∷ ls) zero l h = omega arith
total-set (x ∷ ls) (suc i) l h = omega (arith, total-set ls i l (omega arith))

pub row-suc : (n : ℕ) (f : ℕ → List ℕ) → row (suc n) f ≡ row n f ++ f n
unfolding row
row-suc n f =
    ap (λ k. row k f) {x = suc n} (omega arith)
    ∙ row-add n 1 f
    ∙ ap (λ l. row n f ++ l) (append-nil (f (n + 0)) ∙ ap f (omega arith))

row-suc_left : (n : ℕ) (f : ℕ → List ℕ) → row (suc n) f ≡ f 0 ++ row n (λ i. f (suc i))
unfolding row
row-suc_left n f = refl

-- A row cut behind place `d`.
pub row_split :
    (n d : ℕ) (f : ℕ → List ℕ)
    → d < n
    → row n f ≡ row (suc d) f ++ row (n - suc d) (λ i. f (suc d + i))
row_split n d f h = ap (λ k. row k f) parts ∙ row-add (suc d) (n - suc d) f
  where
    parts : n ≡ suc d + (n - suc d)
    parts = omega arith

module _ (slots : ℕ) (buffer : List (List ℕ)) (current : ℕ) (storage : length buffer ≡ slots)
    (current_in : current < slots) where
  -- The index `d` places ahead of the current one.
  abbrev pub place : ℕ → ℕ
  place d = (current + d) % slots

  place_in : (d : ℕ) → place d < length buffer
  place_in d = rw storage (mod-lt (current + d) (omega arith))

  pub ahead-set_self : (d : ℕ) (l : List ℕ) → ahead slots (set buffer (place d) l) current d ≡ l
  ahead-set_self d l = get_or-set_self buffer (place d) l [] (place_in d)

  pub ahead-set_ne :
      (d e : ℕ) (l : List ℕ)
      → d < slots
      → e < slots
      → d ≢ e
      → ahead slots (set buffer (place d) l) current e ≡ ahead slots buffer current e
  ahead-set_ne d e l hd he ne =
      get_or-set_ne buffer (place d) (place e) l []
        (mod_injective slots current d e current_in hd he ne)

  -- The row seen from the place `d` ahead, after the list there was replaced.
  module _ (d : ℕ) (hd : d < slots) (rest : List ℕ) where
    unfoldable pub turned : ℕ → List ℕ
    turned = ahead slots (set buffer (place d) rest) (place d)

    turned_place : (e : ℕ) → (place d + e) % slots ≡ place (d + e)
    turned_place e = mod-add-mod (current + d) slots e ∙ ap (λ n. n % slots) (omega arith)

    turned-zero : turned 0 ≡ rest
    unfolding turned
    turned-zero =
        ap (λ i. get_or (set buffer (place d) rest) i []) (turned_place 0 ∙ ap place (omega arith))
        ∙ ahead-set_self d rest

    turned_near :
        (i : ℕ) → i < slots - suc d → turned (suc i) ≡ ahead slots buffer current (suc d + i)
    unfolding turned
    turned_near i h =
        ap (λ i. get_or (set buffer (place d) rest) i [])
          (turned_place (suc i) ∙ ap place {y = suc d + i} (omega arith))
        ∙ ahead-set_ne d (suc d + i) rest hd (omega arith) (omega arith)

    turned_round : (i : ℕ) → i < d → turned (slots - d + i) ≡ ahead slots buffer current i
    unfolding turned
    turned_round i h =
        ap (λ i. get_or (set buffer (place d) rest) i [])
          (turned_place (slots - d + i)
            ∙ ap (λ n. n % slots) {y = current + i + slots} (omega arith)
            ∙ add-mod_right (current + i) slots)
        ∙ ahead-set_ne d i rest hd (omega arith) (omega arith)

    pub row-turned :
        ((j : ℕ) → j < d → ahead slots buffer current j ≡ [])
        → row slots turned
          ≡ rest ++ row (slots - suc d) (λ i. ahead slots buffer current (suc d + i))
    row-turned empty =
        ap (λ n. row n turned) {y = suc (slots - suc d) + d} (omega arith)
        ∙ row-add (suc (slots - suc d)) d turned
        ∙ ap₂ ◌++◌
            (row-suc_left (slots - suc d) turned
              ∙ ap₂ ◌++◌ turned-zero (
                  row_ext (slots - suc d) (λ i. turned (suc i))
                    (λ i. ahead slots buffer current (suc d + i)) turned_near))
            (row_empty d (λ i. turned (suc (slots - suc d) + i))
              (λ i lt.
                ap turned {y = slots - d + i} (omega arith) ∙ turned_round i lt ∙ empty i lt))
        ∙ append-nil (rest ++ row (slots - suc d) (λ i. ahead slots buffer current (suc d + i)))
