-- ===== src/Prelude/All.antt =====
-- A property of every element of a list, by recursion, and the order of a list under a relation.
use mathlib.Core.List.{List, [], ◌∷◌, ◌++◌, Memᴰ}
use mathlib.Core.Path.{sym, subst}

abbrev pub All {ℓ κ} : {A : Type ℓ} → (A → Type κ) → List A → Type κ
All P [] = Unit
All P (x ∷ xs) = P x × All P xs

-- Each element stands in the relation to all that follow it.
abbrev pub IsOrdered {ℓ κ} : {A : Type ℓ} → (A → A → Type κ) → List A → Type κ
IsOrdered R [] = Unit
IsOrdered R (x ∷ xs) = All (R x) xs × IsOrdered R xs

module _ {ℓ κ} {A : Type ℓ} where
  pub All-mono : (P Q : A → Type κ) (xs : List A) → ((x : A) → P x → Q x) → All P xs → All Q xs
  All-mono P Q [] f h = tt
  All-mono P Q (x ∷ xs) f h = (f x h.0, All-mono P Q xs f h.1)

  pub All-append : (P : A → Type κ) (xs ys : List A) → All P xs → All P ys → All P (xs ++ ys)
  All-append P [] ys hx hy = hy
  All-append P (x ∷ xs) ys hx hy = (hx.0, All-append P xs ys hx.1 hy)

  pub All_of_mem : (P : A → Type κ) {x : A} {xs : List A} → Memᴰ x xs → All P xs → P x
  All_of_mem P (Memᴰ.head e) h = subst P (sym e) h.0
  All_of_mem P (Memᴰ.tail i) h = All_of_mem P i h.1
