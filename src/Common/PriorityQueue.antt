-- ===== src/Common/PriorityQueue.antt =====
-- `PriorityQueue<T>` of Kernel/Common/PriorityQueue.h, over the sequence that `Common::List` is.
-- `gt` is the element type's `operator>`; it is the section's parameter, and the laws that the
-- queue needs of it are those of `StrictOrder`.
pub mod Order
mod Tests
use xp_os.Prelude.{ℕ, zero, suc, Bool, Option, none, some, List, [], ◌∷◌, if◌then◌else◌, length}

-- `m_list.insert(it, element)`, for the iterator at position `i`.
unfoldable pub insert_at {ℓ} : {A : Type ℓ} → ℕ → A → List A → List A
insert_at zero a xs = a ∷ xs
insert_at (suc i) a [] = a ∷ []
insert_at (suc i) a (x ∷ xs) = x ∷ insert_at i a xs

module _ {ℓ} {T : Type ℓ} (gt : T → T → Bool) where
  -- The position of the first element that `element` exceeds, or the end.
  unfoldable pub get_insert_iterator : T → List T → ℕ
  get_insert_iterator element [] = 0
  get_insert_iterator element (x ∷ xs) =
      let later = suc (get_insert_iterator element xs) in if gt element x then 0 else later

  unfoldable pub push : T → List T → List T
  unfolding get_insert_iterator insert_at
  push element xs = insert_at (get_insert_iterator element xs) element xs

-- `*m_list.begin()`, which the code reads without a test; `none` is that of an empty list.
unfoldable pub top {ℓ} : {T : Type ℓ} → List T → Option T
top [] = none
top (x ∷ xs) = some x

unfoldable pub pop {ℓ} : {T : Type ℓ} → List T → List T
pop [] = []
pop (x ∷ xs) = xs

unfoldable pub size {ℓ} : {T : Type ℓ} → List T → ℕ
size xs = length xs
