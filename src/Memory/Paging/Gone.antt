-- ===== src/Memory/Paging/Gone.antt =====
-- What unmapping does above a table: at most one entry changes, and a lookup that finds nothing in the
-- table finds nothing from above.
use xp_os.Prelude.{ℕ, ◌≡◌, refl, ◌∙◌, Bool, true, false, ◌&&◌, ◌==◌, arith, Bool-cases, inl, inr}
use xp_os.Memory.Paging.{
  MemoryManager, points_to_table, free_table, pml4_index, pdpt_index, directory_index, page_lookup,
  directory_lookup, pdpt_lookup, get_physical_address,
}
use xp_os.Memory.Paging.Unmap.{after_child}
use xp_os.Memory.Paging.Lookup.{pml4_step, pdpt_step, directory_step}
use xp_os.Memory.Paging.Walk.{directory_absent, pdpt_absent, pml4_absent}

pub here : (a b : ℕ) → ((a == a) && (b == b)) ≡ true
here a b = ground arith

pub elsewhere : (a b : Bool) → a ≡ false → (a && b) ≡ false
elsewhere a b h = rw h refl

-- What happens above a table changes one entry at most.
pub after_child-other :
    (t i : ℕ) (empty : Bool) (m : MemoryManager) (u j : ℕ)
    → (u == t) ≡ false
    → (after_child t i (empty, m)).entry u j ≡ m.entry u j
unfolding free_table
after_child-other t i false m u j h = refl
after_child-other t i true m u j h = elim (Bool-cases (points_to_table (m.entry t i))) [
  | inl p ↦ rw (p, elsewhere (u == t) (j == i) h) refl
  | inr p ↦ rw p refl
]

freed_absent :
    (t i : ℕ) (m : MemoryManager)
    → points_to_table (m.entry t i) ≡ true
    → ((after_child t i (true, m)).entry t i).present ≡ false
unfolding free_table
freed_absent t i m p = rw (p, here t i) refl

-- The lookup finds nothing below a table whose child finds nothing.
module _ (a : ℕ) (m : MemoryManager) (t : ℕ) (empty : Bool) where
  pub directory_gone :
      points_to_table (m.entry t (directory_index a)) ≡ true
      → page_lookup (m.entry t (directory_index a)).frame a m ≡ 0
      → directory_lookup t a (after_child t (directory_index a) (empty, m)) ≡ 0
  directory_gone p h =
      elim empty as (λ b. directory_lookup t a (after_child t (directory_index a) (b, m)) ≡ 0) [
        | true ↦
            directory_absent (after_child t (directory_index a) (true, m)) t a
              (freed_absent t (directory_index a) m p)
        | false ↦ directory_step m a t (m.entry t (directory_index a)) refl p ∙ h
      ]

  pub pdpt_gone :
      points_to_table (m.entry t (pdpt_index a)) ≡ true
      → directory_lookup (m.entry t (pdpt_index a)).frame a m ≡ 0
      → pdpt_lookup t a (after_child t (pdpt_index a) (empty, m)) ≡ 0
  pdpt_gone p h = elim empty as (λ b. pdpt_lookup t a (after_child t (pdpt_index a) (b, m)) ≡ 0) [
    | true ↦
        pdpt_absent (after_child t (pdpt_index a) (true, m)) t a (freed_absent t (pdpt_index a) m p)
    | false ↦ pdpt_step m a t (m.entry t (pdpt_index a)) refl p ∙ h
  ]

  pub pml4_gone :
      points_to_table (m.entry t (pml4_index a)) ≡ true
      → pdpt_lookup (m.entry t (pml4_index a)).frame a m ≡ 0
      → get_physical_address a t (after_child t (pml4_index a) (empty, m)) ≡ 0
  pml4_gone p h =
      elim empty as (λ b. get_physical_address a t (after_child t (pml4_index a) (b, m)) ≡ 0) [
        | true ↦
            pml4_absent (after_child t (pml4_index a) (true, m)) t a
              (freed_absent t (pml4_index a) m p)
        | false ↦ pml4_step m a t (m.entry t (pml4_index a)) refl p ∙ h
      ]
