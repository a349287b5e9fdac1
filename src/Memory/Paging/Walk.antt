-- ===== src/Memory/Paging/Walk.antt =====
-- Lookups from one table in two states of the memory, in an empty table, and through an entry that is
-- not present.
use xp_os.Prelude.{
  ℕ, ◌≡◌, refl, sym, ◌∙◌, Bool, true, false, not, ◌&&◌, Option, some, List, [], ◌∷◌, arith,
  if◌then◌else◌, Bool-cases, inl, inr,
}
use xp_os.Memory.Paging.{
  GenericEntry, empty_entry, MemoryManager, points_to_table, pml4_index, pdpt_index,
  directory_index, page_index, page_lookup, directory_lookup, pdpt_lookup, get_physical_address,
}
use xp_os.Memory.Paging.Tables.{IsTree}
use xp_os.Memory.Paging.Lookup.{pdpt_step, directory_step}

-- An entry maps a large page.
abbrev pub maps_large_page : GenericEntry → Bool
maps_large_page e = e.present && e.page_size

-- No large page stands on the way to an address, nor anywhere in the PML4 table.
pub record HasNoLargePage (address : ℕ) (space : ℕ) (m : MemoryManager)
    (trail : ℕ → Option (List ℕ)) : Type 0 where
  pub top : (i : ℕ) → (m.entry space i).page_size ≡ false
  pub pdpt :
      (t : ℕ)
      → trail t ≡ some (pml4_index address ∷ [])
      → maps_large_page (m.entry t (pdpt_index address)) ≡ false
  pub directory :
      (t : ℕ)
      → trail t ≡ some (pdpt_index address ∷ pml4_index address ∷ [])
      → maps_large_page (m.entry t (directory_index address)) ≡ false

pub large_at : (e : GenericEntry) → e.page_size ≡ false → maps_large_page e ≡ false
large_at e h = ground arith

-- Without a table below, a lookup does not look at one.
no_table_below :
    (present large : Bool) (found x y : ℕ)
    → (present && not large) ≡ false
    → (if not present then 0 else (if large then found else x))
      ≡ (if not present then 0 else (if large then found else y))
no_table_below true true found x y h = refl
no_table_below true false found x y h = cc h
no_table_below false large found x y h = refl

pub not_present :
    (e : GenericEntry) → points_to_table e ≡ false → maps_large_page e ≡ false → e.present ≡ false
not_present e h k = ground arith

-- Lookups from a table of the tree in two states that agree on the entries on their way.
module _ (m m' : MemoryManager) (trail : ℕ → Option (List ℕ)) (tree : IsTree m trail) (a : ℕ) where
  pub page_same :
      (u : ℕ)
      → m'.entry u (page_index a) ≡ m.entry u (page_index a)
      → page_lookup u a m' ≡ page_lookup u a m
  unfolding page_lookup
  page_same u h = rw h refl

  pub directory_same :
      (u x y : ℕ)
      → trail u ≡ some (x ∷ y ∷ [])
      → m'.entry u (directory_index a) ≡ m.entry u (directory_index a)
      → ((v : ℕ)
          → trail v ≡ some (directory_index a ∷ x ∷ y ∷ [])
          → m'.entry v (page_index a) ≡ m.entry v (page_index a))
      → directory_lookup u a m' ≡ directory_lookup u a m
  unfolding directory_lookup
  directory_same u x y at h k =
      elim (Bool-cases (points_to_table (m.entry u (directory_index a)))) [
        | inl p ↦
            let e = m.entry u (directory_index a) in
            directory_step m' a u e h p
            ∙ page_same e.frame
                (k e.frame (tree.child u (directory_index a) (x ∷ y ∷ []) at (omega arith) p))
            ∙ sym (directory_step m a u e refl p)
        | inr p ↦
            let e = m.entry u (directory_index a) in
            rw h (
              no_table_below e.present e.page_size e.frame (page_lookup e.frame a m')
                (page_lookup e.frame a m) p)
      ]

  pub pdpt_same :
      (u y : ℕ)
      → trail u ≡ some (y ∷ [])
      → m'.entry u (pdpt_index a) ≡ m.entry u (pdpt_index a)
      → ((v : ℕ)
          → trail v ≡ some (pdpt_index a ∷ y ∷ [])
          → m'.entry v (directory_index a) ≡ m.entry v (directory_index a))
      → ((v : ℕ)
          → trail v ≡ some (directory_index a ∷ pdpt_index a ∷ y ∷ [])
          → m'.entry v (page_index a) ≡ m.entry v (page_index a))
      → pdpt_lookup u a m' ≡ pdpt_lookup u a m
  unfolding pdpt_lookup
  pdpt_same u y at h k2 k1 = elim (Bool-cases (points_to_table (m.entry u (pdpt_index a)))) [
    | inl p ↦
        let e = m.entry u (pdpt_index a) in
        let below = tree.child u (pdpt_index a) (y ∷ []) at (omega arith) p in
        pdpt_step m' a u e h p
        ∙ directory_same e.frame (pdpt_index a) y below (k2 e.frame below) k1
        ∙ sym (pdpt_step m a u e refl p)
    | inr p ↦
        let e = m.entry u (pdpt_index a) in
        rw h (
          no_table_below e.present e.page_size e.frame (directory_lookup e.frame a m')
            (directory_lookup e.frame a m) p)
  ]

-- Lookups in an empty table.
module _ (m : MemoryManager) (t : ℕ) (a : ℕ) (empty : (j : ℕ) → m.entry t j ≡ empty_entry) where
  pub page_empty : page_lookup t a m ≡ 0
  unfolding page_lookup
  page_empty = rw (empty (page_index a)) refl

  pub directory_empty : directory_lookup t a m ≡ 0
  unfolding directory_lookup
  directory_empty = rw (empty (directory_index a)) refl

  pub pdpt_empty : pdpt_lookup t a m ≡ 0
  unfolding pdpt_lookup
  pdpt_empty = rw (empty (pdpt_index a)) refl

-- Lookups through an entry that is not present.
module _ (m : MemoryManager) (t : ℕ) (a : ℕ) where
  pub directory_absent :
      (m.entry t (directory_index a)).present ≡ false → directory_lookup t a m ≡ 0
  unfolding directory_lookup
  directory_absent h = rw h refl

  pub pdpt_absent : (m.entry t (pdpt_index a)).present ≡ false → pdpt_lookup t a m ≡ 0
  unfolding pdpt_lookup
  pdpt_absent h = rw h refl

  pub pml4_absent : (m.entry t (pml4_index a)).present ≡ false → get_physical_address a t m ≡ 0
  unfolding get_physical_address
  pml4_absent h = rw h refl
