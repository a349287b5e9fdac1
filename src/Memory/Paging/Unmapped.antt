-- ===== src/Memory/Paging/Unmapped.antt =====
-- An address that is unmapped is found no more.
mod Tests
use xp_os.Prelude.{
  ℕ, ◌<◌, ◌≡◌, ◌≢◌, refl, ap, sym, ◌∙◌, Bool, true, false, not, ◌&&◌, ◌==◌, Option, none, some,
  List, [], ◌∷◌, if◌then◌else◌, arith, Bool-cases, inl, inr, ==→eq, ==→ne, ne→==,
}
use xp_os.Memory.Paging.{
  GenericEntry, empty_entry, MemoryManager, page_4kib, set_entry, points_to_table, free_table,
  pml4_index, pdpt_index, directory_index, page_index, page_lookup, directory_lookup, pdpt_lookup,
  get_physical_address,
}
use xp_os.Memory.Paging.Unmap.{
  VirtualMemoryUnmapRequest, clear_entry, after_child, page_unmap, directory_unmap, pdpt_unmap,
  request_virtual_unmap, is_table_empty,
}
use xp_os.Memory.Paging.Tables.{IsTree}
use xp_os.Memory.Paging.Lookup.{apart, is_present, pml4_step, pdpt_step, directory_step}
use xp_os.Memory.Paging.Walk.{
  HasNoLargePage, large_at, not_present, directory_absent, pdpt_absent, pml4_absent,
}
use xp_os.Memory.Paging.Gone.{
  here, elsewhere, after_child-other, directory_gone, pdpt_gone, pml4_gone,
}

abbrev pub unmap_page : ℕ → VirtualMemoryUnmapRequest
unmap_page a = record { unmap_address = a; unmap_size = page_4kib }

page_frame :
    (a t : ℕ) (m : MemoryManager)
    → page_lookup t a m ≢ 0
    → ((m.entry t (page_index a)).frame == 0) ≡ false
unfolding page_lookup
page_frame a t m h =
    ne→== (m.entry t (page_index a)).frame 0 (λ e. h (no_frame (m.entry t (page_index a)) e))
  where
    no_frame : (e : GenericEntry) → e.frame ≡ 0 → (if not e.present then 0 else e.frame) ≡ 0
    no_frame e h = ground arith

module _ (a : ℕ) (space : ℕ) (m : MemoryManager) (trail : ℕ → Option (List ℕ))
    (tree : IsTree m trail) (at : trail space ≡ some [])
    (none_large : HasNoLargePage a space m trail) (found : get_physical_address a space m ≢ 0) where
  abbrev i4 : ℕ
  i4 = pml4_index a

  abbrev i3 : ℕ
  i3 = pdpt_index a

  abbrev i2 : ℕ
  i2 = directory_index a

  abbrev i1 : ℕ
  i1 = page_index a

  abbrev t3 : ℕ
  t3 = (m.entry space i4).frame

  abbrev t2 : ℕ
  t2 = (m.entry t3 i3).frame

  abbrev t1 : ℕ
  t1 = (m.entry t2 i2).frame

  points4 : points_to_table (m.entry space i4) ≡ true
  points4 = elim (Bool-cases (points_to_table (m.entry space i4))) [
    | inl p ↦ p
    | inr p ↦ absurd (
        found (
          pml4_absent m space a
            (not_present (m.entry space i4) p (large_at (m.entry space i4) (none_large.top i4)))))
  ]

  t3_at : trail t3 ≡ some (i4 ∷ [])
  t3_at = tree.child space i4 [] at (omega arith) points4

  found3 : pdpt_lookup t3 a m ≢ 0
  found3 e = found (pml4_step m a space (m.entry space i4) refl points4 ∙ e)

  points3 : points_to_table (m.entry t3 i3) ≡ true
  points3 = elim (Bool-cases (points_to_table (m.entry t3 i3))) [
    | inl p ↦ p
    | inr p ↦
        absurd
          (found3 (pdpt_absent m t3 a (not_present (m.entry t3 i3) p (none_large.pdpt t3 t3_at))))
  ]

  t2_at : trail t2 ≡ some (i3 ∷ i4 ∷ [])
  t2_at = tree.child t3 i3 (i4 ∷ []) t3_at (omega arith) points3

  found2 : directory_lookup t2 a m ≢ 0
  found2 e = found3 (pdpt_step m a t3 (m.entry t3 i3) refl points3 ∙ e)

  points2 : points_to_table (m.entry t2 i2) ≡ true
  points2 = elim (Bool-cases (points_to_table (m.entry t2 i2))) [
    | inl p ↦ p
    | inr p ↦ absurd (
        found2
          (directory_absent m t2 a (not_present (m.entry t2 i2) p (none_large.directory t2 t2_at))))
  ]

  t1_at : trail t1 ≡ some (i2 ∷ i3 ∷ i4 ∷ [])
  t1_at = tree.child t2 i2 (i3 ∷ i4 ∷ []) t2_at (omega arith) points2

  found1 : page_lookup t1 a m ≢ 0
  found1 e = found2 (directory_step m a t2 (m.entry t2 i2) refl points2 ∙ e)

  abbrev m1 : MemoryManager
  m1 = set_entry t1 i1 empty_entry m

  abbrev m2 : MemoryManager
  m2 = after_child t2 i2 (is_table_empty t1 m1, m1)

  abbrev m3 : MemoryManager
  m3 = after_child t3 i3 (is_table_empty t2 m2, m2)

  abbrev m4 : MemoryManager
  m4 = after_child space i4 (is_table_empty t3 m3, m3)

  -- The tables above the last one are other tables.
  kept_m1 : (u j : ℕ) → (u == t1) ≡ false → m1.entry u j ≡ m.entry u j
  kept_m1 u j h = rw (elsewhere (u == t1) (j == i1) h) refl

  kept_m2 : (u j : ℕ) → (u == t1) ≡ false → (u == t2) ≡ false → m2.entry u j ≡ m.entry u j
  kept_m2 u j h k = after_child-other t2 i2 (is_table_empty t1 m1) m1 u j k ∙ kept_m1 u j h

  entry2 : m1.entry t2 i2 ≡ m.entry t2 i2
  entry2 =
      kept_m1 t2 i2 (apart trail t2 t1 (i3 ∷ i4 ∷ []) (i2 ∷ i3 ∷ i4 ∷ []) t2_at t1_at (λ e. cc e))

  entry3 : m2.entry t3 i3 ≡ m.entry t3 i3
  entry3 =
      kept_m2 t3 i3 (apart trail t3 t1 (i4 ∷ []) (i2 ∷ i3 ∷ i4 ∷ []) t3_at t1_at (λ e. cc e))
        (apart trail t3 t2 (i4 ∷ []) (i3 ∷ i4 ∷ []) t3_at t2_at (λ e. cc e))

  entry4 : m3.entry space i4 ≡ m.entry space i4
  entry4 =
      after_child-other t3 i3 (is_table_empty t2 m2) m2 space i4
        (apart trail space t3 [] (i4 ∷ []) at t3_at (λ e. cc e))
      ∙ kept_m2 space i4 (apart trail space t1 [] (i2 ∷ i3 ∷ i4 ∷ []) at t1_at (λ e. cc e))
          (apart trail space t2 [] (i3 ∷ i4 ∷ []) at t2_at (λ e. cc e))

  gone1 : page_lookup t1 a m1 ≡ 0
  unfolding page_lookup
  gone1 = rw (here t1 i1) refl

  gone2 : directory_lookup t2 a m2 ≡ 0
  gone2 =
      directory_gone a m1 t2 (is_table_empty t1 m1) (ap points_to_table entry2 ∙ points2)
        (ap (λ e. page_lookup e.frame a m1) entry2 ∙ gone1)

  gone3 : pdpt_lookup t3 a m3 ≡ 0
  gone3 =
      pdpt_gone a m2 t3 (is_table_empty t2 m2) (ap points_to_table entry3 ∙ points3)
        (ap (λ e. directory_lookup e.frame a m2) entry3 ∙ gone2)

  gone4 : get_physical_address a space m4 ≡ 0
  gone4 =
      pml4_gone a m3 space (is_table_empty t3 m3) (ap points_to_table entry4 ∙ points4)
        (ap (λ e. pdpt_lookup e.frame a m3) entry4 ∙ gone3)

  unmaps1 : page_unmap t1 (unmap_page a) m ≡ some (is_table_empty t1 m1, m1)
  unfolding page_unmap
  unmaps1 = rw (page_frame a t1 m found1) refl

  unmaps2 : directory_unmap t2 (unmap_page a) m ≡ some (is_table_empty t2 m2, m2)
  unfolding directory_unmap
  unmaps2 = rw (is_present (m.entry t2 i2) points2, unmaps1) refl

  unmaps3 : pdpt_unmap t3 (unmap_page a) m ≡ some (is_table_empty t3 m3, m3)
  unfolding pdpt_unmap
  unmaps3 = rw (is_present (m.entry t3 i3) points3, unmaps2) refl

  -- Unmapping a page of 4 KiB that a lookup finds does not panic, and a lookup finds it no more; the
  -- tables form a tree, with no large page on the way nor in the PML4 table.
  pub request_virtual_unmap_lem :
      (m' : MemoryManager) × (request_virtual_unmap (unmap_page a) space m ≡ some m')
      × (get_physical_address a space m' ≡ 0)
  unfolding request_virtual_unmap
  request_virtual_unmap_lem = (m4, rw (is_present (m.entry space i4) points4, unmaps3) refl, gone4)
