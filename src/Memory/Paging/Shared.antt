-- ===== src/Memory/Paging/Shared.antt =====
-- Lookups of another page along the way that it shares with the page of 4 KiB that is mapped.
use xp_os.Prelude.{ℕ, ◌≡◌, ap, sym, ◌∙◌, false, Option, some, List, [], ◌∷◌, arith}
use xp_os.Memory.Paging.{
  MemoryManager, VirtualMemoryMapRequest, points_to_table, pml4_index, pdpt_index, directory_index,
  page_index, page_lookup, directory_lookup, pdpt_lookup, get_physical_address,
}
use xp_os.Memory.Paging.Tables.{IsTree}
use xp_os.Memory.Paging.Prepare.{Below, old_table, new_table}
use xp_os.Memory.Paging.Map.{i4, i3, i2, Chain, table3, table2, table1, final}
use xp_os.Memory.Paging.Lookup.{
  pml4_step, pdpt_step, directory_step, t3_at, t2_at, kept1, kept2, kept3,
}
use xp_os.Memory.Paging.Walk.{
  maps_large_page, HasNoLargePage, large_at, not_present, page_same, directory_same, pdpt_same,
  page_empty, directory_empty, pdpt_empty, directory_absent, pdpt_absent, pml4_absent,
}

module _ (request : VirtualMemoryMapRequest) (space : ℕ) (m : MemoryManager)
    (trail : ℕ → Option (List ℕ)) (tree : IsTree m trail) (at : trail space ≡ some [])
    (c : Chain request space m trail)
    (none_large : HasNoLargePage request.virtual_address space m trail) (a : ℕ) where
  abbrev j4 : ℕ
  j4 = i4 request

  abbrev j3 : ℕ
  j3 = i3 request

  abbrev j2 : ℕ
  j2 = i2 request

  abbrev t3 : ℕ
  t3 = table3 request space m trail c

  abbrev t2 : ℕ
  t2 = table2 request space m trail c

  abbrev t1 : ℕ
  t1 = table1 request space m trail c

  abbrev m4 : MemoryManager
  m4 = final request space m trail c

  pub top_lookup :
      Below m c.m1 space j4
      → pml4_index a ≡ j4
      → pdpt_lookup t3 a c.m1 ≡ get_physical_address a space m
  top_lookup (old_table p same) h =
      pdpt_same m c.m1 trail tree a t3 j4 t3_old
        (kept1 request space m trail tree at c t3 (pdpt_index a) (j4 ∷ []) t3_old (λ e. cc e))
        (λ v k.
          kept1 request space m trail tree at c v (directory_index a) (pdpt_index a ∷ j4 ∷ []) k
            (λ e. cc e))
        (λ v k.
          kept1 request space m trail tree at c v (page_index a)
            (directory_index a ∷ pdpt_index a ∷ j4 ∷ []) k (λ e. cc e))
      ∙ ap (λ t. pdpt_lookup t a m) same
      ∙ sym (pml4_step m a space (m.entry space j4) (ap (m.entry space) h) p)
    where
      t3_old : trail t3 ≡ some (j4 ∷ [])
      t3_old = ap trail same ∙ tree.child space j4 [] at (omega arith) p
  top_lookup (new_table p empty) h =
      pdpt_empty c.m1 t3 a empty
      ∙ sym (
          pml4_absent m space a (
            ap (λ i. (m.entry space i).present) h
            ∙ not_present (m.entry space j4) p (large_at (m.entry space j4) (none_large.top j4))))

  third_small : Below m c.m1 space j4 → maps_large_page (c.m1.entry t3 j3) ≡ false
  third_small (old_table p same) =
      let t3_old = ap trail same ∙ tree.child space j4 [] at (omega arith) p in
      ap maps_large_page (kept1 request space m trail tree at c t3 j3 (j4 ∷ []) t3_old (λ e. cc e))
      ∙ none_large.pdpt t3 t3_old
  third_small (new_table p empty) = ap maps_large_page (empty j3)

  pub middle_lookup :
      Below c.m1 c.m2 t3 j3 → pdpt_index a ≡ j3 → directory_lookup t2 a c.m2 ≡ pdpt_lookup t3 a c.m1
  middle_lookup (old_table p same) h =
      directory_same c.m1 c.m2 c.first.larger c.first.tree a t2 j3 j4 t2_old
        (kept2 request space m trail tree at c t2 (directory_index a) (j3 ∷ j4 ∷ []) t2_old
          (λ e. cc e))
        (λ v k.
          kept2 request space m trail tree at c v (page_index a) (directory_index a ∷ j3 ∷ j4 ∷ [])
            k (λ e. cc e))
      ∙ ap (λ t. directory_lookup t a c.m1) same
      ∙ sym (pdpt_step c.m1 a t3 (c.m1.entry t3 j3) (ap (c.m1.entry t3) h) p)
    where
      t2_old : c.first.larger t2 ≡ some (j3 ∷ j4 ∷ [])
      t2_old =
          ap c.first.larger same
          ∙ c.first.tree.child t3 j3 (j4 ∷ []) (t3_at request space m trail tree at c) (omega arith)
              p
  middle_lookup (new_table p empty) h =
      directory_empty c.m2 t2 a empty
      ∙ sym (
          pdpt_absent c.m1 t3 a (
            ap (λ i. (c.m1.entry t3 i).present) h
            ∙ not_present (c.m1.entry t3 j3) p (third_small c.first.below)))

  second_small :
      Below c.m1 c.m2 t3 j3 → Below m c.m1 space j4 → maps_large_page (c.m2.entry t2 j2) ≡ false
  second_small (new_table p empty) b = ap maps_large_page (empty j2)
  second_small (old_table p same) (new_table q empty) = cc (p, ap points_to_table (empty j3))
  second_small (old_table p same) (old_table q before) =
      ap maps_large_page
        (kept2 request space m trail tree at c t2 j2 (j3 ∷ j4 ∷ []) t2_first (λ e. cc e))
      ∙ ap maps_large_page
          (kept1 request space m trail tree at c t2 j2 (j3 ∷ j4 ∷ []) t2_old (λ e. cc e))
      ∙ none_large.directory t2 t2_old
    where
      t2_first : c.first.larger t2 ≡ some (j3 ∷ j4 ∷ [])
      t2_first =
          ap c.first.larger same
          ∙ c.first.tree.child t3 j3 (j4 ∷ []) (t3_at request space m trail tree at c) (omega arith)
              p

      t3_old : trail t3 ≡ some (j4 ∷ [])
      t3_old = ap trail before ∙ tree.child space j4 [] at (omega arith) q

      third_kept : c.m1.entry t3 j3 ≡ m.entry t3 j3
      third_kept = kept1 request space m trail tree at c t3 j3 (j4 ∷ []) t3_old (λ e. cc e)

      t2_old : trail t2 ≡ some (j3 ∷ j4 ∷ [])
      t2_old =
          ap trail (same ∙ ap (λ e. e.frame) third_kept)
          ∙ tree.child t3 j3 (j4 ∷ []) t3_old (omega arith)
              (sym (ap points_to_table third_kept) ∙ p)

  pub last_lookup :
      Below c.m2 c.m3 t2 j2
      → directory_index a ≡ j2
      → page_lookup t1 a c.m3 ≡ directory_lookup t2 a c.m2
  last_lookup (old_table p same) h =
      page_same c.m2 c.m3 c.second.larger c.second.tree a t1 (
        kept3 request space m trail tree at c t1 (page_index a) (j2 ∷ j3 ∷ j4 ∷ []) t1_old
          (λ e. cc e))
      ∙ ap (λ t. page_lookup t a c.m2) same
      ∙ sym (directory_step c.m2 a t2 (c.m2.entry t2 j2) (ap (c.m2.entry t2) h) p)
    where
      t1_old : c.second.larger t1 ≡ some (j2 ∷ j3 ∷ j4 ∷ [])
      t1_old =
          ap c.second.larger same
          ∙ c.second.tree.child t2 j2 (j3 ∷ j4 ∷ []) (t2_at request space m trail tree at c)
              (omega arith) p
  last_lookup (new_table p empty) h =
      page_empty c.m3 t1 a empty
      ∙ sym (
          directory_absent c.m2 t2 a (
            ap (λ i. (c.m2.entry t2 i).present) h
            ∙ not_present (c.m2.entry t2 j2) p (second_small c.second.below c.first.below)))
