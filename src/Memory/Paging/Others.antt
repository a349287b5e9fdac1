-- ===== src/Memory/Paging/Others.antt =====
-- Mapping a page of 4 KiB keeps the lookups of all other pages.
use xp_os.Prelude.{
  ℕ, ◌≡◌, ◌≢◌, refl, ap, sym, ◌∙◌, true, false, ◌&&◌, ◌==◌, Option, some, List, [], ◌∷◌, arith,
  Bool-cases, inl, inr, ==→eq, ==→ne,
}
use xp_os.Memory.Paging.{
  MemoryManager, VirtualMemoryMapRequest, points_to_table, prepare_page_for_entry, pml4_index,
  pdpt_index, directory_index, page_index, directory_lookup, get_physical_address, page_4kib,
  is_aligned, request_virtual_map,
}
use xp_os.Memory.Paging.Tables.{IsTree}
use xp_os.Memory.Paging.Map.{
  i4, i3, i2, i1, Chain, table3, table2, table1, final, Mapping, few_blocks, mapped,
  request_virtual_map-Mapping,
}
use xp_os.Memory.Paging.Lookup.{
  pml4_step, pdpt_step, directory_step, t3_at, t2_at, kept1, kept2, kept3, kept4,
}
use xp_os.Memory.Paging.Shared.{top_lookup, middle_lookup, last_lookup}
use xp_os.Memory.Paging.Walk.{
  HasNoLargePage, large_at, not_present, page_same, directory_same, pdpt_same, pml4_absent,
}
use xp_os.Memory.Paging.PageNumber.{page_number, same_page}

module _ (request : VirtualMemoryMapRequest) (space : ℕ) (m : MemoryManager)
    (trail : ℕ → Option (List ℕ)) (tree : IsTree m trail) (at : trail space ≡ some [])
    (c : Chain request space m trail)
    (none_large : HasNoLargePage request.virtual_address space m trail) (a : ℕ) where
  abbrev j4 : ℕ
  j4 = i4 request

  abbrev j3 : ℕ
  j3 = i3 request

  abbrev j2 : ℕ
  j2 = i2 request

  abbrev t3 : ℕ
  t3 = table3 request space m trail c

  abbrev t2 : ℕ
  t2 = table2 request space m trail c

  abbrev t1 : ℕ
  t1 = table1 request space m trail c

  abbrev m4 : MemoryManager
  m4 = final request space m trail c

  -- A lookup that leaves the requested page's way at the PML4 table.
  from_first :
      (u j : ℕ) (js : List ℕ)
      → c.first.larger u ≡ some js
      → js ≢ j4 ∷ []
      → js ≢ j3 ∷ j4 ∷ []
      → js ≢ j2 ∷ j3 ∷ j4 ∷ []
      → m4.entry u j ≡ c.m1.entry u j
  from_first u j js h n1 n2 n3 =
      kept4 request space m trail tree at c u j js (c.third.extends u js (c.second.extends u js h))
        n3
      ∙ kept3 request space m trail tree at c u j js (c.second.extends u js h) n2
      ∙ kept2 request space m trail tree at c u j js h n1

  from_start :
      (u j : ℕ) (js : List ℕ)
      → trail u ≡ some js
      → js ≢ []
      → js ≢ j4 ∷ []
      → js ≢ j3 ∷ j4 ∷ []
      → js ≢ j2 ∷ j3 ∷ j4 ∷ []
      → m4.entry u j ≡ m.entry u j
  from_start u j js h n0 n1 n2 n3 =
      from_first u j js (c.first.extends u js h) n1 n2 n3
      ∙ kept1 request space m trail tree at c u j js h n0

  from_second :
      (u j : ℕ) (js : List ℕ)
      → c.second.larger u ≡ some js
      → js ≢ j3 ∷ j4 ∷ []
      → js ≢ j2 ∷ j3 ∷ j4 ∷ []
      → m4.entry u j ≡ c.m2.entry u j
  from_second u j js h n2 n3 =
      kept4 request space m trail tree at c u j js (c.third.extends u js h) n3
      ∙ kept3 request space m trail tree at c u j js h n2

  top_entry : m4.entry space (pml4_index a) ≡ c.m1.entry space (pml4_index a)
  top_entry =
      from_first space (pml4_index a) [] (c.first.extends space [] at) (λ e. cc e) (λ e. cc e)
        (λ e. cc e)

  third_entry : m4.entry t3 (pdpt_index a) ≡ c.m2.entry t3 (pdpt_index a)
  third_entry =
      from_second t3 (pdpt_index a) (j4 ∷ [])
        (c.second.extends t3 (j4 ∷ []) (t3_at request space m trail tree at c)) (λ e. cc e)
        (λ e. cc e)

  second_entry : m4.entry t2 (directory_index a) ≡ c.m3.entry t2 (directory_index a)
  second_entry =
      kept4 request space m trail tree at c t2 (directory_index a) (j3 ∷ j4 ∷ [])
        (c.third.extends t2 (j3 ∷ j4 ∷ []) (t2_at request space m trail tree at c)) (λ e. cc e)

  beside : (t i j : ℕ) → i ≢ j → ((t == t) && (i == j)) ≡ false
  beside t i j h = ground arith

  leave_first : pml4_index a ≢ j4 → get_physical_address a space m4 ≡ get_physical_address a space m
  leave_first ne = elim (Bool-cases (points_to_table (m.entry space (pml4_index a)))) [
    | inl p ↦
        let e = m.entry space (pml4_index a) in
        let below = tree.child space (pml4_index a) [] at (omega arith) p in
        pml4_step m4 a space e same p
        ∙ pdpt_same m m4 trail tree a e.frame (pml4_index a) below
            (from_start e.frame (pdpt_index a) (pml4_index a ∷ []) below (λ e. cc e)
              (λ e. ne (cc e)) (λ e. cc e) (λ e. cc e))
            (λ v k.
              from_start v (directory_index a) (pdpt_index a ∷ pml4_index a ∷ []) k (λ e. cc e)
                (λ e. cc e) (λ e. ne (cc e)) (λ e. cc e))
            (λ v k.
              from_start v (page_index a) (directory_index a ∷ pdpt_index a ∷ pml4_index a ∷ []) k
                (λ e. cc e) (λ e. cc e) (λ e. cc e) (λ e. ne (cc e)))
        ∙ sym (pml4_step m a space e refl p)
    | inr p ↦
        let absent =
          not_present (m.entry space (pml4_index a)) p
            (large_at (m.entry space (pml4_index a)) (none_large.top (pml4_index a))) in
        pml4_absent m4 space a (ap (λ e. e.present) same ∙ absent)
        ∙ sym (pml4_absent m space a absent)
  ]
    where
      same : m4.entry space (pml4_index a) ≡ m.entry space (pml4_index a)
      same = top_entry ∙ c.first.kept space (pml4_index a) [] at (beside space (pml4_index a) j4 ne)

  leave_third :
      pml4_index a ≡ j4
      → pdpt_index a ≢ j3
      → get_physical_address a space m4 ≡ get_physical_address a space m
  leave_third h ne =
      pml4_step m4 a space (c.m1.entry space j4) (top_entry ∙ ap (c.m1.entry space) h)
        c.first.points
      ∙ pdpt_same c.m1 m4 c.first.larger c.first.tree a t3 j4
          (t3_at request space m trail tree at c)
          (third_entry
            ∙ c.second.kept t3 (pdpt_index a) (j4 ∷ []) (t3_at request space m trail tree at c)
                (beside t3 (pdpt_index a) j3 ne))
          (λ v k.
            from_first v (directory_index a) (pdpt_index a ∷ j4 ∷ []) k (λ e. cc e) (λ e. ne (cc e))
              (λ e. cc e))
          (λ v k.
            from_first v (page_index a) (directory_index a ∷ pdpt_index a ∷ j4 ∷ []) k (λ e. cc e)
              (λ e. cc e) (λ e. ne (cc e)))
      ∙ top_lookup request space m trail tree at c none_large a c.first.below h

  to_second :
      pml4_index a ≡ j4
      → pdpt_index a ≡ j3
      → get_physical_address a space m4 ≡ directory_lookup t2 a m4
  to_second h4 h3 =
      pml4_step m4 a space (c.m1.entry space j4) (top_entry ∙ ap (c.m1.entry space) h4)
        c.first.points
      ∙ pdpt_step m4 a t3 (c.m2.entry t3 j3) (third_entry ∙ ap (c.m2.entry t3) h3) c.second.points

  from_second_lookup :
      pml4_index a ≡ j4
      → pdpt_index a ≡ j3
      → directory_lookup t2 a c.m2 ≡ get_physical_address a space m
  from_second_lookup h4 h3 =
      middle_lookup request space m trail tree at c none_large a c.second.below h3
      ∙ top_lookup request space m trail tree at c none_large a c.first.below h4

  leave_second :
      pml4_index a ≡ j4
      → pdpt_index a ≡ j3
      → directory_index a ≢ j2
      → get_physical_address a space m4 ≡ get_physical_address a space m
  leave_second h4 h3 ne =
      to_second h4 h3
      ∙ directory_same c.m2 m4 c.second.larger c.second.tree a t2 j3 j4
          (t2_at request space m trail tree at c)
          (second_entry
            ∙ c.third.kept t2 (directory_index a) (j3 ∷ j4 ∷ [])
                (t2_at request space m trail tree at c) (beside t2 (directory_index a) j2 ne))
          (λ v k.
            from_second v (page_index a) (directory_index a ∷ j3 ∷ j4 ∷ []) k (λ e. cc e)
              (λ e. ne (cc e)))
      ∙ from_second_lookup h4 h3

  last_entry : page_index a ≢ i1 request → m4.entry t1 (page_index a) ≡ c.m3.entry t1 (page_index a)
  unfolding prepare_page_for_entry
  last_entry ne = rw (beside t1 (page_index a) (i1 request) ne) refl

  leave_last :
      pml4_index a ≡ j4
      → pdpt_index a ≡ j3
      → directory_index a ≡ j2
      → page_index a ≢ i1 request
      → get_physical_address a space m4 ≡ get_physical_address a space m
  leave_last h4 h3 h2 ne =
      to_second h4 h3
      ∙ directory_step m4 a t2 (c.m3.entry t2 j2) (second_entry ∙ ap (c.m3.entry t2) h2)
          c.third.points
      ∙ page_same c.m3 m4 c.third.larger c.third.tree a t1 (last_entry ne)
      ∙ last_lookup request space m trail tree at c none_large a c.third.below h2
      ∙ from_second_lookup h4 h3

  different :
      page_number a ≢ page_number request.virtual_address
      → get_physical_address a space m4 ≡ get_physical_address a space m
  different ne = elim (Bool-cases (pml4_index a == j4)) [
    | inr e4 ↦ leave_first (==→ne (pml4_index a) j4 e4)
    | inl e4 ↦ elim (Bool-cases (pdpt_index a == j3)) [
      | inr e3 ↦ leave_third (==→eq (pml4_index a) j4 e4) (==→ne (pdpt_index a) j3 e3)
      | inl e3 ↦ elim (Bool-cases (directory_index a == j2)) [
        | inr e2 ↦
            leave_second (==→eq (pml4_index a) j4 e4) (==→eq (pdpt_index a) j3 e3)
              (==→ne (directory_index a) j2 e2)
        | inl e2 ↦
            leave_last (==→eq (pml4_index a) j4 e4) (==→eq (pdpt_index a) j3 e3)
              (==→eq (directory_index a) j2 e2)
              (λ e1. ne (
                same_page a request.virtual_address (==→eq (pml4_index a) j4 e4)
                  (==→eq (pdpt_index a) j3 e3) (==→eq (directory_index a) j2 e2) e1))
      ]
    ]
  ]

module _ (request : VirtualMemoryMapRequest) (space : ℕ) (m : MemoryManager)
    (trail : ℕ → Option (List ℕ)) where
  kept_outcome :
      (a : ℕ) (m' : MemoryManager) (o : Option MemoryManager)
      → IsTree m trail
      → trail space ≡ some []
      → HasNoLargePage request.virtual_address space m trail
      → page_number a ≢ page_number request.virtual_address
      → Mapping request space m trail o
      → o ≡ some m'
      → get_physical_address a space m' ≡ get_physical_address a space m
  kept_outcome a m' _ tree at small ne (few_blocks _ _ _) e = cc e
  kept_outcome a m' _ tree at small ne (mapped c) e =
      ap (get_physical_address a space) (cc e)
      ∙ different request space m trail tree at c small a ne

  -- Mapping a page of 4 KiB keeps the lookups of the addresses of all other pages, in an address
  -- space whose tables form a tree, with no large page on the way to the page nor in the PML4 table.
  pub map_keeps_others :
      (a : ℕ) (m' : MemoryManager)
      → IsTree m trail
      → trail space ≡ some []
      → HasNoLargePage request.virtual_address space m trail
      → request.request_size ≡ page_4kib
      → is_aligned request 0x1000 ≡ true
      → page_number a ≢ page_number request.virtual_address
      → request_virtual_map request space m ≡ some m'
      → get_physical_address a space m' ≡ get_physical_address a space m
  map_keeps_others a m' tree at none_large small aligned ne e =
      kept_outcome a m' (request_virtual_map request space m) tree at none_large ne
        (request_virtual_map-Mapping request space m trail tree at small aligned) e
