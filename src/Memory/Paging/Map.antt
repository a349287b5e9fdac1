-- ===== src/Memory/Paging/Map.antt =====
-- Mapping a page of 4 KiB: the tables on its way, and what a lookup finds.
use xp_os.Prelude.{
  ℕ, ◌≡◌, refl, ap, sym, Bool, true, ◌||◌, ◌==◌, Option, none, some, List, [], ◌∷◌, arith,
}
use mathlib.Core.Path.{subst}
use xp_os.Memory.Bitmap.Bits.{used}
use xp_os.Memory.Paging.{
  MemoryManager, VirtualMemoryMapRequest, page_4kib, is_2mib, is_1gib, prepare_table_for_entry,
  prepare_page_for_entry, page_map, directory_map, pdpt_map, request_virtual_map, is_aligned,
  pml4_index, pdpt_index, directory_index, page_index,
}
use xp_os.Memory.Paging.Tables.{IsTree}
use xp_os.Memory.Paging.Prepare.{
  Prepared, Preparation, no_block, prepared, prepare_table_for_entry_lem,
}

abbrev pub i4 : VirtualMemoryMapRequest → ℕ
i4 request = pml4_index request.virtual_address

abbrev pub i3 : VirtualMemoryMapRequest → ℕ
i3 request = pdpt_index request.virtual_address

abbrev pub i2 : VirtualMemoryMapRequest → ℕ
i2 request = directory_index request.virtual_address

abbrev pub i1 : VirtualMemoryMapRequest → ℕ
i1 request = page_index request.virtual_address

module _ (request : VirtualMemoryMapRequest) (space : ℕ) (m : MemoryManager)
    (trail : ℕ → Option (List ℕ)) where
  -- The three preparations in turn, each in the table that the one before leads to.
  pub record Chain : Type 0 where
    pub m1 : MemoryManager
    pub m2 : MemoryManager
    pub m3 : MemoryManager
    pub first : Prepared m m1 trail space (i4 request)
    pub second : Prepared m1 m2 first.larger (m1.entry space (i4 request)).frame (i3 request)
    pub third :
        Prepared m2 m3 second.larger
          (m2.entry (m1.entry space (i4 request)).frame (i3 request)).frame
          (i2 request)

  abbrev pub table3 : Chain → ℕ
  table3 c = (c.m1.entry space (i4 request)).frame

  abbrev pub table2 : Chain → ℕ
  table2 c = (c.m2.entry (table3 c) (i3 request)).frame

  abbrev pub table1 : Chain → ℕ
  table1 c = (c.m3.entry (table2 c) (i2 request)).frame

  abbrev pub final : Chain → MemoryManager
  final c = prepare_page_for_entry (table1 c) (i1 request) request c.m3

  -- The outcomes of mapping a page: all blocks but two are in use and the code panics, or the page
  -- is entered in the last of the tables.
  pub data Mapping : Option MemoryManager → Type 0 where
    few_blocks :
        (a b : ℕ) → ((k : ℕ) → ((k == a) || ((k == b) || used m.blocks k)) ≡ true) → Mapping none
    mapped : (c : Chain) → Mapping (some (final c))

weaken : (p q r : Bool) → (p || r) ≡ true → (p || (q || r)) ≡ true
weaken p q r h = ground arith

-- Two blocks taken, after which all are in use.
both_taken :
    (p q r now : Bool) → (q || now) ≡ true → (now ≡ true → (p || r) ≡ true) → (p || (q || r)) ≡ true
both_taken p q r now h f = ground arith

directory_map-small :
    (t : ℕ) (request : VirtualMemoryMapRequest) (m : MemoryManager)
    → request.request_size ≡ page_4kib
    → directory_map t request m ≡ (elim (prepare_table_for_entry t (i2 request) request m) [
      | none ↦ none
      | some m' ↦ page_map (m'.entry t (i2 request)).frame request m'
    ])
unfolding directory_map
directory_map-small t request m small = rw (ap is_2mib small) refl

pdpt_map-small :
    (t : ℕ) (request : VirtualMemoryMapRequest) (m : MemoryManager)
    → request.request_size ≡ page_4kib
    → pdpt_map t request m ≡ (elim (prepare_table_for_entry t (i3 request) request m) [
      | none ↦ none
      | some m' ↦ directory_map (m'.entry t (i3 request)).frame request m'
    ])
unfolding pdpt_map
pdpt_map-small t request m small = rw (ap is_1gib small) refl

module _ (request : VirtualMemoryMapRequest) (space : ℕ) (m : MemoryManager)
    (trail : ℕ → Option (List ℕ)) (tree : IsTree m trail) (at : trail space ≡ some [])
    (small : request.request_size ≡ page_4kib) (aligned : is_aligned request 0x1000 ≡ true) where
  module _ (m1 : MemoryManager) (p1 : Prepared m m1 trail space (i4 request)) where
    abbrev t3 : ℕ
    t3 = (m1.entry space (i4 request)).frame

    t3_at : p1.larger t3 ≡ some (i4 request ∷ [])
    t3_at = p1.tree.child space (i4 request) [] (p1.extends space [] at) (omega arith) p1.points

    module _ (m2 : MemoryManager) (p2 : Prepared m1 m2 p1.larger t3 (i3 request)) where
      abbrev t2 : ℕ
      t2 = (m2.entry t3 (i3 request)).frame

      t2_at : p2.larger t2 ≡ some (i3 request ∷ i4 request ∷ [])
      t2_at =
          p2.tree.child t3 (i3 request) (i4 request ∷ []) (p2.extends t3 (i4 request ∷ []) t3_at)
            (omega arith) p2.points

      from_directory :
          (o : Option MemoryManager)
          → Preparation m2 p2.larger t2 (i2 request) o
          → Mapping request space m trail (elim o [
            | none ↦ none
            | some m' ↦ page_map (m'.entry t2 (i2 request)).frame request m'
          ])
      unfolding page_map
      from_directory _ (no_block f) = few_blocks p1.fresh p2.fresh (λ k.
          both_taken (k == p1.fresh) (k == p2.fresh) (used m.blocks k) (used m1.blocks k)
            (p2.taken k (f k)) (p1.taken k))
      from_directory _ (prepared m3 p3) =
          rw aligned
            (mapped (record { m1 = m1; m2 = m2; m3 = m3; first = p1; second = p2; third = p3 }))

      directory_map-Mapping : Mapping request space m trail (directory_map t2 request m2)
      unfolding directory_map
      directory_map-Mapping =
          subst (Mapping request space m trail) (sym (directory_map-small t2 request m2 small)) (
            from_directory (prepare_table_for_entry t2 (i2 request) request m2) (
              prepare_table_for_entry_lem request m2 p2.larger t2 (i2 request)
                (i3 request ∷ i4 request ∷ []) p2.tree t2_at (omega arith)))

    from_pdpt :
        (o : Option MemoryManager)
        → Preparation m1 p1.larger t3 (i3 request) o
        → Mapping request space m trail (elim o [
          | none ↦ none
          | some m' ↦ directory_map (m'.entry t3 (i3 request)).frame request m'
        ])
    from_pdpt _ (no_block f) =
        few_blocks p1.fresh 0
          (λ k. weaken (k == p1.fresh) (k == 0) (used m.blocks k) (p1.taken k (f k)))
    from_pdpt _ (prepared m2 p2) = directory_map-Mapping m2 p2

    pdpt_map-Mapping : Mapping request space m trail (pdpt_map t3 request m1)
    unfolding pdpt_map
    pdpt_map-Mapping =
        subst (Mapping request space m trail) (sym (pdpt_map-small t3 request m1 small)) (
          from_pdpt (prepare_table_for_entry t3 (i3 request) request m1) (
            prepare_table_for_entry_lem request m1 p1.larger t3 (i3 request) (i4 request ∷ [])
              p1.tree t3_at (omega arith)))

  from_pml4 :
      (o : Option MemoryManager)
      → Preparation m trail space (i4 request) o
      → Mapping request space m trail (elim o [
        | none ↦ none
        | some m' ↦ pdpt_map (m'.entry space (i4 request)).frame request m'
      ])
  from_pml4 _ (no_block f) = few_blocks 0 0 (λ k. all_in_use (k == 0) (used m.blocks k) (f k))
    where
      all_in_use : (p r : Bool) → r ≡ true → (p || (p || r)) ≡ true
      all_in_use p r h = ground arith
  from_pml4 _ (prepared m1 p1) = pdpt_map-Mapping m1 p1

  pub request_virtual_map-Mapping :
      Mapping request space m trail (request_virtual_map request space m)
  unfolding request_virtual_map
  request_virtual_map-Mapping =
      from_pml4 (prepare_table_for_entry space (i4 request) request m)
        (prepare_table_for_entry_lem request m trail space (i4 request) [] tree at (omega arith))
