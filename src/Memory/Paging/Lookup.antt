-- ===== src/Memory/Paging/Lookup.antt =====
-- What a lookup finds once a page of 4 KiB has been mapped.
use xp_os.Prelude.{
  ℕ, ◌≡◌, ◌≢◌, refl, ◌∙◌, Bool, true, false, ◌&&◌, ◌||◌, ◌==◌, Option, some, List, [], ◌∷◌, arith,
  Bool-cases, inl, inr, ==→eq,
}
use xp_os.Memory.Paging.{
  GenericEntry, MemoryManager, VirtualMemoryMapRequest, set_access_flags, is_large, points_to_table,
  prepare_page_for_entry, pml4_index, pdpt_index, directory_index, page_lookup, directory_lookup,
  pdpt_lookup, get_physical_address,
}
use xp_os.Memory.Paging.Tables.{IsTree, set_entry-IsTree}
use xp_os.Memory.Paging.Map.{i4, i3, i2, i1, Chain, table3, table2, table1, final}

pub apart :
    (trail : ℕ → Option (List ℕ)) (u v : ℕ) (js is : List ℕ)
    → trail u ≡ some js
    → trail v ≡ some is
    → js ≢ is
    → (u == v) ≡ false
apart trail u v js is hu hv ne = elim (Bool-cases (u == v)) [
  | inl h ↦ absurd (ne (cc (hu, hv, ==→eq u v h)))
  | inr h ↦ h
]

and_left : (a b : Bool) → a ≡ false → (a && b) ≡ false
and_left a b h = rw h refl

pub is_present : (e : GenericEntry) → points_to_table e ≡ true → e.present ≡ true
is_present e h = ground arith

is_small : (e : GenericEntry) → points_to_table e ≡ true → e.page_size ≡ false
is_small e h = ground arith

-- One step of a lookup through an entry that points to a table.
pub pml4_step :
    (m : MemoryManager) (address space : ℕ) (e : GenericEntry)
    → m.entry space (pml4_index address) ≡ e
    → points_to_table e ≡ true
    → get_physical_address address space m ≡ pdpt_lookup e.frame address m
unfolding get_physical_address
pml4_step m address space e at h = rw (at, is_present e h) refl

pub pdpt_step :
    (m : MemoryManager) (address t : ℕ) (e : GenericEntry)
    → m.entry t (pdpt_index address) ≡ e
    → points_to_table e ≡ true
    → pdpt_lookup t address m ≡ directory_lookup e.frame address m
unfolding pdpt_lookup
pdpt_step m address t e at h = rw (at, is_present e h, is_small e h) refl

pub directory_step :
    (m : MemoryManager) (address t : ℕ) (e : GenericEntry)
    → m.entry t (directory_index address) ≡ e
    → points_to_table e ≡ true
    → directory_lookup t address m ≡ page_lookup e.frame address m
unfolding directory_lookup
directory_step m address t e at h = rw (at, is_present e h, is_small e h) refl

module _ (request : VirtualMemoryMapRequest) (space : ℕ) (m : MemoryManager)
    (trail : ℕ → Option (List ℕ)) (tree : IsTree m trail) (at : trail space ≡ some [])
    (c : Chain request space m trail) where
  abbrev j4 : ℕ
  j4 = i4 request

  abbrev j3 : ℕ
  j3 = i3 request

  abbrev j2 : ℕ
  j2 = i2 request

  abbrev t3 : ℕ
  t3 = table3 request space m trail c

  abbrev t2 : ℕ
  t2 = table2 request space m trail c

  abbrev t1 : ℕ
  t1 = table1 request space m trail c

  abbrev m4 : MemoryManager
  m4 = final request space m trail c

  pub t3_at : c.first.larger t3 ≡ some (j4 ∷ [])
  t3_at = c.first.tree.child space j4 [] (c.first.extends space [] at) (omega arith) c.first.points

  pub t2_at : c.second.larger t2 ≡ some (j3 ∷ j4 ∷ [])
  t2_at =
      c.second.tree.child t3 j3 (j4 ∷ []) (c.second.extends t3 (j4 ∷ []) t3_at) (omega arith)
        c.second.points

  pub t1_at : c.third.larger t1 ≡ some (j2 ∷ j3 ∷ j4 ∷ [])
  t1_at =
      c.third.tree.child t2 j2 (j3 ∷ j4 ∷ []) (c.third.extends t2 (j3 ∷ j4 ∷ []) t2_at)
        (omega arith) c.third.points

  -- The tables of a later tree that a step leaves alone.
  pub kept1 : (u j : ℕ) (js : List ℕ) → trail u ≡ some js → js ≢ [] → c.m1.entry u j ≡ m.entry u j
  kept1 u j js h ne =
      c.first.kept u j js h (and_left (u == space) (j == j4) (apart trail u space js [] h at ne))

  pub kept2 :
      (u j : ℕ) (js : List ℕ)
      → c.first.larger u ≡ some js
      → js ≢ j4 ∷ []
      → c.m2.entry u j ≡ c.m1.entry u j
  kept2 u j js h ne =
      c.second.kept u j js h
        (and_left (u == t3) (j == j3) (apart c.first.larger u t3 js (j4 ∷ []) h t3_at ne))

  pub kept3 :
      (u j : ℕ) (js : List ℕ)
      → c.second.larger u ≡ some js
      → js ≢ j3 ∷ j4 ∷ []
      → c.m3.entry u j ≡ c.m2.entry u j
  kept3 u j js h ne =
      c.third.kept u j js h
        (and_left (u == t2) (j == j2) (apart c.second.larger u t2 js (j3 ∷ j4 ∷ []) h t2_at ne))

  pub kept4 :
      (u j : ℕ) (js : List ℕ)
      → c.third.larger u ≡ some js
      → js ≢ j2 ∷ j3 ∷ j4 ∷ []
      → m4.entry u j ≡ c.m3.entry u j
  unfolding prepare_page_for_entry
  kept4 u j js h ne =
      rw
        (and_left (u == t1) (j == i1 request)
          (apart c.third.larger u t1 js (j2 ∷ j3 ∷ j4 ∷ []) h t1_at ne))
        refl

  top_entry : m4.entry space j4 ≡ c.m1.entry space j4
  top_entry =
      kept4 space j4 []
        (c.third.extends space [] (c.second.extends space [] (c.first.extends space [] at)))
        (λ e. cc e)
      ∙ kept3 space j4 [] (c.second.extends space [] (c.first.extends space [] at)) (λ e. cc e)
      ∙ kept2 space j4 [] (c.first.extends space [] at) (λ e. cc e)

  third_entry : m4.entry t3 j3 ≡ c.m2.entry t3 j3
  third_entry =
      kept4 t3 j3 (j4 ∷ []) (c.third.extends t3 (j4 ∷ []) (c.second.extends t3 (j4 ∷ []) t3_at))
        (λ e. cc e)
      ∙ kept3 t3 j3 (j4 ∷ []) (c.second.extends t3 (j4 ∷ []) t3_at) (λ e. cc e)

  second_entry : m4.entry t2 j2 ≡ c.m3.entry t2 j2
  second_entry = kept4 t2 j2 (j3 ∷ j4 ∷ []) (c.third.extends t2 (j3 ∷ j4 ∷ []) t2_at) (λ e. cc e)

  here : (a b : ℕ) → ((a == a) && (b == b)) ≡ true
  here a b = ground arith

  last_lookup : page_lookup t1 request.virtual_address m4 ≡ request.physical_address
  unfolding page_lookup prepare_page_for_entry
  last_lookup = rw (here t1 (i1 request)) refl

  pub final-lookup :
      get_physical_address request.virtual_address space m4 ≡ request.physical_address
  final-lookup =
      pml4_step m4 request.virtual_address space (c.m1.entry space j4) top_entry c.first.points
      ∙ pdpt_step m4 request.virtual_address t3 (c.m2.entry t3 j3) third_entry c.second.points
      ∙ directory_step m4 request.virtual_address t2 (c.m3.entry t2 j2) second_entry c.third.points
      ∙ last_lookup

  abbrev page_entry : GenericEntry
  page_entry =
      let e = c.m3.entry t1 (i1 request) in
      set_access_flags request (record e {
        page_size = is_large request.request_size || e.page_size;
        frame = request.physical_address;
      })

  pub final-IsTree : IsTree m4 c.third.larger
  unfolding prepare_page_for_entry
  final-IsTree =
      set_entry-IsTree c.m3 c.third.larger t1 (i1 request) (j2 ∷ j3 ∷ j4 ∷ []) page_entry
        c.third.tree t1_at (λ lt. absurd (omega arith))
