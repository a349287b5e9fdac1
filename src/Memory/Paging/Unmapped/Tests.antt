-- ===== src/Memory/Paging/Unmapped/Tests.antt =====
-- An address space of four tables, each with one entry in use.
use xp_os.Prelude.{
  ℕ, ◌/◌, ◌<◌, ◌≡◌, ◌≢◌, refl, ap, sym, true, false, Option, none, some, List, [], ◌∷◌, ◌==◌,
  length, if◌then◌else◌, arith, Bool-cases, inl, inr, ==→eq,
}
use mathlib.Core.Path.{subst}
use xp_os.Memory.Bitmap.Bits.{used}
use xp_os.Memory.Paging.{
  GenericEntry, empty_entry, MemoryManager, points_to_table, get_physical_address, pml4_index,
  pdpt_index, directory_index, page_index, pdpt_lookup, directory_lookup, page_lookup,
}
use xp_os.Memory.Paging.Unmap.{request_virtual_unmap}
use xp_os.Memory.Paging.Tables.{IsTree}
use xp_os.Memory.Paging.Walk.{HasNoLargePage, maps_large_page}
use xp_os.Memory.Paging.Unmapped.{unmap_page, request_virtual_unmap_lem}

abbrev pointer : ℕ → GenericEntry
pointer t = record {
  frame = t;
  present = true;
  writeable = false;
  user_access = false;
  page_size = false;
}

abbrev first_entry : ℕ → GenericEntry
first_entry t =
    if t == 0x1000
    then pointer 0x2000
    else (if t == 0x2000
        then pointer 0x3000
        else (if t == 0x3000
            then pointer 0x4000
            else (if t == 0x4000 then pointer 0x5000 else empty_entry)))

abbrev memory : MemoryManager
memory = record {
  entry = λ t i. if i == 0 then first_entry t else empty_entry;
  blocks = record { bitmap = 0x3F ∷ []; bitmap_size = 1 };
}

abbrev trail : ℕ → Option (List ℕ)
trail t =
    if t == 0x1000
    then some []
    else (if t == 0x2000
        then some (0 ∷ [])
        else (if t == 0x3000
            then some (0 ∷ 0 ∷ [])
            else (if t == 0x4000 then some (0 ∷ 0 ∷ 0 ∷ []) else none)))

-- What holds of the four tables holds of every table of the tree.
four :
    (P : ℕ → Type 0) (t : ℕ) (is : List ℕ)
    → P 0x1000
    → P 0x2000
    → P 0x3000
    → P 0x4000
    → trail t ≡ some is
    → P t
four P t is p1 p2 p3 p4 h = elim (Bool-cases (t == 0x1000)) [
  | inl e ↦ subst P (sym (==→eq t 0x1000 e)) p1
  | inr e1 ↦ elim (Bool-cases (t == 0x2000)) [
    | inl e ↦ subst P (sym (==→eq t 0x2000 e)) p2
    | inr e2 ↦ elim (Bool-cases (t == 0x3000)) [
      | inl e ↦ subst P (sym (==→eq t 0x3000 e)) p3
      | inr e3 ↦ elim (Bool-cases (t == 0x4000)) [
        | inl e ↦ subst P (sym (==→eq t 0x4000 e)) p4
        | inr e4 ↦ cc (h, nowhere t e1 e2 e3 e4)
      ]
    ]
  ]
]
  where
    nowhere :
        (t : ℕ)
        → (t == 0x1000) ≡ false
        → (t == 0x2000) ≡ false
        → (t == 0x3000) ≡ false
        → (t == 0x4000) ≡ false
        → trail t ≡ none
    nowhere t e1 e2 e3 e4 = rw (e1, e2, e3, e4) refl

abbrev HasChild : ℕ → Type 0
HasChild t =
    (is : List ℕ) → trail t ≡ some is → length is < 3 → trail (first_entry t).frame ≡ some (0 ∷ is)

add_first : Option (List ℕ) → Option (List ℕ)
add_first none = none
add_first (some is) = some (0 ∷ is)

memory-IsTree : IsTree memory trail
unfolding used add_first
memory-IsTree = record {
  blocks_valid = record { sized = refl; bytes = (omega arith, tt) };
  first_used = refl;
  table_used =
      λ t is h. four (λ t. used memory.blocks (t / 0x1000) ≡ true) t is refl refl refl refl h;
  child = λ t i is h low p. child_of t i is h low p;
}
  where
    too_long : (is : List ℕ) → (0 ∷ 0 ∷ 0 ∷ []) ≡ is → length is < 3 → ⊥
    too_long is e low = omega (arith, ap length e, low)

    pointless :
        (t i : ℕ)
        → (i == 0) ≡ false
        → points_to_table (if i == 0 then first_entry t else empty_entry) ≡ false
    pointless t i e = rw e refl

    no_last : (is : List ℕ) → some (0 ∷ 0 ∷ 0 ∷ []) ≡ some is → length is < 3 → ⊥
    no_last is h low = too_long is (cc h) low

    child_of :
        (t i : ℕ) (is : List ℕ)
        → trail t ≡ some is
        → length is < 3
        → points_to_table (if i == 0 then first_entry t else empty_entry) ≡ true
        → trail (if i == 0 then first_entry t else empty_entry).frame ≡ some (i ∷ is)
    child_of t i is h low p = elim (Bool-cases (i == 0)) [
      | inl e ↦ rw (==→eq i 0 e) (
          four HasChild t is (λ _ e _. ap add_first e) (λ _ e _. ap add_first e)
            (λ _ e _. ap add_first e) (λ is e low. absurd (no_last is e low)) h is h low)
      | inr e ↦ cc (p, pointless t i e)
    ]

no_large : (t i : ℕ) → ((memory.entry t i).page_size) ≡ false
no_large t i = elim (Bool-cases (i == 0)) [ inr e ↦ rw e refl | inl e ↦ rw e (first_small t) ]
  where
    first_small : (t : ℕ) → (first_entry t).page_size ≡ false
    first_small t = ground arith

small : (e : GenericEntry) → e.page_size ≡ false → maps_large_page e ≡ false
small e h = ground arith

memory-HasNoLargePage : HasNoLargePage 0x123 0x1000 memory trail
memory-HasNoLargePage = record {
  top = no_large 0x1000;
  pdpt = λ t h. small (memory.entry t (pdpt_index 0x123)) (no_large t (pdpt_index 0x123));
  directory =
      λ t h. small (memory.entry t (directory_index 0x123)) (no_large t (directory_index 0x123));
}

abbrev last_frame : ℕ
last_frame = 0x5000

is_mapped : last_frame ≢ 0
is_mapped e = absurd (omega (arith, e))

request_virtual_unmap_lem_example :
    (after : MemoryManager) × (request_virtual_unmap (unmap_page 0x123) 0x1000 memory ≡ some after)
    × (get_physical_address 0x123 0x1000 after ≡ 0)
unfolding get_physical_address pdpt_lookup directory_lookup page_lookup pml4_index pdpt_index
    directory_index page_index
request_virtual_unmap_lem_example =
    request_virtual_unmap_lem 0x123 0x1000 memory trail memory-IsTree refl memory-HasNoLargePage
      is_mapped
