-- ===== src/Memory/Paging/Tests.antt =====
-- An address space whose PML4 table is block 1 and empty.
use xp_os.Prelude.{
  ℕ, ◌/◌, ◌≡◌, ◌≢◌, refl, true, false, Option, none, some, List, [], ◌∷◌, ◌==◌, ap, Bool-cases, inl,
  inr, ==→eq, if◌then◌else◌, arith,
}
use xp_os.Memory.Bitmap.{first_unset, first_clear, clear_bit}
use xp_os.Memory.Bitmap.Bits.{used}
use xp_os.Memory.Paging.{
  empty_entry, MemoryManager, VirtualMemoryMapRequest, page_4kib, request_virtual_map,
  get_physical_address, prepare_table_for_entry, pdpt_map, directory_map, page_map, pml4_index,
  pdpt_index,
}
use xp_os.Memory.Physical.{alloc_physical_block}
use xp_os.Memory.Paging.Walk.{HasNoLargePage}
use xp_os.Memory.Paging.Others.{map_keeps_others}
use xp_os.Memory.Paging.PageNumber.{page_number}
use xp_os.Memory.Paging.Tables.{IsTree}
use xp_os.Memory.Paging.Translate.{Translated, request_virtual_map_lem}

abbrev empty_space : MemoryManager
empty_space = record {
  entry = λ t i. empty_entry;
  blocks = record { bitmap = 0x03 ∷ 0x00 ∷ []; bitmap_size = 2 };
}

abbrev trail : ℕ → Option (List ℕ)
trail t = if t == 0x1000 then some [] else none

no_trail : (t : ℕ) → (t == 0x1000) ≡ false → trail t ≡ none
no_trail t h = rw h refl

only_root : (t : ℕ) (is : List ℕ) → trail t ≡ some is → t ≡ 0x1000
only_root t is h = elim (Bool-cases (t == 0x1000)) [
  | inl e ↦ ==→eq t 0x1000 e
  | inr e ↦ cc (h, no_trail t e)
]

empty_space-IsTree : IsTree empty_space trail
unfolding used
empty_space-IsTree = record {
  blocks_valid = record { sized = refl; bytes = (omega arith, (omega arith, tt)) };
  first_used = refl;
  table_used = λ t is h. ap (λ u. used empty_space.blocks (u / 0x1000)) (only_root t is h);
  child = λ t i is h lt p. cc p;
}

abbrev request : VirtualMemoryMapRequest
request = record {
  physical_address = 0x9000;
  virtual_address = 0x40005000;
  allow_write = true;
  allow_user_access = false;
  request_size = page_4kib;
}

request_virtual_map_lem_example :
    Translated request 0x1000 empty_space trail (request_virtual_map request 0x1000 empty_space)
request_virtual_map_lem_example =
    request_virtual_map_lem request 0x1000 empty_space trail empty_space-IsTree refl refl refl

abbrev after : MemoryManager
after = elim (request_virtual_map request 0x1000 empty_space) [ none ↦ empty_space | some m ↦ m ]

empty_space-HasNoLargePage : HasNoLargePage 0x40005000 0x1000 empty_space trail
empty_space-HasNoLargePage = record { top = λ i. refl; pdpt = λ t h. refl; directory = λ t h. refl }

other_page : page_number 0x40006000 ≢ page_number 0x40005000
other_page e = absurd (omega (arith, e))

map_keeps_others_example :
    get_physical_address 0x40006000 0x1000 after
    ≡ get_physical_address 0x40006000 0x1000 empty_space
unfolding request_virtual_map prepare_table_for_entry alloc_physical_block first_unset first_clear
    clear_bit pdpt_map directory_map page_map pml4_index pdpt_index
map_keeps_others_example =
    map_keeps_others request 0x1000 empty_space trail 0x40006000 after empty_space-IsTree refl
      empty_space-HasNoLargePage refl refl other_page refl
