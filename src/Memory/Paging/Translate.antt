-- ===== src/Memory/Paging/Translate.antt =====
-- Mapping a page of 4 KiB and looking it up.
use xp_os.Prelude.{ℕ, ◌≡◌, true, ◌||◌, ◌==◌, Option, none, some, List, []}
use xp_os.Memory.Bitmap.Bits.{used}
use xp_os.Memory.Paging.{
  MemoryManager, VirtualMemoryMapRequest, page_4kib, is_aligned, request_virtual_map,
  get_physical_address,
}
use xp_os.Memory.Paging.Tables.{IsTree}
use xp_os.Memory.Paging.Map.{Mapping, few_blocks, mapped, final, request_virtual_map-Mapping}
use xp_os.Memory.Paging.Lookup.{final-lookup, final-IsTree}

-- The outcomes of a request: all blocks but two at most are in use and the code panics, or the tables
-- form a larger tree in which a lookup of the page finds the physical address.
pub data Translated (request : VirtualMemoryMapRequest) (space : ℕ) (m : MemoryManager)
    (trail : ℕ → Option (List ℕ)) : Option MemoryManager → Type 0 where
  out_of_blocks :
      (a b : ℕ)
      → ((k : ℕ) → ((k == a) || ((k == b) || used m.blocks k)) ≡ true)
      → Translated request space m trail none
  translated :
      (m' : MemoryManager) (larger : ℕ → Option (List ℕ))
      → IsTree m' larger
      → ((u : ℕ) (js : List ℕ) → trail u ≡ some js → larger u ≡ some js)
      → get_physical_address request.virtual_address space m' ≡ request.physical_address
      → Translated request space m trail (some m')

module _ (request : VirtualMemoryMapRequest) (space : ℕ) (m : MemoryManager)
    (trail : ℕ → Option (List ℕ)) (tree : IsTree m trail) (at : trail space ≡ some []) where
  outcome :
      (o : Option MemoryManager)
      → Mapping request space m trail o
      → Translated request space m trail o
  outcome _ (few_blocks a b f) = out_of_blocks a b f
  outcome _ (mapped c) =
      translated (final request space m trail c) c.third.larger
        (final-IsTree request space m trail tree at c)
        (λ u js e. c.third.extends u js (c.second.extends u js (c.first.extends u js e)))
        (final-lookup request space m trail tree at c)

  -- Mapping an aligned page of 4 KiB, in an address space whose tables form a tree, panics only if no
  -- more than two blocks are free. Else the tables still form a tree, with the old ones in
  -- their places, and the lookup of the page gives the physical address.
  pub request_virtual_map_lem :
      request.request_size ≡ page_4kib
      → is_aligned request 0x1000 ≡ true
      → Translated request space m trail (request_virtual_map request space m)
  request_virtual_map_lem small aligned =
      outcome (request_virtual_map request space m)
        (request_virtual_map-Mapping request space m trail tree at small aligned)
