-- ===== src/Memory/Regions.antt =====
-- `RegionableVirtualAddressSpace` of Kernel/Memory/AddressSpace.h and AddressSpace.cpp: the regions
-- of an address space in use, in a list that is kept sorted. Addresses and sizes are 64-bit words;
-- where the code has `int64_t`, a word is read as a signed number.
pub mod Sorted
mod Tests
use xp_os.Prelude.{ℕ, ◌+◌, ◌*◌, ◌/◌, ◌^◌, Bool, ◌==◌, ltb, leb, List, [], ◌∷◌, if◌then◌else◌}
use xp_os.Prelude.Word.{u64, sub64}

pub record MappedRegion : Type 0 where
  pub start : ℕ
  pub end : ℕ

-- `BYTE_ALIGN_UP(x, PAGE_4KiB)`, which clears the low 12 bits of x + 4095.
abbrev pub page_align_up : ℕ → ℕ
page_align_up x = u64 (x + 0xFFF) / 0x1000 * 0x1000

-- `<=` on two words as signed numbers.
unfoldable pub signed_leb : ℕ → ℕ → Bool
signed_leb a b = leb (u64 (a + 2 ^ 63)) (u64 (b + 2 ^ 63))

unfoldable pub insert_region : MappedRegion → List MappedRegion → List MappedRegion
insert_region region [] = region ∷ []
insert_region region (r ∷ rs) =
    let rest = insert_region region rs in
    if ltb r.start region.start then r ∷ rest else region ∷ r ∷ rs

unfoldable pub extract_region : ℕ → List MappedRegion → MappedRegion × List MappedRegion
extract_region at [] = (record { start = 0; end = 0 }, [])
extract_region at (r ∷ rs) =
    let rest = extract_region at rs in if r.start == at then (r, rs) else (rest.0, r ∷ rest.1)

-- The loop of `acquire_available_region`, whose test compares the size with the difference of two
-- pointers.
unfoldable pub region_begin : ℕ → ℕ → List MappedRegion → ℕ
unfolding signed_leb
region_begin size begin [] = begin
region_begin size begin (r ∷ []) = r.end
region_begin size begin (r ∷ next ∷ rs) =
    region_begin size (if signed_leb size (sub64 next.start r.end) then r.end else begin)
      (next ∷ rs)

unfoldable pub acquire_available_region : ℕ → List MappedRegion → MappedRegion × List MappedRegion
acquire_available_region size regions =
    let aligned = page_align_up size in
    let begin = region_begin aligned 0x1000 regions in
    let region : MappedRegion = record { start = begin; end = u64 (begin + aligned) } in
    (region, insert_region region regions)
