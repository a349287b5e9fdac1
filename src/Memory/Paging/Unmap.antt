-- ===== src/Memory/Paging/Unmap.antt =====
-- Unmapping a page: `request_virtual_unmap` of the four tables in Kernel/Memory/MemoryManager.cpp,
-- and `free_page`. Each of the lower tables also says whether it has become empty.
use xp_os.Prelude.{ℕ, zero, suc, Bool, true, not, ◌&&◌, ◌==◌, Option, none, some, if◌then◌else◌}
use xp_os.Memory.Paging.{
  PageSize, page_4kib, is_2mib, is_1gib, GenericEntry, empty_entry, MemoryManager,
  entries_per_table, pml4_index, pdpt_index, directory_index, page_index, set_entry, free_table,
}

pub record VirtualMemoryUnmapRequest : Type 0 where
  pub unmap_address : ℕ
  pub unmap_size : PageSize

-- `m_entry == 0`
abbrev pub is_zero : GenericEntry → Bool
is_zero e =
    (e.frame == 0) && not e.present && not e.writeable && not e.user_access && not e.page_size

-- The loop over `n` entries; their order does not matter to the answer.
unfoldable pub entries_empty : (ℕ → GenericEntry) → ℕ → Bool
entries_empty entries zero = true
entries_empty entries (suc n) = is_zero (entries n) && entries_empty entries n

abbrev pub is_table_empty : ℕ → MemoryManager → Bool
is_table_empty t m = entries_empty (m.entry t) entries_per_table

-- `entry->clear(); return is_table_empty();`
abbrev pub clear_entry : ℕ → ℕ → MemoryManager → Bool × MemoryManager
clear_entry t i m = let m' = set_entry t i empty_entry m in (is_table_empty t m', m')

-- What a table does once the table below has done its part.
abbrev pub after_child : ℕ → ℕ → Bool × MemoryManager → MemoryManager
after_child t i (empty, m) = if empty then free_table t i m else m

unfoldable pub page_unmap :
    ℕ → VirtualMemoryUnmapRequest → MemoryManager → Option (Bool × MemoryManager)
page_unmap t request m =
    let i = page_index request.unmap_address in
    if (m.entry t i).frame == 0 then none else some (clear_entry t i m)

unfoldable pub directory_unmap :
    ℕ → VirtualMemoryUnmapRequest → MemoryManager → Option (Bool × MemoryManager)
directory_unmap t request m =
    let i = directory_index request.unmap_address in
    if not (m.entry t i).present
    then none
    else if is_2mib request.unmap_size
    then some (clear_entry t i m)
    else elim (page_unmap (m.entry t i).frame request m) [
      | none ↦ none
      | some below ↦ let m' = after_child t i below in some (is_table_empty t m', m')
    ]

unfoldable pub pdpt_unmap :
    ℕ → VirtualMemoryUnmapRequest → MemoryManager → Option (Bool × MemoryManager)
pdpt_unmap t request m =
    let i = pdpt_index request.unmap_address in
    if not (m.entry t i).present
    then none
    else if is_1gib request.unmap_size
    then some (clear_entry t i m)
    else elim (directory_unmap (m.entry t i).frame request m) [
      | none ↦ none
      | some below ↦ let m' = after_child t i below in some (is_table_empty t m', m')
    ]

unfoldable pub request_virtual_unmap :
    VirtualMemoryUnmapRequest → ℕ → MemoryManager → Option MemoryManager
request_virtual_unmap request space m =
    let i = pml4_index request.unmap_address in
    if not (m.entry space i).present
    then none
    else elim (pdpt_unmap (m.entry space i).frame request m) [
      | none ↦ none
      | some below ↦ some (after_child space i below)
    ]

unfoldable pub free_page : ℕ → ℕ → MemoryManager → Option MemoryManager
free_page address space m =
    request_virtual_unmap (record { unmap_address = address; unmap_size = page_4kib }) space m
