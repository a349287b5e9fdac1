-- ===== src/Memory/Paging.antt =====
-- The page tables of Kernel/Memory/MemoryManager.h and MemoryManager.cpp: mapping a page and looking
-- it up. All of physical memory is mapped, so a table is reached by its physical
-- address. An entry is a word of a frame and flags; it is a record of them here, since a frame is
-- the address of a whole block and the code tests and sets no other bits. `panic` is `none`.
pub mod Unmap
pub mod Tables
pub mod Prepare
pub mod Map
pub mod Lookup
pub mod Translate
pub mod Walk
pub mod Shared
pub mod PageNumber
pub mod Others
pub mod Gone
pub mod Unmapped
mod Tests
use xp_os.Prelude.{
  ℕ, zero, suc, ◌+◌, ◌-◌, ◌*◌, ◌/◌, ◌%◌, ◌^◌, Bool, true, false, not, ◌&&◌, ◌||◌, ◌==◌, Option,
  none, some, if◌then◌else◌,
}
use xp_os.Memory.Bitmap.{PhysicalBitmap}
use xp_os.Memory.Physical.{alloc_physical_block, free_physical_block}

pub data PageSize : Type 0 where
  page_4kib page_2mib page_1gib : PageSize

pub record VirtualMemoryMapRequest : Type 0 where
  pub physical_address : ℕ
  pub virtual_address : ℕ
  pub allow_write : Bool
  pub allow_user_access : Bool
  pub request_size : PageSize

pub record GenericEntry : Type 0 where
  pub frame : ℕ
  pub present : Bool
  pub writeable : Bool
  pub user_access : Bool
  pub page_size : Bool

abbrev pub empty_entry : GenericEntry
empty_entry = record {
  frame = 0;
  present = false;
  writeable = false;
  user_access = false;
  page_size = false;
}

-- `entry t i` is entry `i` of the table at the physical address `t`.
pub record MemoryManager : Type 0 where
  pub entry : ℕ → ℕ → GenericEntry
  pub blocks : PhysicalBitmap

abbrev pub entries_per_table : ℕ
entries_per_table = 512

-- `get_entry` of the four tables.
unfoldable pub pml4_index : ℕ → ℕ
pml4_index address = address / 2 ^ 39 % entries_per_table

unfoldable pub pdpt_index : ℕ → ℕ
pdpt_index address = address / 2 ^ 30 % entries_per_table

unfoldable pub directory_index : ℕ → ℕ
directory_index address = address / 2 ^ 21 % entries_per_table

unfoldable pub page_index : ℕ → ℕ
page_index address = address / 2 ^ 12 % entries_per_table

abbrev pub set_entry : ℕ → ℕ → GenericEntry → MemoryManager → MemoryManager
set_entry t i e m = record m {
  entry = λ t' i'. if (t' == t) && (i' == i) then e else m.entry t' i';
}

-- `memset(table, 0, sizeof(GenericTable))`
abbrev pub clear_table : ℕ → MemoryManager → MemoryManager
clear_table t m = record m { entry = λ t' i'. if t' == t then empty_entry else m.entry t' i' }

abbrev pub set_access_flags : VirtualMemoryMapRequest → GenericEntry → GenericEntry
set_access_flags request e = record e {
  present = true;
  user_access = e.user_access || request.allow_user_access;
  writeable = e.writeable || request.allow_write;
}

abbrev pub points_to_table : GenericEntry → Bool
points_to_table e = e.present && not e.page_size

unfoldable pub prepare_table_for_entry :
    ℕ → ℕ → VirtualMemoryMapRequest → MemoryManager → Option MemoryManager
prepare_table_for_entry t i request m =
    let e = m.entry t i in
    if points_to_table e
    then some (set_entry t i (set_access_flags request e) m)
    else elim (alloc_physical_block m.blocks) [
      | none ↦ none
      | some (table, blocks) ↦ some (
          set_entry t i (set_access_flags request (record e { frame = table; page_size = false }))
            (clear_table table (record m { blocks = blocks })))
    ]

abbrev pub is_large : PageSize → Bool
is_large page_4kib = false
is_large _ = true

abbrev pub is_2mib : PageSize → Bool
is_2mib page_2mib = true
is_2mib _ = false

abbrev pub is_1gib : PageSize → Bool
is_1gib page_1gib = true
is_1gib _ = false

unfoldable pub prepare_page_for_entry :
    ℕ → ℕ → VirtualMemoryMapRequest → MemoryManager → MemoryManager
prepare_page_for_entry t i request m =
    let e = m.entry t i in
    set_entry t i
      (set_access_flags request (record e {
        page_size = is_large request.request_size || e.page_size;
        frame = request.physical_address;
      }))
      m

unfoldable pub free_table : ℕ → ℕ → MemoryManager → MemoryManager
free_table t i m =
    let e = m.entry t i in
    if points_to_table e
    then set_entry t i empty_entry (record m { blocks = free_physical_block e.frame m.blocks })
    else m

-- `CHECK_ALIGN` of both addresses.
abbrev pub is_aligned : VirtualMemoryMapRequest → ℕ → Bool
is_aligned request size =
    (request.physical_address % size == 0) && (request.virtual_address % size == 0)

unfoldable pub page_map : ℕ → VirtualMemoryMapRequest → MemoryManager → Option MemoryManager
page_map t request m =
    if is_aligned request 0x1000
    then some (prepare_page_for_entry t (page_index request.virtual_address) request m)
    else none

unfoldable pub directory_map : ℕ → VirtualMemoryMapRequest → MemoryManager → Option MemoryManager
directory_map t request m =
    let i = directory_index request.virtual_address in
    if is_2mib request.request_size
    then (if is_aligned request 0x200000
        then some (prepare_page_for_entry t i request (free_table t i m))
        else none)
    else elim (prepare_table_for_entry t i request m) [
      | none ↦ none
      | some m' ↦ page_map (m'.entry t i).frame request m'
    ]

unfoldable pub pdpt_map : ℕ → VirtualMemoryMapRequest → MemoryManager → Option MemoryManager
pdpt_map t request m =
    let i = pdpt_index request.virtual_address in
    if is_1gib request.request_size
    then (if is_aligned request 0x40000000
        then some (prepare_page_for_entry t i request (free_table t i m))
        else none)
    else elim (prepare_table_for_entry t i request m) [
      | none ↦ none
      | some m' ↦ directory_map (m'.entry t i).frame request m'
    ]

-- The address space is the physical address of its PML4 table.
unfoldable pub request_virtual_map :
    VirtualMemoryMapRequest → ℕ → MemoryManager → Option MemoryManager
request_virtual_map request space m =
    let i = pml4_index request.virtual_address in
    elim (prepare_table_for_entry space i request m) [
      | none ↦ none
      | some m' ↦ pdpt_map (m'.entry space i).frame request m'
    ]

unfoldable pub page_lookup : ℕ → ℕ → MemoryManager → ℕ
page_lookup t address m =
    let e = m.entry t (page_index address) in if not e.present then 0 else e.frame

unfoldable pub directory_lookup : ℕ → ℕ → MemoryManager → ℕ
directory_lookup t address m =
    let e = m.entry t (directory_index address) in
    if not e.present then 0 else if e.page_size then e.frame else page_lookup e.frame address m

unfoldable pub pdpt_lookup : ℕ → ℕ → MemoryManager → ℕ
pdpt_lookup t address m =
    let e = m.entry t (pdpt_index address) in
    if not e.present then 0 else if e.page_size then e.frame else directory_lookup e.frame address m

unfoldable pub get_physical_address : ℕ → ℕ → MemoryManager → ℕ
get_physical_address address space m =
    let e = m.entry space (pml4_index address) in
    if not e.present then 0 else pdpt_lookup e.frame address m

pub record VirtualMemoryAllocationRequest : Type 0 where
  pub wanted_address : ℕ
  pub wants_write : Bool
  pub wants_user_access : Bool

unfoldable pub alloc_page :
    VirtualMemoryAllocationRequest → ℕ → MemoryManager → Option MemoryManager
alloc_page request space m = elim (alloc_physical_block m.blocks) [
  | none ↦ none
  | some (block, blocks) ↦
      request_virtual_map
        (record {
          physical_address = block;
          virtual_address = request.wanted_address;
          allow_write = request.wants_write;
          allow_user_access = request.wants_user_access;
          request_size = page_4kib;
        })
        space (record m { blocks = blocks })
]
