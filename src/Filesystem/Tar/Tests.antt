-- ===== src/Filesystem/Tar/Tests.antt =====
-- An archive of `a/b` and `a/c`.
use xp_os.Prelude.{
  ℕ, ◌+◌, ◌-◌, ◌/◌, ◌%◌, ◌≡◌, refl, ap, sym, ◌∙◌, List, [], ◌∷◌, Option, none, some, arith, ◌==◌,
  ltb, leb, if◌then◌else◌, ◌&&◌,
}
use xp_os.Common.Strings.{decrement, copy_loop, strncpy, same_name}
use xp_os.Prelude.Map.{update, update_ne}
use mathlib.Core.Path.{subst}
use xp_os.Filesystem.Path.{copy_component}
use xp_os.Filesystem.Path.Join.{join, IsName}
use xp_os.Filesystem.Tar.{
  TarReader, copy_filename, find_entry, enter_found, enter_directory, new_directory, push_entry,
  insert_key, add_file, resolve_name, resolve_path,
}
use xp_os.Filesystem.Tar.Walk.{lookup, walk, IsWay}
use xp_os.Filesystem.Tar.Added.{IsFresh}
use xp_os.Filesystem.Tar.Image.{
  initrd_address, get_filename, text_at, get_size, size_loop, digit, get_next_header, byte_align_up,
  load_initrd,
}
use xp_os.Filesystem.Tar.Image.Octal.{get_size_lem}
use xp_os.Filesystem.Tar.Loaded.{
  ArchiveFile, path_of, IsArchive, IsDistinct, AllFound, empty_reader, with_root, load_initrd_lem,
}

abbrev name_a : List ℕ
name_a = 97 ∷ []

abbrev name_b : List ℕ
name_b = 98 ∷ []

abbrev name_c : List ℕ
name_c = 99 ∷ []

name_a-IsName : IsName name_a
name_a-IsName = (λ e. cc e, (refl, tt), omega arith)

name_b-IsName : IsName name_b
name_b-IsName = (λ e. cc e, (refl, tt), omega arith)

name_c-IsName : IsName name_c
name_c-IsName = (λ e. cc e, (refl, tt), omega arith)

with_root-IsFresh : (n : ℕ) → IsFresh (with_root n)
with_root-IsFresh n k lt = update_ne (λ _. none) 0 [] k (λ e. absurd (omega (arith, e, lt)))

root-IsWay : (n : ℕ) → IsWay (with_root n).directory_map 0 (name_a ∷ name_b ∷ [])
unfolding lookup find_entry
root-IsWay n = (([], refl), λ inode h. cc h)

nothing_yet : (n : ℕ) → walk (with_root n).directory_map 0 (name_a ∷ name_b ∷ []) ≡ none
unfolding walk lookup find_entry
nothing_yet n = refl

-- Two headers of 512 bytes with no content, and zeros behind them.
abbrev header_byte : ℕ → ℕ → ℕ
header_byte last i =
    if i == 0
    then 97
    else if i == 1
    then 47
    else if i == 2
    then last
    else if leb 124 i && ltb i 136
    then 48
    else 0

abbrev image : ℕ → ℕ
image a =
    let i = a - initrd_address in if ltb i 1024 then header_byte (98 + i / 512) (i % 512) else 0

abbrev file_b : ArchiveFile
file_b = record { header = initrd_address; name = name_a; names = name_b ∷ [] }

abbrev file_c : ArchiveFile
file_c = record { header = initrd_address + 512; name = name_a; names = name_c ∷ [] }

get_size_lem_example : get_size image (initrd_address + 512) ≡ 0
get_size_lem_example = get_size_lem image (initrd_address + 512) 0 (ground arith) (omega arith)

image-IsArchive : IsArchive image initrd_address (file_b ∷ file_c ∷ [])
unfolding get_filename text_at join get_next_header get_size size_loop digit byte_align_up
image-IsArchive = (
  refl,
  (λ e. absurd (omega (arith, e))),
  refl,
  (name_a-IsName, (name_b-IsName, tt)),
  (refl, (λ e. absurd (omega (arith, e))), refl, (name_a-IsName, (name_c-IsName, tt)), refl),
)

-- The archive once `a/b` is in it: directory 3 is `a`.
abbrev half_loaded : TarReader
half_loaded = record (with_root 2) {
  directory_map =
      update
        (update (update (update (λ _. none) 0 []) 3 []) 0
          (record { filename = name_a; inode_num = 3 } ∷ []))
        3 (record { filename = name_b; inode_num = 1 } ∷ []);
  file_map = update (λ _. none) 1 initrd_address;
  dir_virtual_node_num = 3;
}

resolve_first :
    resolve_path (with_root 2) (join (path_of file_b)) 1 initrd_address ≡ some half_loaded
unfolding join resolve_path resolve_name copy_component copy_filename strncpy copy_loop decrement
    enter_directory find_entry enter_found new_directory push_entry insert_key add_file same_name
resolve_first = refl

abbrev IsReady : TarReader → Type 0
IsReady q = IsDistinct q 2 (file_c ∷ [])

half_loaded-IsReady : IsReady half_loaded
unfolding lookup find_entry same_name walk
half_loaded-IsReady = (
  (
    (record { filename = name_a; inode_num = 3 } ∷ [], refl),
    λ inode h.
        subst (λ i. IsWay half_loaded.directory_map i (name_c ∷ []))
          (ap (λ (o : Option ℕ). elim o [ none ↦ 0 | some i ↦ i ]) h)
          (record { filename = name_b; inode_num = 1 } ∷ [], refl),
  ),
  refl,
  λ q h. tt,
)

only_half_loaded :
    (q : TarReader)
    → resolve_path (with_root 2) (join (path_of file_b)) 1 initrd_address ≡ some q
    → IsReady q
only_half_loaded q h =
    subst IsReady
      (ap (λ (o : Option TarReader). elim o [ none ↦ q | some r ↦ r ]) (sym resolve_first ∙ h))
      half_loaded-IsReady

load_initrd_lem_example :
    (q : TarReader) × (load_initrd image 3 empty_reader ≡ some q)
    × AllFound q 1 (file_b ∷ file_c ∷ [])
    × (q.header_count ≡ 2)
load_initrd_lem_example =
    load_initrd_lem image 3 (file_b ∷ file_c ∷ []) image-IsArchive
      (root-IsWay 2, nothing_yet 2, only_half_loaded) (omega arith)
