-- ===== src/Filesystem/Tar.antt =====
-- `TarReader` of Kernel/Drivers/Initrd/TARinitrd.h and TARinitrd.cpp. A header is named by its
-- address. The two hash maps are partial functions; `none` as a result is a step that follows the
-- end iterator of one of them, or a copy behind a buffer.
pub mod Resolve
pub mod Walk
pub mod Added
pub mod Reach
pub mod Image
pub mod Loaded
mod Tests
use xp_os.Prelude.{
  length, ltb, ℕ, ◌+◌, Bool, true, false, ◌&&◌, ◌||◌, List, [], ◌∷◌, ◌++◌, Option, none, some, ◌==◌,
  leb, if◌then◌else◌, not,
}
use xp_os.Prelude.Chain.{◌>>=◌}
use xp_os.Prelude.Map.{update}
use xp_os.Common.Strings.{same_name}
use xp_os.Filesystem.Path.{path_separator, max_path_size, copy_component}

pub record TarDirectoryEntry : Type 0 where
  pub filename : List ℕ
  pub inode_num : ℕ

-- A directory descriptor is the list of its entries.
pub record TarReader : Type 0 where
  pub header_count : ℕ
  pub directory_map : ℕ → Option (List TarDirectoryEntry)
  pub file_map : ℕ → Option ℕ
  pub dir_virtual_node_num : ℕ

-- `insert` of the hash maps, which keeps what a key has.
unfoldable pub insert_key {ℓ} : {V : Type ℓ} → (ℕ → Option V) → ℕ → V → ℕ → Option V
insert_key m k v = elim (m k) [ none ↦ update m k v | some _ ↦ m ]

-- The search of a directory, in `resolve_path` and in `vfsdriver_finddir`.
unfoldable pub find_entry : List TarDirectoryEntry → List ℕ → Option TarDirectoryEntry
find_entry [] name = none
find_entry (entry ∷ entries) name =
    if same_name entry.filename name then some entry else find_entry entries name

unfoldable pub push_entry : TarReader → ℕ → TarDirectoryEntry → Option TarReader
push_entry r directory entry = do
  entries ← r.directory_map directory
  some (record r { directory_map = update r.directory_map directory (entries ++ (entry ∷ [])) })

unfoldable pub new_directory : TarReader → ℕ → List ℕ → Option (TarReader × ℕ)
unfolding push_entry insert_key
new_directory r working name =
    let number = r.dir_virtual_node_num + 1 in
    do
      next ←
          push_entry
            (record r {
              directory_map = insert_key r.directory_map number [];
              dir_virtual_node_num = number;
            })
            working (record { filename = name; inode_num = number })
      some (next, number)

-- By the entry that the search found.
unfoldable pub enter_found :
    TarReader → ℕ → List ℕ → Option TarDirectoryEntry → Option (TarReader × ℕ)
unfolding new_directory
enter_found r working name none = new_directory r working name
enter_found r working name (some entry) = some (r, entry.inode_num)

unfoldable pub enter_directory : TarReader → ℕ → List ℕ → Option (TarReader × ℕ)
unfolding find_entry enter_found
enter_directory r working name = do
  entries ← r.directory_map working
  enter_found r working name (find_entry entries name)

unfoldable pub add_file : TarReader → ℕ → List ℕ → ℕ → ℕ → Option TarReader
unfolding push_entry insert_key
add_file r working name inode header = do
  next ← push_entry r working (record { filename = name; inode_num = inode })
  some (record next { file_map = insert_key next.file_map inode header })

-- `strcpy` to the name of an entry, which is cut off by no test.
unfoldable pub copy_filename : List ℕ → Option (List ℕ)
copy_filename name = if ltb (length name) max_path_size then some name else none

-- The loop. `name` is what was read of `path` since the last separator.
unfoldable pub resolve_name : TarReader → ℕ → ℕ → ℕ → List ℕ → List ℕ → Option TarReader
unfolding enter_directory add_file copy_filename copy_component
resolve_name r working inode header name [] = do
  filename ← copy_filename name
  add_file r working filename inode header
resolve_name r working inode header name (c ∷ path) =
    let further = resolve_name r working inode header (name ++ (c ∷ [])) path in
    let entered : Option TarReader = (do
      directory_name ← copy_component name (c ∷ path)
      enter_directory r working directory_name >>= (λ (p : TarReader × ℕ). elim path [
        | [] ↦ some p.0
        | _ ∷ _ ↦ resolve_name p.0 p.1 inode header [] path
      ])) in
    if c == path_separator then entered else further

unfoldable pub resolve_path : TarReader → List ℕ → ℕ → ℕ → Option TarReader
resolve_path r [] inode header = some r
resolve_path r (c ∷ path) inode header = resolve_name r 0 inode header [] (c ∷ path)

pub data ObjectType : Type 0 where
  file directory : ObjectType

-- What `prepare_concrete_object` sets of a `ConcreteObject`; `fs` is set for a file only.
pub record ConcreteObject : Type 0 where
  pub type : ObjectType
  pub fs : Option ℕ
  pub inode_num : ℕ

unfoldable pub prepare_concrete_object : TarReader → TarDirectoryEntry → Option ConcreteObject
prepare_concrete_object r entry =
    if leb entry.inode_num r.header_count && not (entry.inode_num == 0)
    then (r.file_map entry.inode_num >>= (λ (header : ℕ).
        some (record { type = file; fs = some header; inode_num = entry.inode_num })))
    else some (record { type = directory; fs = none; inode_num = entry.inode_num })

-- By the entry that the search found. `none` inside is the null pointer.
unfoldable pub object_found : TarReader → Option TarDirectoryEntry → Option (Option ConcreteObject)
unfolding prepare_concrete_object
object_found r none = some none
object_found r (some entry) = do object ← prepare_concrete_object r entry; some (some object)

unfoldable pub vfsdriver_finddir : TarReader → ℕ → List ℕ → Option (Option ConcreteObject)
unfolding find_entry object_found
vfsdriver_finddir r inode name = do
  entries ← r.directory_map inode
  object_found r (find_entry entries name)
