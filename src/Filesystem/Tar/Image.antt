-- ===== src/Filesystem/Tar/Image.antt =====
-- The image of the archive in memory: `TarHeader` and `load_initrd` of the same two files. `memory`
-- has the byte at each address. A name is read up to its NUL, or to the end of its field.
pub mod Octal
use xp_os.Prelude.{
  ℕ, zero, suc, ◌+◌, ◌-◌, ◌*◌, ◌/◌, ◌%◌, ◌^◌, List, [], ◌∷◌, Option, none, some, ◌==◌, ltb,
  if◌then◌else◌,
}
use xp_os.Prelude.Word.{u64}
use xp_os.Prelude.Chain.{◌>>=◌}
use xp_os.Filesystem.Tar.{TarReader, ConcreteObject, insert_key, resolve_path}

abbrev pub initrd_address : ℕ
initrd_address = 0xffffffffa0000000

abbrev pub tar_align : ℕ
tar_align = 0x200

unfoldable pub text_at : (ℕ → ℕ) → ℕ → ℕ → List ℕ
text_at memory address zero = []
text_at memory address (suc room) =
    let rest = text_at memory (address + 1) room in
    if memory address == 0 then [] else memory address ∷ rest

unfoldable pub get_filename : (ℕ → ℕ) → ℕ → List ℕ
unfolding text_at
get_filename memory header = text_at memory header 100

-- `m_size[i - 1] - '0'` as it is added: a `char` is signed, and the difference wraps around.
unfoldable pub digit : ℕ → ℕ
digit c = if ltb c 0x80 then u64 (c + 2 ^ 64 - 48) else u64 (c + 2 ^ 64 - 0x100 - 48)

unfoldable pub size_loop : (ℕ → ℕ) → ℕ → ℕ → ℕ → ℕ
unfolding digit
size_loop m_size zero count size = size
size_loop m_size (suc i) count size =
    size_loop m_size i (u64 (count * 8)) (u64 (size + digit (m_size i) * count))

-- The field of the size starts at byte 124 of a header.
unfoldable pub get_size : (ℕ → ℕ) → ℕ → ℕ
unfolding size_loop
get_size memory header = size_loop (λ i. memory (header + 124 + i)) 11 1 0

-- `BYTE_ALIGN_UP`, for a power of two.
unfoldable pub byte_align_up : ℕ → ℕ → ℕ
byte_align_up x align = u64 (x + (align - 1)) / align * align

-- A header has 512 bytes.
unfoldable pub get_next_header : (ℕ → ℕ) → ℕ → ℕ
unfolding get_size byte_align_up
get_next_header memory header =
    u64 (header + 512 + byte_align_up (get_size memory header) tar_align)

unfoldable pub count_headers : (ℕ → ℕ) → ℕ → ℕ → Option ℕ
unfolding get_next_header
count_headers memory zero header = none
count_headers memory (suc fuel) header =
    let rest = count_headers memory fuel (get_next_header memory header) in
    if memory header == 0 then some 0 else (rest >>= (λ (n : ℕ). some (n + 1)))

unfoldable pub load_headers : (ℕ → ℕ) → ℕ → ℕ → ℕ → TarReader → Option TarReader
unfolding get_next_header get_filename resolve_path
load_headers memory zero header header_no r = none
load_headers memory (suc fuel) header header_no r =
    let loaded : Option TarReader =
      resolve_path r (get_filename memory header) header_no header >>= (λ (q : TarReader).
        load_headers memory fuel (get_next_header memory header) (header_no + 1) q) in
    if memory header == 0 then some r else loaded

unfoldable pub load_initrd : (ℕ → ℕ) → ℕ → TarReader → Option TarReader
unfolding count_headers load_headers insert_key
load_initrd memory fuel r = do
  n ← count_headers memory fuel initrd_address
  load_headers memory fuel initrd_address 1 (record r {
    header_count = n;
    dir_virtual_node_num = n;
    directory_map = insert_key r.directory_map 0 [];
  })

-- `vfsdriver_fileinfo`, which a directory gives no header.
unfoldable pub vfsdriver_fileinfo : (ℕ → ℕ) → ConcreteObject → Option ℕ
unfolding get_size
vfsdriver_fileinfo memory object = do header ← object.fs; some (get_size memory header)

-- `read_header` and `vfsdriver_read`: the bytes of a file follow its header.
unfoldable pub bytes_at : (ℕ → ℕ) → ℕ → ℕ → List ℕ
bytes_at memory address zero = []
bytes_at memory address (suc size) = memory address ∷ bytes_at memory (address + 1) size

unfoldable pub vfsdriver_read : (ℕ → ℕ) → ConcreteObject → ℕ → ℕ → Option (List ℕ)
unfolding bytes_at
vfsdriver_read memory object offset size = do
  header ← object.fs
  some (bytes_at memory (u64 (header + tar_align + offset)) size)
