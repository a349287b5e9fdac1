-- ===== src/Filesystem/Tar/Loaded.antt =====
-- The archive after `load_initrd`.
use xp_os.Prelude.{
  ℕ, zero, suc, ◌+◌, ◌≤◌, ◌<◌, ◌≡◌, ◌≢◌, refl, ap, sym, ◌∙◌, List, [], ◌∷◌, Option, none, some,
  arith, length, ◌==◌, ne→==, if_false,
}
use xp_os.Prelude.All.{All}
use xp_os.Prelude.Chain.{◌>>=◌}
use xp_os.Prelude.Map.{update, update_self, update_ne}
use xp_os.Filesystem.Path.{parse_path}
use xp_os.Filesystem.Path.Join.{join, IsName, parse_path-join}
use xp_os.Filesystem.Tar.{TarReader, insert_key, resolve_path}
use xp_os.Filesystem.Tar.Image.{
  initrd_address, get_filename, get_next_header, count_headers, load_headers, load_initrd,
}
use xp_os.Filesystem.Tar.Walk.{walk, Extends, IsWay, walk-Extends}
use xp_os.Filesystem.Tar.Added.{IsFresh}
use xp_os.Filesystem.Tar.Reach.{resolve_path_lem}

-- A file of an archive: the address of its header, and its path's names, of which there is at least
-- one.
pub record ArchiveFile : Type 0 where
  pub header : ℕ
  pub name : List ℕ
  pub names : List (List ℕ)

abbrev pub path_of : ArchiveFile → List (List ℕ)
path_of f = f.name ∷ f.names

-- The headers from an address on are those of the files, and an empty name ends them.
abbrev pub IsArchive : (ℕ → ℕ) → ℕ → List ArchiveFile → Type 0
IsArchive memory header [] = memory header ≡ 0
IsArchive memory header (f ∷ files) =
    (f.header ≡ header)
    × (memory header ≢ 0)
    × (get_filename memory header ≡ join (path_of f))
    × All IsName (path_of f)
    × IsArchive memory (get_next_header memory header) files

-- At the turn of each file its path leads nowhere yet, and through no other file.
abbrev pub IsDistinct : TarReader → ℕ → List ArchiveFile → Type 0
IsDistinct r inode [] = Unit
IsDistinct r inode (f ∷ files) =
    IsWay r.directory_map 0 (path_of f)
    × (walk r.directory_map 0 (path_of f) ≡ none)
    × ((q : TarReader)
        → resolve_path r (join (path_of f)) inode f.header ≡ some q
        → IsDistinct q (inode + 1) files)

-- Every file is found by its path, under its number, and has its header.
abbrev pub AllFound : TarReader → ℕ → List ArchiveFile → Type 0
AllFound q inode [] = Unit
AllFound q inode (f ∷ files) =
    ((parse_path (join (path_of f)) >>= walk q.directory_map 0) ≡ some inode)
    × (q.file_map inode ≡ some f.header)
    × AllFound q (inode + 1) files

abbrev NoFileFrom : TarReader → ℕ → Type 0
NoFileFrom r inode = (k : ℕ) → inode ≤ k → r.file_map k ≡ none

record Loaded (r : TarReader) (inode : ℕ) (files : List ArchiveFile) (q : TarReader) : Type 0 where
  found : AllFound q inode files
  kept : Extends r.directory_map q.directory_map
  before : (k : ℕ) → k < inode → q.file_map k ≡ r.file_map k
  count : q.header_count ≡ r.header_count

count_headers_lem :
    (memory : ℕ → ℕ) (fuel header : ℕ) (files : List ArchiveFile)
    → IsArchive memory header files
    → length files < fuel
    → count_headers memory fuel header ≡ some (length files)
unfolding count_headers
count_headers_lem memory zero header files a h = absurd (omega (arith, h))
count_headers_lem memory (suc fuel) header [] a h = rw a refl
count_headers_lem memory (suc fuel) header (f ∷ files) (at, more, name, names, rest) h =
    rw (ne→== (memory header) 0 more) (
      rw
        (count_headers_lem memory fuel (get_next_header memory header) files rest
          (omega (arith, h)))
        (ap (λ (n : ℕ). some n) (omega arith)))

-- A round of the loop at a header with a name.
load_more :
    (memory : ℕ → ℕ) (fuel header inode : ℕ) (r s : TarReader) (path : List ℕ)
    → memory header ≢ 0
    → get_filename memory header ≡ path
    → resolve_path r path inode header ≡ some s
    → load_headers memory (suc fuel) header inode r
      ≡ load_headers memory fuel (get_next_header memory header) (inode + 1) s
unfolding load_headers
load_more memory fuel header inode r s path more name resolved =
    let next =
      λ (q : TarReader). load_headers memory fuel (get_next_header memory header) (inode + 1) q in
    if_false (memory header == 0) (some r)
      (resolve_path r (get_filename memory header) inode header >>= next)
      (ne→== (memory header) 0 more)
    ∙ ap (λ (t : List ℕ). resolve_path r t inode header >>= next) name
    ∙ ap (λ (o : Option TarReader). o >>= next) resolved

load_headers_lem :
    (memory : ℕ → ℕ) (fuel header inode : ℕ) (r : TarReader) (files : List ArchiveFile)
    → IsArchive memory header files
    → length files < fuel
    → IsFresh r
    → NoFileFrom r inode
    → IsDistinct r inode files
    → (q : TarReader) × (load_headers memory fuel header inode r ≡ some q) × Loaded r inode files q
unfolding load_headers
load_headers_lem memory zero header inode r files a h fresh free d = absurd (omega (arith, h))
load_headers_lem memory (suc fuel) header inode r [] a h fresh free d = (
  r,
  rw a refl,
  record { found = tt; kept = λ k name i e. e; before = λ k lt. refl; count = refl },
)
load_headers_lem memory (suc fuel) header inode r (f ∷ files) (at, more, name, names, rest) h fresh
      free (way, nowhere, further) =
    let (s, resolved, reached) =
      resolve_path_lem r f.name f.names inode f.header names fresh (free inode (omega arith)) way
        nowhere in
    let (q, loaded, all) =
      load_headers_lem memory fuel (get_next_header memory header) (inode + 1) s files rest
        (omega (arith, h)) reached.fresh
        (λ k le.
          ap (λ (m : ℕ → Option ℕ). m k) reached.files
          ∙ update_ne r.file_map inode f.header k (λ e. absurd (omega (arith, e, le)))
          ∙ free k (omega (arith, le)))
        (further s resolved) in
    (
      q,
      load_more memory fuel header inode r s (join (path_of f)) more name
            (ap (resolve_path r (join (path_of f)) inode) (sym at) ∙ resolved)
          ∙ loaded,
      record {
        found = (
          ap (λ (o : Option (List (List ℕ))). o >>= walk q.directory_map 0)
                (parse_path-join (path_of f) names)
              ∙ walk-Extends s.directory_map q.directory_map 0 (path_of f) inode all.kept
                  reached.leads,
          all.before inode (omega arith)
              ∙ ap (λ (m : ℕ → Option ℕ). m inode) reached.files
              ∙ update_self r.file_map inode f.header,
          all.found,
        );
        kept = λ k other i e. all.kept k other i (reached.kept k other i e);
        before = λ k lt.
            all.before k (omega (arith, lt))
            ∙ ap (λ (m : ℕ → Option ℕ). m k) reached.files
            ∙ update_ne r.file_map inode f.header k (λ e. absurd (omega (arith, e, lt)));
        count = all.count ∙ reached.count;
      },
    )

-- The reader whose maps are empty, and the one with the root that the loop starts from.
abbrev pub empty_reader : TarReader
empty_reader = record {
  header_count = 0;
  directory_map = λ _. none;
  file_map = λ _. none;
  dir_virtual_node_num = 0;
}

abbrev pub with_root : ℕ → TarReader
with_root n = record empty_reader {
  header_count = n;
  dir_virtual_node_num = n;
  directory_map = update (λ _. none) 0 [];
}

-- From the address of the archive on, memory holds headers of files, with an empty name behind the last; at the turn of each file its
-- path leads nowhere yet, and through no other file; and there is fuel for each header and one more
-- round. Then the archive is loaded, and each file is found by its path, under the number of its
-- header, counted from 1, with its header; the number of headers is the number of files.
pub load_initrd_lem :
    (memory : ℕ → ℕ) (fuel : ℕ) (files : List ArchiveFile)
    → IsArchive memory initrd_address files
    → IsDistinct (with_root (length files)) 1 files
    → length files < fuel
    → (q : TarReader) × (load_initrd memory fuel empty_reader ≡ some q)
      × AllFound q 1 files
      × (q.header_count ≡ length files)
unfolding load_initrd insert_key
load_initrd_lem memory fuel files a d h =
    let (q, loaded, all) =
      load_headers_lem memory fuel initrd_address 1 (with_root (length files)) files a h
        (λ k lt. update_ne (λ _. none) 0 [] k (λ e. absurd (omega (arith, e, lt)))) (λ k le. refl)
        d in
    (q, rw (count_headers_lem memory fuel initrd_address files a h) loaded, all.found, all.count)
