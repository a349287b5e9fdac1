-- ===== src/Filesystem/Tar/Reach.antt =====
-- A path that was resolved leads to its file.
use xp_os.Prelude.{
  ℕ, ◌+◌, ◌≡◌, refl, ap, sym, ◌∙◌, List, [], ◌∷◌, ◌++◌, Option, none, some, inl, inr,
}
use xp_os.Prelude.All.{All}
use xp_os.Prelude.Chain.{◌>>=◌, bind_none, Option-cases}
use xp_os.Prelude.Map.{update, update_ne}
use xp_os.Filesystem.Path.{parse_path}
use xp_os.Filesystem.Path.Join.{join, IsName, checked_name, split-join, parse_path-join}
use xp_os.Filesystem.Tar.{
  TarDirectoryEntry, TarReader, find_entry, push_entry, enter_found, enter_directory, add_file,
  resolve_path,
}
use xp_os.Filesystem.Tar.Resolve.{resolve_names, names_file, resolve_path-eq}
use xp_os.Filesystem.Tar.Walk.{
  Directories, lookup, walk, Extends, IsWay, lookup_of, add_entry, lookup-add_entry,
  add_entry-Extends, walk-Extends,
}
use xp_os.Filesystem.Tar.Added.{
  IsFresh, insert_key_new, apart, missing, with_directory, new_directory_lem,
  with_directory-Extends, with_directory-IsFresh, starts_empty,
}

-- What a reader has after names were resolved from a directory to a file.
pub record Reached (r : TarReader) (working : ℕ) (names : List (List ℕ)) (inode header : ℕ)
    (q : TarReader) : Type 0 where
  pub leads : walk q.directory_map working names ≡ some inode
  pub files : q.file_map ≡ update r.file_map inode header
  pub count : q.header_count ≡ r.header_count
  pub kept : Extends r.directory_map q.directory_map
  pub fresh : IsFresh q

abbrev Resolves : TarReader → ℕ → List (List ℕ) → ℕ → ℕ → Type 0
Resolves r working names inode header =
    (q : TarReader) × (resolve_names r working inode header names ≡ some q)
    × Reached r working names inode header q

-- The reader after `add_file`.
abbrev with_file : TarReader → ℕ → List TarDirectoryEntry → List ℕ → ℕ → ℕ → TarReader
with_file r working entries name inode header = record r {
  directory_map = add_entry r.directory_map working entries name inode;
  file_map = update r.file_map inode header;
}

resolve_file :
    (r : TarReader) (working inode header : ℕ) (name : List ℕ) (entries : List TarDirectoryEntry)
    → IsName name
    → IsFresh r
    → r.file_map inode ≡ none
    → r.directory_map working ≡ some entries
    → find_entry entries name ≡ none
    → Resolves r working (name ∷ []) inode header
unfolding walk add_file push_entry
resolve_file r working inode header name entries named fresh free here absent = (
  with_file r working entries name inode header,
  names_file r working inode header name named.0
      ∙ ap (λ o. o >>= (λ (n : List ℕ). add_file r working n inode header))
          (checked_name name named)
      ∙ (rw here (rw (insert_key_new r.file_map inode header free) refl)),
  record {
    leads = rw (lookup-add_entry r.directory_map working entries name inode absent) refl;
    files = refl;
    count = refl;
    kept = add_entry-Extends r.directory_map working entries name inode here;
    fresh = λ k lt.
        update_ne r.directory_map working
          (entries ++ (record { filename = name; inode_num = inode } ∷ [])) k
          (λ e. apart r.directory_map working k entries here (fresh k lt) (sym e))
        ∙ fresh k lt;
  },
)

-- From an empty directory every way is open and leads nowhere yet.
empty-IsWay :
    (m : Directories) (working : ℕ) (name : List ℕ) (names : List (List ℕ))
    → m working ≡ some []
    → IsWay m working (name ∷ names) × (walk m working (name ∷ names) ≡ none)
unfolding walk lookup find_entry
empty-IsWay m working name [] h = (([], h), rw h refl)
empty-IsWay m working name (next ∷ names) h =
    ((([], h), λ inode e. cc (e, lookup_nothing)), rw h refl)
  where
    lookup_nothing : lookup m working name ≡ none
    lookup_nothing = rw h refl

-- One directory is entered, and the other names are resolved from there.
resolve_step :
    (r s : TarReader) (working below inode header : ℕ) (name next : List ℕ) (names : List (List ℕ))
    → IsName name
    → enter_directory r working name ≡ some (s, below)
    → Extends r.directory_map s.directory_map
    → lookup s.directory_map working name ≡ some below
    → (s.file_map ≡ r.file_map) × (s.header_count ≡ r.header_count)
    → Resolves s below (next ∷ names) inode header
    → Resolves r working (name ∷ next ∷ names) inode header
unfolding resolve_names walk
resolve_step r s working below inode header name next names named entered kept leads same
      (q, done, reached) =
    (
      q,
      rw (checked_name name named) (rw entered done),
      record {
        leads = rw (reached.kept working name below leads) reached.leads;
        files = reached.files ∙ ap (λ (m : ℕ → Option ℕ). update m inode header) same.0;
        count = reached.count ∙ same.1;
        kept = λ k other target h. reached.kept k other target (kept k other target h);
        fresh = reached.fresh;
      },
    )

resolve_names_lem :
    (r : TarReader) (working inode header : ℕ) (name : List ℕ) (names : List (List ℕ))
    → All IsName (name ∷ names)
    → IsFresh r
    → r.file_map inode ≡ none
    → IsWay r.directory_map working (name ∷ names)
    → walk r.directory_map working (name ∷ names) ≡ none
    → Resolves r working (name ∷ names) inode header
unfolding walk enter_directory
resolve_names_lem r working inode header name [] named fresh free (entries, here) nowhere =
    resolve_file r working inode header name entries named.0 fresh free here (
      missing r.directory_map working name entries here
        (bind_none (lookup r.directory_map working name) (λ (i : ℕ). i) nowhere))
resolve_names_lem r working inode header name (next ∷ names) named fresh free
      ((entries, here), further) nowhere =
    elim (Option-cases (find_entry entries name)) [
      | inl absent ↦
          let s : TarReader = with_directory r working entries name in
          let below : ℕ = r.dir_virtual_node_num + 1 in
          let open_way =
            empty-IsWay s.directory_map below next names
              (starts_empty r working entries name fresh here) in
          resolve_step r s working below inode header name next names named.0
            (rw here
              (rw (absent, enter_found) (new_directory_lem r working entries name fresh here)))
            (with_directory-Extends r working entries name fresh here)
            (lookup-add_entry (update r.directory_map below []) working entries name below absent)
            (refl, refl)
            (resolve_names_lem s below inode header next names named.1
              (with_directory-IsFresh r working entries name fresh here) free open_way.0 open_way.1)
      | inr (entry, found) ↦
          let leads : lookup r.directory_map working name ≡ some entry.inode_num =
            lookup_of r.directory_map working name entries here
            ∙ ap
                (λ (o : Option TarDirectoryEntry).
                  o >>= (λ (x : TarDirectoryEntry). some x.inode_num))
                found in
          resolve_step r r working entry.inode_num inode header name next names named.0
            (rw here (rw (found, enter_found) refl)) (λ k other target h. h) leads (refl, refl)
            (resolve_names_lem r entry.inode_num inode header next names named.1 fresh free
              (further entry.inode_num leads)
              (sym (
                  ap (λ (o : Option ℕ). o >>= (λ (i : ℕ). walk r.directory_map i (next ∷ names)))
                    leads)
                ∙ nowhere))
    ]

-- The same of a whole path, from the root.
pub resolve_path_lem :
    (r : TarReader) (name : List ℕ) (names : List (List ℕ)) (inode header : ℕ)
    → All IsName (name ∷ names)
    → IsFresh r
    → r.file_map inode ≡ none
    → IsWay r.directory_map 0 (name ∷ names)
    → walk r.directory_map 0 (name ∷ names) ≡ none
    → (q : TarReader) × (resolve_path r (join (name ∷ names)) inode header ≡ some q)
      × Reached r 0 (name ∷ names) inode header q
resolve_path_lem r name names inode header named fresh free way nowhere =
    let (q, done, reached) =
      resolve_names_lem r 0 inode header name names named fresh free way nowhere in
    (
      q,
      resolve_path-eq r (join (name ∷ names)) inode header
          ∙ ap (resolve_names r 0 inode header) (split-join name names named)
          ∙ done,
      reached,
    )

-- Names are joined to the path of a header, none of them is empty or holds a separator, they lead
-- nowhere yet, none but the last is a file, and neither the inode nor any number after the last
-- directory's is in use. Then the path is resolved, the names that `parse_path` makes of it lead from
-- the root to the inode, the inode and no other gets the header, all that other names led to they still lead to,
-- and the numbers after the last directory's are unused again.
pub resolve_path-walk :
    (r : TarReader) (name : List ℕ) (names : List (List ℕ)) (inode header : ℕ)
    → All IsName (name ∷ names)
    → IsFresh r
    → r.file_map inode ≡ none
    → IsWay r.directory_map 0 (name ∷ names)
    → walk r.directory_map 0 (name ∷ names) ≡ none
    → (q : TarReader) × (resolve_path r (join (name ∷ names)) inode header ≡ some q)
      × ((parse_path (join (name ∷ names)) >>= walk q.directory_map 0) ≡ some inode)
      × (q.file_map ≡ update r.file_map inode header)
      × ((others : List (List ℕ)) (target : ℕ)
          → walk r.directory_map 0 others ≡ some target
          → walk q.directory_map 0 others ≡ some target)
      × IsFresh q
resolve_path-walk r name names inode header named fresh free way nowhere =
    let (q, done, reached) =
      resolve_path_lem r name names inode header named fresh free way nowhere in
    (
      q,
      done,
      ap (λ (o : Option (List (List ℕ))). o >>= walk q.directory_map 0)
            (parse_path-join (name ∷ names) named)
          ∙ reached.leads,
      reached.files,
      λ others target h.
          walk-Extends r.directory_map q.directory_map 0 others target reached.kept h,
      reached.fresh,
    )
