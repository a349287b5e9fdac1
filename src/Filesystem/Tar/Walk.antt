-- ===== src/Filesystem/Tar/Walk.antt =====
-- Directories as maps: what names lead to, and how an added entry changes it.
use xp_os.Prelude.{
  ℕ, ◌≡◌, refl, ap, sym, ◌∙◌, true, ◌==◌, List, [], ◌∷◌, ◌++◌, Option, none, some, Bool-cases, inl,
  inr, eq→==, ==→eq,
}
use xp_os.Prelude.Chain.{◌>>=◌, bind_some}
use xp_os.Prelude.Map.{update, update_self}
use xp_os.Filesystem.Tar.{TarDirectoryEntry, find_entry}
use xp_os.Common.Strings.{same_name}

abbrev pub Directories : Type 0
Directories = ℕ → Option (List TarDirectoryEntry)

unfoldable pub lookup : Directories → ℕ → List ℕ → Option ℕ
lookup m directory name = m directory >>= (λ (entries : List TarDirectoryEntry).
    find_entry entries name >>= (λ (entry : TarDirectoryEntry). some entry.inode_num))

-- The inode that names lead to from a directory.
unfoldable pub walk : Directories → ℕ → List (List ℕ) → Option ℕ
walk m directory [] = some directory
walk m directory (name ∷ names) = lookup m directory name >>= (λ (inode : ℕ). walk m inode names)

-- What a name led to it still leads to.
abbrev pub Extends : Directories → Directories → Type 0
Extends m n =
    (directory : ℕ) (name : List ℕ) (inode : ℕ)
    → lookup m directory name ≡ some inode
    → lookup n directory name ≡ some inode

abbrev pub HasDirectory : Directories → ℕ → Type 0
HasDirectory m directory = (entries : List TarDirectoryEntry) × (m directory ≡ some entries)

-- No name but the last is a file: the directories that there are on the way are in the map.
abbrev pub IsWay : Directories → ℕ → List (List ℕ) → Type 0
IsWay m directory [] = Unit
IsWay m directory (name ∷ []) = HasDirectory m directory
IsWay m directory (name ∷ next ∷ names) =
    HasDirectory m directory
    × ((inode : ℕ) → lookup m directory name ≡ some inode → IsWay m inode (next ∷ names))

same_name_refl : (name : List ℕ) → same_name name name ≡ true
unfolding same_name
same_name_refl [] = refl
same_name_refl (c ∷ name) = rw (eq→== c c refl, same_name_refl name) refl

find_entry-append :
    (entries more : List TarDirectoryEntry) (name : List ℕ) (entry : TarDirectoryEntry)
    → find_entry entries name ≡ some entry
    → find_entry (entries ++ more) name ≡ some entry
unfolding find_entry
find_entry-append [] more name entry = λ h. cc h
find_entry-append (e ∷ entries) more name entry = elim (Bool-cases (same_name e.filename name)) [
  | inl t ↦ rw t (λ h. h)
  | inr f ↦ rw f (find_entry-append entries more name entry)
]

find_entry-last :
    (entries : List TarDirectoryEntry) (name : List ℕ) (inode : ℕ)
    → find_entry entries name ≡ none
    → find_entry (entries ++ (record { filename = name; inode_num = inode } ∷ [])) name
      ≡ some (record { filename = name; inode_num = inode })
unfolding find_entry
find_entry-last [] name inode = λ h. rw (same_name_refl name) refl
find_entry-last (e ∷ entries) name inode = elim (Bool-cases (same_name e.filename name)) [
  | inl t ↦ rw t (λ h. cc h)
  | inr f ↦ rw f (find_entry-last entries name inode)
]

pub lookup_of :
    (m : Directories) (directory : ℕ) (name : List ℕ) (entries : List TarDirectoryEntry)
    → m directory ≡ some entries
    → lookup m directory name
      ≡ (find_entry entries name >>= (λ (entry : TarDirectoryEntry). some entry.inode_num))
unfolding lookup
lookup_of m directory name entries h = rw h refl

-- An entry for a name that a directory does not have.
abbrev pub add_entry : Directories → ℕ → List TarDirectoryEntry → List ℕ → ℕ → Directories
add_entry m directory entries name inode =
    update m directory (entries ++ (record { filename = name; inode_num = inode } ∷ []))

pub lookup-add_entry :
    (m : Directories) (directory : ℕ) (entries : List TarDirectoryEntry) (name : List ℕ) (inode : ℕ)
    → find_entry entries name ≡ none
    → lookup (add_entry m directory entries name inode) directory name ≡ some inode
lookup-add_entry m directory entries name inode h =
    lookup_of (add_entry m directory entries name inode) directory name
      (entries ++ (record { filename = name; inode_num = inode } ∷ []))
      (update_self m directory (entries ++ (record { filename = name; inode_num = inode } ∷ [])))
    ∙ ap
        (λ (o : Option TarDirectoryEntry).
          o >>= (λ (entry : TarDirectoryEntry). some entry.inode_num))
        (find_entry-last entries name inode h)

-- A name of the directory keeps its entry.
same_directory :
    (m : Directories) (directory : ℕ) (entries : List TarDirectoryEntry) (name : List ℕ) (inode : ℕ)
    → (other : List ℕ) (target : ℕ) → m directory ≡ some entries
    → lookup m directory other ≡ some target
    → lookup (add_entry m directory entries name inode) directory other ≡ some target
same_directory m directory entries name inode other target e h =
    let (entry, found, last) =
      bind_some (find_entry entries other) (λ (entry : TarDirectoryEntry). some entry.inode_num)
        target (sym (lookup_of m directory other entries e) ∙ h) in
    let added : List TarDirectoryEntry = record { filename = name; inode_num = inode } ∷ [] in
    lookup_of (add_entry m directory entries name inode) directory other (entries ++ added)
      (update_self m directory (entries ++ added))
    ∙ ap (λ (o : Option TarDirectoryEntry). o >>= (λ (x : TarDirectoryEntry). some x.inode_num))
        (find_entry-append entries added other entry found)
    ∙ last

pub add_entry-Extends :
    (m : Directories) (directory : ℕ) (entries : List TarDirectoryEntry) (name : List ℕ) (inode : ℕ)
    → m directory ≡ some entries
    → Extends m (add_entry m directory entries name inode)
unfolding lookup
add_entry-Extends m directory entries name inode e other_directory other target h =
    elim (Bool-cases (other_directory == directory)) [
      | inl t ↦
          let same : other_directory ≡ directory = ==→eq other_directory directory t in
          rw same (
            same_directory m directory entries name inode other target e
              (ap (λ (k : ℕ). lookup m k other) (sym same) ∙ h))
      | inr f ↦ rw f h
    ]

pub walk-Extends :
    (m n : Directories) (directory : ℕ) (names : List (List ℕ)) (inode : ℕ)
    → Extends m n
    → walk m directory names ≡ some inode
    → walk n directory names ≡ some inode
unfolding walk
walk-Extends m n directory [] inode x h = h
walk-Extends m n directory (name ∷ names) inode x h =
    let (next, found, rest) =
      bind_some (lookup m directory name) (λ (i : ℕ). walk m i names) inode h in
    rw (x directory name next found) (walk-Extends m n next names inode x rest)
