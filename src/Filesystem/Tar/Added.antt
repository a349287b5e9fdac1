-- ===== src/Filesystem/Tar/Added.antt =====
-- What `resolve_path` adds to the archive's directories.
use xp_os.Prelude.{
  ℕ, ◌+◌, ◌<◌, ◌≡◌, ◌≢◌, refl, ap, sym, ◌∙◌, List, [], ◌∷◌, ◌++◌, Option, none, some, arith, ne→==,
}
use xp_os.Prelude.Chain.{bind_none}
use xp_os.Prelude.Map.{update, update_self, update_ne}
use xp_os.Filesystem.Tar.{
  TarDirectoryEntry, TarReader, insert_key, find_entry, push_entry, new_directory,
}
use xp_os.Filesystem.Tar.Walk.{
  Directories, lookup, Extends, lookup_of, add_entry, add_entry-Extends,
}

-- The numbers after the last one given to a directory are unused.
abbrev pub IsFresh : TarReader → Type 0
IsFresh r = (k : ℕ) → r.dir_virtual_node_num < k → r.directory_map k ≡ none

pub insert_key_new {ℓ} :
    {V : Type ℓ} (m : ℕ → Option V) (k : ℕ) (v : V) → m k ≡ none → insert_key m k v ≡ update m k v
unfolding insert_key
insert_key_new m k v h = rw (h, insert_key) refl

-- A key that has a value is not one that has none.
pub apart :
    (m : Directories) (k j : ℕ) (entries : List TarDirectoryEntry)
    → m k ≡ some entries
    → m j ≡ none
    → k ≢ j
apart m k j entries h n e = cc (h, n, ap m e)

pub missing :
    (m : Directories) (k : ℕ) (name : List ℕ) (entries : List TarDirectoryEntry)
    → m k ≡ some entries
    → lookup m k name ≡ none
    → find_entry entries name ≡ none
missing m k name entries e h =
    bind_none (find_entry entries name) (λ (x : TarDirectoryEntry). x.inode_num)
      (sym (lookup_of m k name entries e) ∙ h)

insert_key-Extends :
    (m : Directories) (k : ℕ) (entries : List TarDirectoryEntry)
    → m k ≡ none
    → Extends m (update m k entries)
unfolding lookup
insert_key-Extends m k entries n directory name inode h =
    let other : directory ≢ k = λ e. cc (ap (λ (j : ℕ). lookup m j name) e, h, lookup_none n) in
    rw (ne→== directory k other) h
  where
    lookup_none : m k ≡ none → lookup m k name ≡ none
    lookup_none z = rw z refl

-- The reader after `new_directory`, in a directory with these entries.
abbrev pub with_directory : TarReader → ℕ → List TarDirectoryEntry → List ℕ → TarReader
with_directory r working entries name = record r {
  directory_map =
      add_entry (update r.directory_map (r.dir_virtual_node_num + 1) []) working entries name
        (r.dir_virtual_node_num + 1);
  dir_virtual_node_num = r.dir_virtual_node_num + 1;
}

module _ (r : TarReader) (working : ℕ) (entries : List TarDirectoryEntry) (name : List ℕ)
    (fresh : IsFresh r) (here : r.directory_map working ≡ some entries) where
  unused : r.directory_map (r.dir_virtual_node_num + 1) ≡ none
  unused = fresh (r.dir_virtual_node_num + 1) (omega arith)

  not_working : working ≢ r.dir_virtual_node_num + 1
  not_working = apart r.directory_map working (r.dir_virtual_node_num + 1) entries here unused

  still_here : update r.directory_map (r.dir_virtual_node_num + 1) [] working ≡ some entries
  still_here = update_ne r.directory_map (r.dir_virtual_node_num + 1) [] working not_working ∙ here

  pub new_directory_lem :
      new_directory r working name
      ≡ some (with_directory r working entries name, r.dir_virtual_node_num + 1)
  unfolding new_directory push_entry
  new_directory_lem =
      rw (insert_key_new r.directory_map (r.dir_virtual_node_num + 1) [] unused)
        (rw still_here refl)

  pub with_directory-Extends :
      Extends r.directory_map (with_directory r working entries name).directory_map
  with_directory-Extends k other inode h =
      add_entry-Extends (update r.directory_map (r.dir_virtual_node_num + 1) []) working entries
        name (r.dir_virtual_node_num + 1) still_here k other inode
        (insert_key-Extends r.directory_map (r.dir_virtual_node_num + 1) [] unused k other inode h)

  pub with_directory-IsFresh : IsFresh (with_directory r working entries name)
  with_directory-IsFresh k lt =
      let later : r.directory_map k ≡ none = fresh k (omega (arith, lt)) in
      let other : k ≢ working = λ e. apart r.directory_map working k entries here later (sym e) in
      let after : k ≢ r.dir_virtual_node_num + 1 = λ e. absurd (omega (arith, lt, e)) in
      rw (ne→== k working other) (rw (ne→== k (r.dir_virtual_node_num + 1) after) later)

  pub starts_empty :
      (with_directory r working entries name).directory_map (r.dir_virtual_node_num + 1) ≡ some []
  starts_empty =
      update_ne (update r.directory_map (r.dir_virtual_node_num + 1) []) working
        (entries ++ (record { filename = name; inode_num = r.dir_virtual_node_num + 1 } ∷ []))
        (r.dir_virtual_node_num + 1) (λ e. not_working (sym e))
      ∙ update_self r.directory_map (r.dir_virtual_node_num + 1) []
