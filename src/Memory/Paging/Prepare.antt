-- ===== src/Memory/Paging/Prepare.antt =====
-- What `prepare_table_for_entry` does to the tree of page tables.
use xp_os.Prelude.{
  if_false, ℕ, ◌*◌, ◌/◌, ◌<◌, ◌≡◌, refl, ap, sym, ◌∙◌, true, false, ◌&&◌, ◌||◌, ◌==◌, Option, none,
  some, List, ◌∷◌, length, arith, Bool-cases, inl, inr, eq→==, ==→eq,
}
use xp_os.Memory.Bitmap.{PhysicalBitmap}
use xp_os.Memory.Bitmap.Bits.{used, IsValid}
use xp_os.Memory.Physical.{alloc_physical_block}
use xp_os.Memory.Physical.Blocks.{Allocated, out_of_memory, allocated, alloc_physical_block_lem}
use xp_os.Memory.Paging.{
  GenericEntry, empty_entry, MemoryManager, VirtualMemoryMapRequest, set_entry, clear_table,
  set_access_flags, points_to_table, prepare_table_for_entry,
}
use xp_os.Memory.Paging.Tables.{
  IsTree, set_entry-IsTree, grow, grow_old, grow_new, grow-IsTree, or_true, not_both, contradicts,
}

-- What entry `i` of the table `t` leads to: the table it led to before, or a new one that is empty.
pub data Below (m m' : MemoryManager) (t i : ℕ) : Type 0 where
  old_table :
      points_to_table (m.entry t i) ≡ true
      → (m'.entry t i).frame ≡ (m.entry t i).frame
      → Below m m' t i
  new_table :
      points_to_table (m.entry t i) ≡ false
      → ((j : ℕ) → m'.entry (m'.entry t i).frame j ≡ empty_entry)
      → Below m m' t i

-- Entry `i` points to a table of a larger tree, all other entries of the old tree stay, and at most
-- one block, `fresh`, is taken.
pub record Prepared (m m' : MemoryManager) (trail : ℕ → Option (List ℕ)) (t i : ℕ) : Type 0 where
  pub larger : ℕ → Option (List ℕ)
  pub fresh : ℕ
  pub tree : IsTree m' larger
  pub extends : (u : ℕ) (js : List ℕ) → trail u ≡ some js → larger u ≡ some js
  pub points : points_to_table (m'.entry t i) ≡ true
  pub below : Below m m' t i
  pub kept :
      (u j : ℕ) (js : List ℕ)
      → trail u ≡ some js
      → ((u == t) && (j == i)) ≡ false
      → m'.entry u j ≡ m.entry u j
  pub taken : (k : ℕ) → used m'.blocks k ≡ true → ((k == fresh) || used m.blocks k) ≡ true

-- The two outcomes: no block is free, or the entry is prepared.
pub data Preparation (m : MemoryManager) (trail : ℕ → Option (List ℕ)) (t i : ℕ)
    : Option MemoryManager → Type 0 where
  no_block : ((k : ℕ) → used m.blocks k ≡ true) → Preparation m trail t i none
  prepared : (m' : MemoryManager) → Prepared m m' trail t i → Preparation m trail t i (some m')

here : (a b : ℕ) → ((a == a) && (b == b)) ≡ true
here a b = ground arith

not_same : (a b c d : ℕ) → (b == a) ≡ false → ((a == b) && (c == d)) ≡ false
not_same a b c d h = ground arith

frame_of : (frame : ℕ) → frame * 0x1000 / 0x1000 ≡ frame
frame_of frame = omega arith

points-access :
    (request : VirtualMemoryMapRequest) (e : GenericEntry)
    → points_to_table e ≡ true
    → points_to_table (set_access_flags request e) ≡ true
points-access request e h = ground arith

module _ (request : VirtualMemoryMapRequest) (m : MemoryManager) (trail : ℕ → Option (List ℕ))
    (t i : ℕ) (is : List ℕ) (tree : IsTree m trail) (at : trail t ≡ some is)
    (low : length is < 3) where
  reuse :
      points_to_table (m.entry t i) ≡ true
      → Prepared m (set_entry t i (set_access_flags request (m.entry t i)) m) trail t i
  reuse h = record {
    larger = trail;
    fresh = 0;
    tree =
        set_entry-IsTree m trail t i is (set_access_flags request (m.entry t i)) tree at
          (λ _ _. tree.child t i is at low h);
    extends = λ _ _ e. e;
    points = rw (here t i) (points-access request (m.entry t i) h);
    below = old_table h (rw (here t i) refl);
    kept = λ u j _ _ h. rw h refl;
    taken = λ k e. rw e (or_true (k == 0));
  }

  module _ (frame : ℕ) (blocks : PhysicalBitmap) (free : used m.blocks frame ≡ false)
      (valid : IsValid blocks)
      (u : (k : ℕ) → used blocks k ≡ ((k == frame) || used m.blocks k)) where
    abbrev table : ℕ
    table = frame * 0x1000

    abbrev cleared : MemoryManager
    cleared = clear_table table (record m { blocks = blocks })

    abbrev pointer : GenericEntry
    pointer = set_access_flags request (record (m.entry t i) { frame = table; page_size = false })

    -- A table's block is in use, so there is none at a free block.
    vacant : trail table ≡ none
    vacant = go (trail table) refl
      where
        go : (o : Option (List ℕ)) → trail table ≡ o → trail table ≡ none
        go none e = e
        go (some js) e = absurd (
            contradicts (used m.blocks (table / 0x1000)) (tree.table_used table js e)
              (ap (used m.blocks) (frame_of frame) ∙ free))

    not_table : (v : ℕ) (js : List ℕ) → trail v ≡ some js → (v == table) ≡ false
    not_table v js e = elim (Bool-cases (v == table)) [
      | inl h ↦ absurd (not_both (trail v) js (ap trail (==→eq v table h) ∙ vacant) e)
      | inr h ↦ h
    ]

    new_entry : (j : ℕ) → (set_entry t i pointer cleared).entry table j ≡ empty_entry
    new_entry j = rw (not_same table t j i (not_table t is at), eq→== table table refl) refl

    new_entries :
        (j : ℕ)
        → (set_entry t i pointer cleared).entry ((set_entry t i pointer cleared).entry t i).frame j
          ≡ empty_entry
    new_entries j = rw (here t i) (new_entry j)

    create :
        points_to_table (m.entry t i) ≡ false → Prepared m (set_entry t i pointer cleared) trail t i
    create h = record {
      larger = grow trail table (i ∷ is);
      fresh = frame;
      tree =
          set_entry-IsTree cleared (grow trail table (i ∷ is)) t i is pointer
            (grow-IsTree m trail frame (i ∷ is) blocks tree vacant valid u)
            (grow_old trail table (i ∷ is) t is vacant at) (λ _ _. grow_new trail table (i ∷ is));
      extends = λ v js e. grow_old trail table (i ∷ is) v js vacant e;
      points = rw (here t i) refl;
      below = new_table h new_entries;
      kept =
          λ v j js e k. rw k (if_false (v == table) empty_entry (m.entry v j) (not_table v js e));
      taken = λ k e. sym (u k) ∙ e;
    }

  after_alloc :
      points_to_table (m.entry t i) ≡ false
      → (o : Option (ℕ × PhysicalBitmap)) → Allocated m.blocks o
      → Preparation m trail t i (elim o [
        | none ↦ none
        | some (table, blocks) ↦ some (
            set_entry t i
              (set_access_flags request (record (m.entry t i) { frame = table; page_size = false }))
              (clear_table table (record m { blocks = blocks })))
      ])
  after_alloc h _ (out_of_memory f) = no_block f
  after_alloc h _ (allocated frame _ free _ blocks valid _ u) =
      prepared
        (set_entry t i (pointer frame blocks free valid u) (cleared frame blocks free valid u))
        (create frame blocks free valid u h)

  -- The entry of a table of the tree ends up pointing to a table, an old one or an empty new one,
  -- and all else in the tree stays; the code panics only where no block is free.
  pub prepare_table_for_entry_lem : Preparation m trail t i (prepare_table_for_entry t i request m)
  unfolding prepare_table_for_entry
  prepare_table_for_entry_lem = elim (Bool-cases (points_to_table (m.entry t i))) [
    | inl h ↦ rw h (prepared (set_entry t i (set_access_flags request (m.entry t i)) m) (reuse h))
    | inr h ↦ rw h (
        after_alloc h (alloc_physical_block m.blocks)
          (alloc_physical_block_lem m.blocks tree.blocks_valid tree.first_used))
  ]
