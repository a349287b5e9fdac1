-- ===== src/Memory/Paging/Tables.antt =====
-- The tree of page tables, as a list of indices from the top for each table, and what
-- `prepare_table_for_entry` does to it.
use xp_os.Prelude.{
  if_false, ℕ, ◌*◌, ◌/◌, ◌<◌, ◌≡◌, refl, ap, sym, ◌∙◌, Bool, true, false, ◌&&◌, ◌||◌, ◌==◌, Option,
  none, some, List, ◌∷◌, length, arith, if◌then◌else◌, Bool-cases, ◌⊎◌, inl, inr, eq→==, ==→eq,
}
use mathlib.Core.Path.{subst}
use xp_os.Memory.Bitmap.{PhysicalBitmap}
use xp_os.Memory.Bitmap.Bits.{used, IsValid}
use xp_os.Memory.Paging.{
  GenericEntry, empty_entry, MemoryManager, set_entry, clear_table, points_to_table,
}

-- The tables of an address space form a tree. `trail t` is `none` where no table is at `t`, and else
-- the indices that lead there, the last first. The block of each table is in use, and so is block 0.
pub record IsTree (m : MemoryManager) (trail : ℕ → Option (List ℕ)) : Type 0 where
  pub blocks_valid : IsValid m.blocks
  pub first_used : used m.blocks 0 ≡ true
  pub table_used : (t : ℕ) (is : List ℕ) → trail t ≡ some is → used m.blocks (t / 0x1000) ≡ true
  pub child :
      (t i : ℕ) (is : List ℕ)
      → trail t ≡ some is
      → length is < 3
      → points_to_table (m.entry t i) ≡ true
      → trail (m.entry t i).frame ≡ some (i ∷ is)

both : (a b c d : ℕ) → ((a == b) && (c == d)) ≡ true → (a ≡ b) × (c ≡ d)
both a b c d h = ground arith

both_self : (a b : ℕ) → ((a == a) && (b == b)) ≡ true
both_self a b = ground arith

same_trail :
    (trail : ℕ → Option (List ℕ)) (t t' : ℕ) (is js : List ℕ)
    → trail t ≡ some is
    → trail t' ≡ some js
    → t' ≡ t
    → js ≡ is
same_trail trail t t' is js e e' h = cc (e, e', h)

child_if :
    (trail : ℕ → Option (List ℕ)) (e old : GenericEntry) (path : Option (List ℕ)) (b : Bool)
    → points_to_table (if b then e else old) ≡ true
    → (b ≡ true → points_to_table e ≡ true → trail e.frame ≡ path)
    → (b ≡ false → points_to_table old ≡ true → trail old.frame ≡ path)
    → trail (if b then e else old).frame ≡ path
child_if trail e old path true p f g = f refl p
child_if trail e old path false p f g = g refl p

pub not_both {ℓ} : {A : Type ℓ} → (o : Option A) (x : A) → o ≡ none → o ≡ some x → ⊥
not_both o x h k = cc (h, k)

pub contradicts : (b : Bool) → b ≡ true → b ≡ false → ⊥
contradicts b h k = cc (h, k)

pub or_true : (b : Bool) → (b || true) ≡ true
or_true true = refl
or_true false = refl

block_of : (t frame : ℕ) → (t == frame * 0x1000) ≡ true → (t / 0x1000 == frame) ≡ true
block_of t frame h = ground arith

-- Writing an entry that points to a table only where the tree has that table below it.
pub set_entry-IsTree :
    (m : MemoryManager) (trail : ℕ → Option (List ℕ)) (t i : ℕ) (is : List ℕ) (e : GenericEntry)
    → IsTree m trail
    → trail t ≡ some is
    → (length is < 3 → points_to_table e ≡ true → trail e.frame ≡ some (i ∷ is))
    → IsTree (set_entry t i e m) trail
set_entry-IsTree m trail t i is e tree at below = record {
  blocks_valid = tree.blocks_valid;
  first_used = tree.first_used;
  table_used = tree.table_used;
  child = λ t' i' js at' low p.
      child_if trail e (m.entry t' i') (some (i' ∷ js)) ((t' == t) && (i' == i)) p
        (λ h q. at_written t' i' js at' low h q) (λ h q. tree.child t' i' js at' low q);
}
  where
    at_written :
        (t' i' : ℕ) (js : List ℕ)
        → trail t' ≡ some js
        → length js < 3
        → ((t' == t) && (i' == i)) ≡ true
        → points_to_table e ≡ true
        → trail e.frame ≡ some (i' ∷ js)
    at_written t' i' js at' low h q =
        let same = same_trail trail t t' is js at at' (both t' t i' i h).0 in
        rw ((both t' t i' i h).1, same) (below (subst (λ l. length l < 3) same low) q)

-- A block that was free, taken and cleared, becomes a table below entry `i` of the table `t`.
abbrev pub grow : (ℕ → Option (List ℕ)) → ℕ → List ℕ → ℕ → Option (List ℕ)
grow trail table path t = if t == table then some path else trail t

pub grow_old :
    (trail : ℕ → Option (List ℕ)) (table : ℕ) (path : List ℕ) (t : ℕ) (js : List ℕ)
    → trail table ≡ none
    → trail t ≡ some js
    → grow trail table path t ≡ some js
grow_old trail table path t js absent at = elim (Bool-cases (t == table)) [
  | inl h ↦ absurd (not_both (trail t) js (ap trail (==→eq t table h) ∙ absent) at)
  | inr h ↦ rw h at
]

pub grow_new :
    (trail : ℕ → Option (List ℕ)) (table : ℕ) (path : List ℕ)
    → grow trail table path table ≡ some path
grow_new trail table path = rw (eq→== table table refl) refl

-- A table of the grown tree is the new one or an old one.
grow_cases :
    (trail : ℕ → Option (List ℕ)) (table : ℕ) (path : List ℕ) (t : ℕ) (js : List ℕ)
    → grow trail table path t ≡ some js
    → ((t == table) ≡ true) ⊎ (((t == table) ≡ false) × (trail t ≡ some js))
grow_cases trail table path t js h = elim (Bool-cases (t == table)) [
  | inl e ↦ inl e
  | inr e ↦ inr (e, sym (if_false (t == table) (some path) (trail t) e) ∙ h)
]

pub grow-IsTree :
    (m : MemoryManager) (trail : ℕ → Option (List ℕ)) (frame : ℕ) (path : List ℕ)
    (blocks : PhysicalBitmap)
    → IsTree m trail
    → trail (frame * 0x1000) ≡ none
    → IsValid blocks
    → ((k : ℕ) → used blocks k ≡ ((k == frame) || used m.blocks k))
    → IsTree
        (clear_table (frame * 0x1000) (record m { blocks = blocks }))
        (grow trail (frame * 0x1000) path)
grow-IsTree m trail frame path blocks tree absent valid u = record {
  blocks_valid = valid;
  first_used = u 0 ∙ ap (λ b. (0 == frame) || b) tree.first_used ∙ or_true (0 == frame);
  table_used = λ t js at. elim (grow_cases trail (frame * 0x1000) path t js at) [
    | inl h ↦ u (t / 0x1000) ∙ ap (λ b. b || used m.blocks (t / 0x1000)) (block_of t frame h)
    | inr (h, k) ↦
        u (t / 0x1000)
        ∙ ap (λ b. (t / 0x1000 == frame) || b) (tree.table_used t js k)
        ∙ or_true (t / 0x1000 == frame)
  ];
  child = λ t i js at low p. elim (grow_cases trail (frame * 0x1000) path t js at) [
    | inl h ↦ absurd (not_empty t i h p)
    | inr (h, k) ↦ rw h (
        grow_old trail (frame * 0x1000) path (m.entry t i).frame (i ∷ js) absent
          (tree.child t i js k low (old_entry t i h p)))
  ];
}
  where
    not_empty :
        (t i : ℕ)
        → (t == frame * 0x1000) ≡ true
        → points_to_table (if t == frame * 0x1000 then empty_entry else m.entry t i) ≡ true
        → ⊥
    not_empty t i h p =
        contradicts (points_to_table (if t == frame * 0x1000 then empty_entry else m.entry t i)) p
          (rw h refl)

    old_entry :
        (t i : ℕ)
        → (t == frame * 0x1000) ≡ false
        → points_to_table (if t == frame * 0x1000 then empty_entry else m.entry t i) ≡ true
        → points_to_table (m.entry t i) ≡ true
    old_entry t i h p =
        ap points_to_table (sym (if_false (t == frame * 0x1000) empty_entry (m.entry t i) h)) ∙ p
