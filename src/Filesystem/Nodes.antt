-- ===== src/Filesystem/Nodes.antt =====
-- `VirtualFilesystem` of Kernel/Filesystem/VFS.cpp: the tree of nodes. A node is named by its address.
-- The locks of the nodes are part of the state. `none` is a step that follows a null pointer, or that
-- waits for a lock which nobody releases. `finddir` is the operation of the driver.
pub mod Stuck
mod Tests
use xp_os.Prelude.{
  ℕ, zero, suc, ◌+◌, Bool, true, false, List, [], ◌∷◌, ◌++◌, Option, none, some, ◌==◌,
  if◌then◌else◌,
}
use xp_os.Prelude.Chain.{◌>>=◌}
use xp_os.Prelude.Int.{ℤ, pos, ◌+ℤ◌, ◌-ℤ◌, ltb_ℤ}
use xp_os.Prelude.Map.{update}
use xp_os.Common.Strings.{same_name}
use xp_os.Filesystem.Path.{parse_path}
use xp_os.Filesystem.Tar.{ConcreteObject}

pub record Node : Type 0 where
  pub ref_count : ℤ
  pub locked : Bool
  pub component_name : List ℕ
  pub concrete_object : Option ConcreteObject
  pub child_nodes : List ℕ
  pub parent_node : Option ℕ
  pub free_list_iterator : Option ℕ

-- An iterator of the list of unused nodes is the number of its entry. `next_node` is where `new` puts
-- the next node.
pub record VirtualFilesystem : Type 0 where
  pub nodes : ℕ → Option Node
  pub root_node : ℕ
  pub next_node : ℕ
  pub unused_nodes : List (ℕ × ℕ)
  pub next_item : ℕ

abbrev pub set_node : ℕ → Node → VirtualFilesystem → VirtualFilesystem
set_node n node v = record v { nodes = update v.nodes n node }

unfoldable pub acquire_node : ℕ → VirtualFilesystem → Option VirtualFilesystem
acquire_node n v = do
  node ← v.nodes n
  if node.locked then none else some (set_node n (record node { locked = true }) v)

unfoldable pub release_node : ℕ → VirtualFilesystem → Option VirtualFilesystem
release_node n v = do node ← v.nodes n; some (set_node n (record node { locked = false }) v)

unfoldable pub erase_unused : ℕ → List (ℕ × ℕ) → List (ℕ × ℕ)
erase_unused item [] = []
erase_unused item (entry ∷ entries) =
    let rest = entry ∷ erase_unused item entries in if entry.0 == item then entries else rest

unfoldable pub leave_unused : Node → VirtualFilesystem → Node × VirtualFilesystem
unfolding erase_unused
leave_unused node v = elim node.free_list_iterator [
  | none ↦ (node, v)
  | some item ↦ (
    record node { free_list_iterator = none },
    record v { unused_nodes = erase_unused item v.unused_nodes },
  )
]

unfoldable pub is_zero_count : ℤ → Bool
is_zero_count (pos zero) = true
is_zero_count _ = false

unfoldable pub increment_node_reference_count : ℕ → VirtualFilesystem → Option VirtualFilesystem
unfolding leave_unused is_zero_count
increment_node_reference_count n v = do
  node ← v.nodes n
  let (taken, v1) = if is_zero_count node.ref_count then leave_unused node v else (node, v)
  some (set_node n (record taken { ref_count = taken.ref_count +ℤ pos 1 }) v1)

unfoldable pub decrement_node_reference_count : ℕ → VirtualFilesystem → Option VirtualFilesystem
decrement_node_reference_count n v = do
  node ← v.nodes n
  let count = node.ref_count -ℤ pos 1
  some (
      if ltb_ℤ (pos 0) count
      then set_node n (record node { ref_count = count }) v
      else set_node n (record node { ref_count = count; free_list_iterator = some v.next_item })
          (record v {
            unused_nodes = v.unused_nodes ++ ((v.next_item, n) ∷ []);
            next_item = v.next_item + 1;
          }))

-- The first child with the name.
unfoldable pub find_child : List ℕ → List ℕ → VirtualFilesystem → Option (Option ℕ)
find_child [] name v = some none
find_child (child ∷ children) name v =
    let further = find_child children name v in
    do
      node ← v.nodes child
      if same_name node.component_name name then some (some child) else further

-- `create_new_node`, and its entry among the children of its parent.
unfoldable pub add_node :
    ℕ → List ℕ → ConcreteObject → VirtualFilesystem → Option (ℕ × VirtualFilesystem)
add_node parent name object v = do
  let new = v.next_node
  let v1 =
      set_node new
        (record {
          ref_count = pos 0;
          locked = false;
          component_name = name;
          concrete_object = some object;
          child_nodes = [];
          parent_node = some parent;
          free_list_iterator = none;
        })
        (record v { next_node = new + 1 })
  node ← v1.nodes parent
  some (new, set_node parent (record node { child_nodes = node.child_nodes ++ (new ∷ []) }) v1)

-- A node that is opened, if there is one, and the tree.
abbrev pub Opened : Type 0
Opened = Option ℕ × VirtualFilesystem

module _ (finddir : ℕ → List ℕ → Option (Option ConcreteObject)) where
  -- What the search among the children gave, or else the driver.
  unfoldable pub find_next : ℕ → Node → List ℕ → Option ℕ → VirtualFilesystem → Option Opened
  unfolding add_node
  find_next n node name (some child) v = some (some child, v)
  find_next n node name none v = do
    object ← node.concrete_object
    found ← finddir object.inode_num name
    elim found [
      | none ↦ some (none, v)
      | some child ↦ (do added ← add_node n name child v; some (some added.0, added.1))
    ]

  -- From a node to the next: its count, its lock and the next one's.
  unfoldable pub move_on : ℕ → ℕ → VirtualFilesystem → Option VirtualFilesystem
  unfolding increment_node_reference_count release_node acquire_node
  move_on n next v = increment_node_reference_count n v >>= release_node n >>= acquire_node next

  -- The loop of `open`, at a node that is locked. Where it returns false no lock is released.
  unfoldable pub open_loop : List (List ℕ) → ℕ → VirtualFilesystem → Option Opened
  unfolding find_child find_next move_on release_node
  open_loop [] n v = do v1 ← release_node n v; some (some n, v1)
  open_loop (name ∷ names) n v = do
    node ← v.nodes n
    child ← find_child node.child_nodes name v
    next ← find_next n node name child v
    elim next.0 [
      | none ↦ some (none, next.1)
      | some m ↦ (do
        v1 ← move_on n m next.1
        reached ← v1.nodes m
        elim reached.concrete_object [ none ↦ some (none, v1) | some _ ↦ open_loop names m v1 ])
    ]

  unfoldable pub open_path : List ℕ → VirtualFilesystem → Option Opened
  unfolding acquire_node parse_path open_loop
  open_path path v = do
    v1 ← acquire_node v.root_node v
    names ← parse_path path
    open_loop names v.root_node v1

-- The loop of `close`, from a node to the root. Fuel bounds the depth of the node.
unfoldable pub close_node : ℕ → ℕ → VirtualFilesystem → Option VirtualFilesystem
unfolding acquire_node decrement_node_reference_count release_node
close_node zero n v = none
close_node (suc fuel) n v = do
  v1 ← acquire_node n v
  node ← v1.nodes n
  v2 ← decrement_node_reference_count n v1
  v3 ← release_node n v2
  elim node.parent_node [ none ↦ some v3 | some parent ↦ close_node fuel parent v3 ]
