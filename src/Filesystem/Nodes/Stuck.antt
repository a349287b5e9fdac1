-- ===== src/Filesystem/Nodes/Stuck.antt =====
-- After `open` has failed.
use xp_os.Prelude.{ℕ, ◌≡◌, refl, true, false, List, ◌∷◌, Option, none, some}
use xp_os.Prelude.Map.{update_self}
use xp_os.Filesystem.Path.{parse_path}
use xp_os.Filesystem.Tar.{ConcreteObject}
use xp_os.Filesystem.Nodes.{
  Node, VirtualFilesystem, set_node, acquire_node, find_child, find_next, open_loop, open_path,
}

-- The node as `acquire` leaves it.
abbrev held : Node → Node
held node = record node { locked = true }

acquire_held :
    (n : ℕ) (node : Node) (v : VirtualFilesystem)
    → v.nodes n ≡ some (held node)
    → acquire_node n v ≡ none
unfolding acquire_node
acquire_held n node v h = rw h refl

acquire_free :
    (n : ℕ) (node : Node) (v : VirtualFilesystem)
    → v.nodes n ≡ some node
    → node.locked ≡ false
    → acquire_node n v ≡ some (set_node n (held node) v)
unfolding acquire_node
acquire_free n node v found free = rw found (rw free refl)

module _ (finddir : ℕ → List ℕ → Option (Option ConcreteObject)) where
  find_next-missing :
      (n : ℕ) (node : Node) (object : ConcreteObject) (name : List ℕ) (v : VirtualFilesystem)
      → node.concrete_object ≡ some object
      → finddir object.inode_num name ≡ some none
      → find_next finddir n node name none v ≡ some (none, v)
  unfolding find_next
  find_next-missing n node object name v has missing = rw has (rw missing refl)

  missing_child :
      (n : ℕ) (node : Node) (object : ConcreteObject) (name : List ℕ) (names : List (List ℕ))
      → (v : VirtualFilesystem) → v.nodes n ≡ some node
      → find_child node.child_nodes name v ≡ some none
      → node.concrete_object ≡ some object
      → finddir object.inode_num name ≡ some none
      → open_loop finddir (name ∷ names) n v ≡ some (none, v)
  unfolding open_loop
  missing_child n node object name names v found absent has missing =
      rw found (rw absent (rw (find_next-missing n node object name v has missing) refl))

  open_held :
      (path : List ℕ) (node : Node) (v : VirtualFilesystem)
      → v.nodes v.root_node ≡ some (held node)
      → open_path finddir path v ≡ none
  unfolding open_path
  open_held path node v h = rw (acquire_held v.root_node node v h) refl

  -- The root is not locked and has an object, and a path's first name is not among its children, and
  -- not in the driver's directory. Then `open` of the path returns false and leaves the root locked: no
  -- later `open` of any path returns.
  pub open_path-missing :
      (v : VirtualFilesystem) (root : Node) (object : ConcreteObject) (path name : List ℕ)
      → (names : List (List ℕ)) → v.nodes v.root_node ≡ some root
      → root.locked ≡ false
      → root.concrete_object ≡ some object
      → parse_path path ≡ some (name ∷ names)
      → find_child root.child_nodes name (set_node v.root_node (held root) v) ≡ some none
      → finddir object.inode_num name ≡ some none
      → (after : VirtualFilesystem) × (open_path finddir path v ≡ some (none, after))
        × ((other : List ℕ) → open_path finddir other after ≡ none)
  unfolding open_path
  open_path-missing v root object path name names found free has parsed absent missing =
      let after : VirtualFilesystem = set_node v.root_node (held root) v in
      let there : after.nodes v.root_node ≡ some (held root) =
        update_self v.nodes v.root_node (held root) in
      (
        after,
        rw (acquire_free v.root_node root v found free, parsed)
            (missing_child v.root_node (held root) object name names after there absent has
              missing),
        λ other. open_held other root after there,
      )
