-- ===== src/Filesystem/Nodes/Tests.antt =====
-- A root whose directory has the file `a`, number 1, and nothing else.
use xp_os.Prelude.{
  ℕ, ◌≡◌, refl, false, ◌&&◌, List, [], ◌∷◌, Option, none, some, ◌==◌, if◌then◌else◌,
}
use xp_os.Prelude.Chain.{◌>>=◌}
use xp_os.Prelude.Int.{ℤ, pos, negsuc, ◌+ℤ◌, ◌-ℤ◌}
use xp_os.Common.Strings.{same_name, strncpy, copy_loop, decrement}
use xp_os.Filesystem.Path.{copy_component, parse_component, parse_path}
use xp_os.Filesystem.Tar.{ConcreteObject, file, directory}
use xp_os.Filesystem.Nodes.{
  Node, VirtualFilesystem, open_path, open_loop, acquire_node, release_node, find_child, find_next,
  add_node, move_on, increment_node_reference_count, decrement_node_reference_count, leave_unused,
  is_zero_count, close_node,
}
use xp_os.Filesystem.Nodes.Stuck.{open_path-missing}

abbrev finddir : ℕ → List ℕ → Option (Option ConcreteObject)
finddir inode name =
    if inode == 0 && same_name name (97 ∷ [])
    then some (some (record { type = file; fs = some 0x1000; inode_num = 1 }))
    else some none

abbrev root_object : ConcreteObject
root_object = record { type = directory; fs = none; inode_num = 0 }

abbrev root : Node
root = record {
  ref_count = pos 1;
  locked = false;
  component_name = [];
  concrete_object = some root_object;
  child_nodes = [];
  parent_node = none;
  free_list_iterator = none;
}

abbrev tree : VirtualFilesystem
tree = record {
  nodes = λ n. if n == 8 then some root else none;
  root_node = 8;
  next_node = 16;
  unused_nodes = [];
  next_item = 0;
}

parse_b : parse_path (98 ∷ []) ≡ some ((98 ∷ []) ∷ [])
unfolding parse_path parse_component copy_component strncpy copy_loop decrement
parse_b = refl

open_path-missing_example :
    (after : VirtualFilesystem) × (open_path finddir (98 ∷ []) tree ≡ some (none, after))
    × ((other : List ℕ) → open_path finddir other after ≡ none)
unfolding find_child same_name
open_path-missing_example =
    open_path-missing finddir tree root root_object (98 ∷ []) (98 ∷ []) [] refl refl refl parse_b
      refl refl

-- The file is opened as node 16, and node 16 closed again: its count is -1, since opening counted only
-- the nodes above it.
abbrev count_of : ℕ → Option VirtualFilesystem → Option ℤ
count_of n o =
    o >>= (λ (v : VirtualFilesystem). v.nodes n >>= (λ (node : Node). some node.ref_count))

count_after_close :
    count_of 16 (open_path finddir (97 ∷ []) tree >>= (λ p. close_node 2 16 p.1)) ≡ some (negsuc 0)
unfolding open_path open_loop acquire_node release_node find_child find_next add_node move_on
    increment_node_reference_count decrement_node_reference_count leave_unused is_zero_count
    close_node same_name parse_path parse_component copy_component strncpy copy_loop decrement ◌+ℤ◌
    ◌-ℤ◌
count_after_close = refl
