-- ===== src/Filesystem/Path.antt =====
-- `parse_path` of Kernel/Filesystem/VFS.cpp. A C string is the list of its characters without the
-- NUL. `none` is a write behind a component's buffer.
pub mod Split
pub mod Join
mod Tests
use xp_os.Prelude.{
  ℕ, ◌==◌, List, [], ◌∷◌, ◌++◌, Option, none, some, if◌then◌else◌, length, take, ltb,
}
use xp_os.Prelude.Chain.{◌>>=◌}
use xp_os.Common.Strings.{strncpy}

abbrev pub path_separator : ℕ
path_separator = 47

abbrev pub max_path_size : ℕ
max_path_size = 256

-- The first `length name` characters of `name ++ rest` are copied, and a NUL is put behind them.
unfoldable pub copy_component : List ℕ → List ℕ → Option (List ℕ)
unfolding strncpy
copy_component name rest = do
  bytes ← strncpy max_path_size (name ++ rest) (length name)
  if ltb (length name) max_path_size then some (take (length name) bytes) else none

-- Both loops: `component` is what lies between `front` and `back`. Behind a separator the outer loop
-- goes on only if there is another character.
unfoldable pub parse_component : List ℕ → List ℕ → Option (List (List ℕ))
unfolding copy_component
parse_component component [] = do part ← copy_component component []; some (part ∷ [])
parse_component component (c ∷ path) =
    let further = parse_component (component ++ (c ∷ [])) path in
    let next : Option (List (List ℕ)) = elim path [
      | [] ↦ some []
      | _ ∷ _ ↦ parse_component [] path
    ] in
    let parsed : Option (List (List ℕ)) = (do
      part ← copy_component component (c ∷ path)
      parts ← next
      some (part ∷ parts)) in
    if c == path_separator then parsed else further

unfoldable pub parse_path : List ℕ → Option (List (List ℕ))
parse_path [] = some []
parse_path (c ∷ path) = parse_component [] (c ∷ path)
