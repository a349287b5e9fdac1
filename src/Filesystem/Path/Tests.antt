-- ===== src/Filesystem/Path/Tests.antt =====
-- Paths that start or end with a separator, or have two in a row.
use xp_os.Prelude.{◌≡◌, refl, [], ◌∷◌, none, some}
use xp_os.Common.Strings.{decrement, copy_loop, strncpy}
use xp_os.Filesystem.Path.{copy_component, parse_component, parse_path}
use xp_os.Filesystem.Path.Split.{split, add_front, drop_empty_end, checked, parse_path-eq}

parse_path-eq_example :
    parse_path (97 ∷ 47 ∷ 98 ∷ 47 ∷ []) ≡ checked (drop_empty_end (split (97 ∷ 47 ∷ 98 ∷ 47 ∷ [])))
parse_path-eq_example = parse_path-eq (97 ∷ 47 ∷ 98 ∷ 47 ∷ [])

leading_separator : parse_path (47 ∷ 97 ∷ []) ≡ none
unfolding parse_path parse_component copy_component strncpy copy_loop decrement
leading_separator = refl

trailing_separator : parse_path (97 ∷ 47 ∷ []) ≡ some ((97 ∷ []) ∷ [])
unfolding parse_path parse_component copy_component strncpy copy_loop decrement
trailing_separator = refl

double_separator : split (97 ∷ 47 ∷ 47 ∷ []) ≡ (97 ∷ []) ∷ [] ∷ [] ∷ []
unfolding split add_front
double_separator = refl

-- A count greater than the text: zeros go over its start.
filled_start : strncpy 8 (97 ∷ 98 ∷ []) 4 ≡ some (0 ∷ 0 ∷ 0 ∷ [])
unfolding strncpy copy_loop decrement
filled_start = refl
