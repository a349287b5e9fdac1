-- ===== src/Filesystem/Path/Join.antt =====
-- `parse_path` on a path that is put together from names.
use xp_os.Prelude.{
  some, length, lt→ltb, ◌<◌, ℕ, ◌≡◌, ◌≢◌, refl, ap, ◌∙◌, false, ◌==◌, List, [], ◌∷◌, ◌++◌,
}
use xp_os.Prelude.All.{All}
use xp_os.Filesystem.Path.{path_separator, max_path_size, parse_path}
use xp_os.Filesystem.Path.Split.{
  split, add_front, drop_empty_end, drop_empty_end_one, parse_path-eq, checked_part, checked,
}

-- The text of names with a separator between each two.
unfoldable pub join : List (List ℕ) → List ℕ
join [] = []
join (name ∷ []) = name
join (name ∷ next ∷ names) = name ++ (path_separator ∷ join (next ∷ names))

abbrev IsPlain : ℕ → Type 0
IsPlain c = (c == path_separator) ≡ false

-- A name that a path can have: characters, none of which is the separator, and fewer than 256.
abbrev pub IsName : List ℕ → Type 0
IsName name = (name ≢ []) × All IsPlain name × (length name < max_path_size)

split_plain : (name : List ℕ) → All IsPlain name → split name ≡ name ∷ []
unfolding split add_front
split_plain [] h = refl
split_plain (c ∷ name) h = rw (h.0, split_plain name h.1) refl

split_more :
    (name text : List ℕ)
    → All IsPlain name
    → split (name ++ (path_separator ∷ text)) ≡ name ∷ split text
unfolding split add_front
split_more [] text h = refl
split_more (c ∷ name) text h = rw (h.0, split_more name text h.1) refl

-- Names that are joined are the parts of the text.
pub split-join :
    (name : List ℕ) (names : List (List ℕ))
    → All IsName (name ∷ names)
    → split (join (name ∷ names)) ≡ name ∷ names
unfolding join
split-join name [] h = split_plain name h.0.1
split-join name (next ∷ names) h =
    split_more name (join (next ∷ names)) h.0.1
    ∙ ap (λ (rest : List (List ℕ)). name ∷ rest) (split-join next names h.1)

keep_names : (names : List (List ℕ)) → All IsName names → drop_empty_end names ≡ names
unfolding drop_empty_end
keep_names [] h = refl
keep_names (name ∷ []) h = drop_empty_end_one name h.0.0
keep_names (name ∷ next ∷ names) h =
    ap (λ (rest : List (List ℕ)). name ∷ rest) (keep_names (next ∷ names) h.1)

pub checked_name : (name : List ℕ) → IsName name → checked_part name ≡ some name
unfolding checked_part
checked_name [] h = absurd (h.0 refl)
checked_name (c ∷ name) h = rw (lt→ltb (length (c ∷ name)) max_path_size h.2) refl

checked_names : (names : List (List ℕ)) → All IsName names → checked names ≡ some names
unfolding checked
checked_names [] h = refl
checked_names (name ∷ names) h = rw (checked_name name h.0, checked_names names h.1) refl

-- Names that are joined to a path are what `parse_path` makes of it.
pub parse_path-join :
    (names : List (List ℕ)) → All IsName names → parse_path (join names) ≡ some names
unfolding join parse_path
parse_path-join [] h = refl
parse_path-join (name ∷ names) h =
    parse_path-eq (join (name ∷ names))
    ∙ ap (λ parts. checked (drop_empty_end parts)) (split-join name names h)
    ∙ ap checked (keep_names (name ∷ names) h)
    ∙ checked_names (name ∷ names) h
