-- ===== src/Filesystem/Path/Split.antt =====
-- `parse_path` against a split at every separator.
use xp_os.Prelude.{
  ap₂, arith, Option, none, some, ltb, ltb→lt, length, take, if_true, if_false, ℕ, ◌≡◌, ◌≢◌, refl,
  ap, sym, ◌∙◌, ◌==◌, List, [], ◌∷◌, ◌++◌, if◌then◌else◌, Bool-cases, inl, inr,
}
use mathlib.Core.List.{append_assoc, append-nil}
use xp_os.Prelude.Chain.{◌>>=◌, bind_to_none}
use xp_os.Common.Strings.{strncpy}
use xp_os.Common.Strings.Copied.{strncpy-zero, strncpy-fits}
use xp_os.Filesystem.Path.{
  path_separator, max_path_size, copy_component, parse_component, parse_path,
}

-- The parts of a text between its separators: one more than it has separators.
unfoldable pub add_front : ℕ → List (List ℕ) → List (List ℕ)
add_front c [] = (c ∷ []) ∷ []
add_front c (part ∷ parts) = (c ∷ part) ∷ parts

unfoldable pub split : List ℕ → List (List ℕ)
split [] = [] ∷ []
split (c ∷ text) = if c == path_separator then [] ∷ split text else add_front c (split text)

-- The parts without the last one if that is empty.
unfoldable pub drop_empty_end : List (List ℕ) → List (List ℕ)
drop_empty_end [] = []
drop_empty_end (part ∷ []) = elim part [ [] ↦ [] | c ∷ cs ↦ (c ∷ cs) ∷ [] ]
drop_empty_end (part ∷ next ∷ parts) = part ∷ drop_empty_end (next ∷ parts)

unfoldable pub add_prefix : List ℕ → List (List ℕ) → List (List ℕ)
add_prefix name [] = name ∷ []
add_prefix name (part ∷ parts) = (name ++ part) ∷ parts

pub add_prefix_nil : (parts : List (List ℕ)) → parts ≢ [] → add_prefix [] parts ≡ parts
unfolding add_prefix
add_prefix_nil [] h = absurd (h refl)
add_prefix_nil (part ∷ parts) h = refl

pub add_prefix-add_front :
    (name : List ℕ) (c : ℕ) (parts : List (List ℕ))
    → add_prefix (name ++ (c ∷ [])) parts ≡ add_prefix name (add_front c parts)
unfolding add_prefix add_front
add_prefix-add_front name c [] = refl
add_prefix-add_front name c (part ∷ parts) = ap (λ p. p ∷ parts) (append_assoc name (c ∷ []) part)

add_front-ne_nil : (c : ℕ) (parts : List (List ℕ)) → add_front c parts ≢ []
unfolding add_front
add_front-ne_nil c [] h = cc h
add_front-ne_nil c (part ∷ parts) h = cc h

pub split-ne_nil : (text : List ℕ) → split text ≢ []
unfolding split
split-ne_nil [] = λ h. cc h
split-ne_nil (c ∷ text) = elim (Bool-cases (c == path_separator)) [
  | inl e ↦
      λ h. cc (h, if_true (c == path_separator) ([] ∷ split text) (add_front c (split text)) e)
  | inr e ↦ λ h.
      add_front-ne_nil c (split text)
        (sym (if_false (c == path_separator) ([] ∷ split text) (add_front c (split text)) e) ∙ h)
]

drop_empty_end_cons :
    (part : List ℕ) (parts : List (List ℕ))
    → parts ≢ []
    → drop_empty_end (part ∷ parts) ≡ part ∷ drop_empty_end parts
unfolding drop_empty_end
drop_empty_end_cons part [] h = absurd (h refl)
drop_empty_end_cons part (next ∷ parts) h = refl

pub drop_empty_end_one : (part : List ℕ) → part ≢ [] → drop_empty_end (part ∷ []) ≡ part ∷ []
unfolding drop_empty_end
drop_empty_end_one [] h = absurd (h refl)
drop_empty_end_one (c ∷ part) h = refl

pub append-ne_nil : (name : List ℕ) (c : ℕ) (text : List ℕ) → (name ++ (c ∷ [])) ++ text ≢ []
append-ne_nil [] c text h = cc h
append-ne_nil (d ∷ name) c text h = cc h

read_end :
    (name : List ℕ) → name ++ [] ≢ [] → name ∷ [] ≡ drop_empty_end (add_prefix name ([] ∷ []))
unfolding add_prefix
read_end name h =
    rw (append-nil name) (sym (drop_empty_end_one name (λ e. h (append-nil name ∙ e))))

-- What the parts after a separator leave of the name before it.
part_end :
    (name text : List ℕ)
    → drop_empty_end (add_prefix name ([] ∷ split text)) ≡ name ∷ drop_empty_end (split text)
unfolding add_prefix
part_end name text =
    rw (append-nil name) (drop_empty_end_cons name (split text) (split-ne_nil text))

-- A part that a component can be: with a character, and with fewer than the buffer has.
unfoldable pub checked_part : List ℕ → Option (List ℕ)
checked_part [] = none
checked_part (c ∷ cs) = if ltb (length (c ∷ cs)) max_path_size then some (c ∷ cs) else none

unfoldable pub checked : List (List ℕ) → Option (List (List ℕ))
checked [] = some []
checked (part ∷ parts) = do first ← checked_part part; others ← checked parts; some (first ∷ others)

take-all : (name : List ℕ) → take (length name) name ≡ name
take-all [] = refl
take-all (c ∷ name) = ap (λ (rest : List ℕ). c ∷ rest) (take-all name)

-- A name is copied as it is. An empty one makes `strncpy` run behind the buffer.
pub copy_component_lem :
    (name rest : List ℕ) → name ++ rest ≢ [] → copy_component name rest ≡ checked_part name
unfolding copy_component checked_part
copy_component_lem [] [] h = absurd (h refl)
copy_component_lem [] (c ∷ rest) h = rw (strncpy-zero max_path_size c rest (omega arith)) refl
copy_component_lem (c ∷ name) rest h = elim (Bool-cases (ltb (length (c ∷ name)) max_path_size)) [
  | inl e ↦
      rw (strncpy-fits c name rest (omega (arith, ltb→lt (length (c ∷ name)) max_path_size e)))
        (rw e (ap (λ (t : List ℕ). some t) (take-all (c ∷ name))))
  | inr e ↦ rw e (bind_to_none (strncpy max_path_size ((c ∷ name) ++ rest) (length (c ∷ name))))
]

abbrev Texts : Type 0
Texts = List (List ℕ)

-- A part is checked, and the parts behind it.
cons_part : Option (List ℕ) → Option Texts → Option Texts
cons_part o rest = o >>= (λ (part : List ℕ). rest >>= (λ (parts : Texts). some (part ∷ parts)))

parse_component_lem :
    (name text : List ℕ)
    → name ++ text ≢ []
    → parse_component name text ≡ checked (drop_empty_end (add_prefix name (split text)))
unfolding parse_component split drop_empty_end checked cons_part
parse_component_lem name [] h =
    ap (λ o. cons_part o (some [])) (copy_component_lem name [] h) ∙ ap checked (read_end name h)
parse_component_lem name (c ∷ []) h = elim (Bool-cases (c == path_separator)) [
  | inl e ↦ rw e (
      ap (λ o. cons_part o (some [])) (copy_component_lem name (c ∷ []) h)
      ∙ ap checked (sym (part_end name [])))
  | inr e ↦ rw e (
      parse_component_lem (name ++ (c ∷ [])) [] (append-ne_nil name c [])
      ∙ ap (λ parts. checked (drop_empty_end parts)) (add_prefix-add_front name c (split [])))
]
parse_component_lem name (c ∷ d ∷ text) h = elim (Bool-cases (c == path_separator)) [
  | inl e ↦
      let below : parse_component [] (d ∷ text) ≡ checked (drop_empty_end (split (d ∷ text))) =
        parse_component_lem [] (d ∷ text) (λ e. cc e)
        ∙ ap (λ parts. checked (drop_empty_end parts))
            (add_prefix_nil (split (d ∷ text)) (split-ne_nil (d ∷ text))) in
      rw e (
        ap₂ cons_part (copy_component_lem name (c ∷ d ∷ text) h) below
        ∙ ap checked (sym (part_end name (d ∷ text))))
  | inr e ↦ rw e (
      parse_component_lem (name ++ (c ∷ [])) (d ∷ text) (append-ne_nil name c (d ∷ text))
      ∙ ap (λ parts. checked (drop_empty_end parts))
          (add_prefix-add_front name c (split (d ∷ text))))
]

-- A path is split at every separator, and an empty part at its end is left out. If every other part
-- has a character and fewer than 256, these are the components; if not, a copy runs behind the buffer.
pub parse_path-eq : (path : List ℕ) → parse_path path ≡ checked (drop_empty_end (split path))
unfolding parse_path split drop_empty_end checked
parse_path-eq [] = refl
parse_path-eq (c ∷ path) =
    parse_component_lem [] (c ∷ path) (λ h. cc h)
    ∙ ap (λ parts. checked (drop_empty_end parts))
        (add_prefix_nil (split (c ∷ path)) (split-ne_nil (c ∷ path)))
