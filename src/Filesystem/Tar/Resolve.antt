-- ===== src/Filesystem/Tar/Resolve.antt =====
-- `resolve_path` as a walk over the parts of the path.
use xp_os.Prelude.{
  ℕ, ◌≡◌, ◌≢◌, refl, ap, sym, ◌∙◌, ◌==◌, List, [], ◌∷◌, ◌++◌, Option, some, Bool-cases, inl, inr,
}
use xp_os.Prelude.Chain.{◌>>=◌, bind_ap}
use mathlib.Core.List.{append-nil}
use xp_os.Filesystem.Path.{path_separator}
use xp_os.Filesystem.Path.Split.{
  split, add_prefix, add_prefix_nil, add_prefix-add_front, append-ne_nil, split-ne_nil,
  checked_part, copy_component_lem,
}
use xp_os.Filesystem.Tar.{
  TarReader, enter_directory, copy_filename, add_file, resolve_name, resolve_path,
}

-- Every part but the last is a directory to enter, and the last is the file.
unfoldable pub resolve_names : TarReader → ℕ → ℕ → ℕ → List (List ℕ) → Option TarReader
resolve_names r working inode header [] = some r
resolve_names r working inode header (name ∷ []) = elim name [
  | [] ↦ some r
  | c ∷ cs ↦ checked_part (c ∷ cs) >>= (λ (n : List ℕ). add_file r working n inode header)
]
resolve_names r working inode header (name ∷ next ∷ names) = checked_part name >>= (λ (n : List ℕ).
    enter_directory r working n
    >>= (λ (p : TarReader × ℕ). resolve_names p.0 p.1 inode header (next ∷ names)))

names_enter :
    (r : TarReader) (working inode header : ℕ) (name : List ℕ) (names : List (List ℕ))
    → names ≢ []
    → resolve_names r working inode header (name ∷ names) ≡ (
        checked_part name >>= (λ (n : List ℕ).
          enter_directory r working n
          >>= (λ (p : TarReader × ℕ). resolve_names p.0 p.1 inode header names)))
unfolding resolve_names
names_enter r working inode header name [] h = absurd (h refl)
names_enter r working inode header name (next ∷ names) h = refl

pub names_file :
    (r : TarReader) (working inode header : ℕ) (name : List ℕ)
    → name ≢ []
    → resolve_names r working inode header (name ∷ [])
      ≡ (checked_part name >>= (λ (n : List ℕ). add_file r working n inode header))
unfolding resolve_names
names_file r working inode header [] h = absurd (h refl)
names_file r working inode header (c ∷ cs) h = refl

filename_checked : (name : List ℕ) → name ≢ [] → copy_filename name ≡ checked_part name
unfolding copy_filename checked_part
filename_checked [] h = absurd (h refl)
filename_checked (c ∷ name) h = refl

-- What a separator ends is entered, and the rest is resolved from there.
after_separator :
    (r : TarReader) (working inode header : ℕ) (name text : List ℕ)
    → resolve_names r working inode header (add_prefix name ([] ∷ split text)) ≡ (
        checked_part name >>= (λ (n : List ℕ).
          enter_directory r working n
          >>= (λ (p : TarReader × ℕ). resolve_names p.0 p.1 inode header (split text))))
unfolding add_prefix
after_separator r working inode header name text =
    rw (append-nil name) (names_enter r working inode header name (split text) (split-ne_nil text))

resolve_name_lem :
    (r : TarReader) (working inode header : ℕ) (name text : List ℕ)
    → name ++ text ≢ []
    → resolve_name r working inode header name text
      ≡ resolve_names r working inode header (add_prefix name (split text))
unfolding resolve_name split add_prefix resolve_names
resolve_name_lem r working inode header name [] h =
    let named : name ≢ [] = λ e. h (append-nil name ∙ e) in
    rw (append-nil name) (
      ap (λ o. o >>= (λ (n : List ℕ). add_file r working n inode header))
        (filename_checked name named)
      ∙ sym (names_file r working inode header name named))
resolve_name_lem r working inode header name (c ∷ []) h = elim (Bool-cases (c == path_separator)) [
  | inl e ↦ rw e (
      ap
        (λ o.
          o >>= (λ (n : List ℕ). enter_directory r working n >>= (λ (p : TarReader × ℕ). some p.0)))
        (copy_component_lem name (c ∷ []) h)
      ∙ sym (after_separator r working inode header name []))
  | inr e ↦ rw e (
      resolve_name_lem r working inode header (name ++ (c ∷ [])) [] (append-ne_nil name c [])
      ∙ ap (resolve_names r working inode header) (add_prefix-add_front name c (split [])))
]
resolve_name_lem r working inode header name (c ∷ d ∷ text) h =
    elim (Bool-cases (c == path_separator)) [
      | inl e ↦
          let enter : (TarReader × ℕ → Option TarReader) → List ℕ → Option TarReader =
            λ f n. enter_directory r working n >>= f in
          let before : TarReader × ℕ → Option TarReader =
            λ p. resolve_name p.0 p.1 inode header [] (d ∷ text) in
          let after : TarReader × ℕ → Option TarReader =
            λ p. resolve_names p.0 p.1 inode header (split (d ∷ text)) in
          rw e (
            ap (λ o. o >>= enter before) (copy_component_lem name (c ∷ d ∷ text) h)
            ∙ bind_ap (checked_part name) (enter before) (enter after) (λ n.
              bind_ap (enter_directory r working n) before after (λ p.
                resolve_name_lem p.0 p.1 inode header [] (d ∷ text) (λ z. cc z)
                ∙ ap (resolve_names p.0 p.1 inode header)
                    (add_prefix_nil (split (d ∷ text)) (split-ne_nil (d ∷ text)))))
            ∙ sym (after_separator r working inode header name (d ∷ text)))
      | inr e ↦ rw e (
          resolve_name_lem r working inode header (name ++ (c ∷ [])) (d ∷ text)
            (append-ne_nil name c (d ∷ text))
          ∙ ap (resolve_names r working inode header)
              (add_prefix-add_front name c (split (d ∷ text))))
    ]

-- A path is resolved part by part, from the root.
pub resolve_path-eq :
    (r : TarReader) (path : List ℕ) (inode header : ℕ)
    → resolve_path r path inode header ≡ resolve_names r 0 inode header (split path)
unfolding resolve_path split resolve_names
resolve_path-eq r [] inode header = refl
resolve_path-eq r (c ∷ path) inode header =
    resolve_name_lem r 0 inode header [] (c ∷ path) (λ z. cc z)
    ∙ ap (resolve_names r 0 inode header)
        (add_prefix_nil (split (c ∷ path)) (split-ne_nil (c ∷ path)))
