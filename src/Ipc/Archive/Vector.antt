-- ===== src/Ipc/Archive/Vector.antt =====
-- Vectors and strings are read back as they were written.
use xp_os.Prelude.{ℕ, ◌^◌, ◌<◌, ◌≡◌, ap, ap₂, sym, ◌∙◌, List, [], ◌∷◌, ◌++◌, length}
use xp_os.Prelude.All.{All}
use mathlib.Core.List.{append_assoc, append-nil}
use xp_os.Ipc.Archive.{
  DeserialisedData, Archivable, bytes_of, push_bytes, size_bytes, encode_items, decode_items,
  vector,
}
use xp_os.Ipc.Archive.Bytes.{
  IsLawful, Reads, skip, skip-Reads, first-Reads, skip_nil, skip-append, round_trip,
  integral_decodes,
}

module _ {ℓ} {A : Type ℓ} (item : Archivable A) (Fits : A → Type 0)
    (lawful : IsLawful item Fits) where
  items_code : List A → List ℕ
  items_code [] = []
  items_code (x ∷ xs) = lawful.code x ++ items_code xs

  encode_items_lem :
      (xs : List A) (message : List ℕ) → encode_items item xs message ≡ message ++ items_code xs
  unfolding encode_items items_code
  encode_items_lem [] message = sym (append-nil message)
  encode_items_lem (x ∷ xs) message =
      encode_items_lem xs (item.encode x message)
      ∙ ap (λ l. l ++ items_code xs) (lawful.encodes x message)
      ∙ append_assoc message (lawful.code x) (items_code xs)

  decode_items_lem :
      (xs before : List A) (d : DeserialisedData) (rest : List ℕ)
      → All Fits xs
      → Reads d (items_code xs) rest
      → decode_items item (length xs) before d ≡ (before ++ xs, skip (items_code xs) d)
  unfolding decode_items items_code
  decode_items_lem [] before d rest fits h =
      ap₂ (λ l e. (l, e)) (sym (append-nil before)) (skip_nil d)
  decode_items_lem (x ∷ xs) before d rest fits h =
      ap (λ y. decode_items item (length xs) (before ++ (y.0 ∷ [])) y.1)
        (lawful.decodes x d (items_code xs ++ rest) fits.0
          (first-Reads d (lawful.code x) (items_code xs) rest h))
      ∙ decode_items_lem xs (before ++ (x ∷ [])) (skip (lawful.code x) d) rest fits.1
          (skip-Reads d (lawful.code x) (items_code xs) rest h)
      ∙ ap₂ (λ l e. (l, e)) (append_assoc before (x ∷ []) xs)
          (skip-append d (lawful.code x) (items_code xs))

  abbrev VectorFits : List A → Type 0
  VectorFits xs = (length xs < 256 ^ size_bytes) × All Fits xs

  abbrev vector_code : List A → List ℕ
  vector_code xs = bytes_of size_bytes (length xs) ++ items_code xs

  vector_decodes :
      (xs : List A) (d : DeserialisedData) (rest : List ℕ)
      → VectorFits xs
      → Reads d (vector_code xs) rest
      → (vector item).decode d ≡ (xs, skip (vector_code xs) d)
  vector_decodes xs d rest fits h =
      ap (λ y. decode_items item y.0 [] y.1)
        (integral_decodes size_bytes (length xs) d (items_code xs ++ rest) fits.0
          (first-Reads d (bytes_of size_bytes (length xs)) (items_code xs) rest h))
      ∙ decode_items_lem xs [] (skip (bytes_of size_bytes (length xs)) d) rest fits.1
          (skip-Reads d (bytes_of size_bytes (length xs)) (items_code xs) rest h)
      ∙ ap (λ e. (xs, e)) (skip-append d (bytes_of size_bytes (length xs)) (items_code xs))

  pub vector-IsLawful : IsLawful (vector item) (λ xs. (length xs < 256 ^ size_bytes) × All Fits xs)
  unfolding push_bytes
  vector-IsLawful = record {
    code = λ xs. bytes_of size_bytes (length xs) ++ items_code xs;
    encodes = λ xs message.
        encode_items_lem xs (message ++ bytes_of size_bytes (length xs))
        ∙ append_assoc message (bytes_of size_bytes (length xs)) (items_code xs);
    decodes = vector_decodes;
  }

  -- A vector of items that are read back as they were written is so too, behind any bytes and before
  -- any others, if its items fit their types, their number fits `size_t`, and the bytes up to its end
  -- are fewer than 2^31, the range of the offset.
  pub decode-encode_vector :
      (xs : List A) (before after : List ℕ)
      → length xs < 256 ^ size_bytes
      → All Fits xs
      → length ((vector item).encode xs before) < 2 ^ 31
      → (vector item).decode (record {
        raw_bytes = (vector item).encode xs before ++ after;
        current_offset = length before;
      })
        ≡ (
          xs,
          record {
            raw_bytes = (vector item).encode xs before ++ after;
            current_offset = length ((vector item).encode xs before);
          },
        )
  decode-encode_vector xs before after few fits room =
      round_trip (vector item) (λ xs. (length xs < 256 ^ size_bytes) × All Fits xs) vector-IsLawful
        xs before after (few, fits) room
