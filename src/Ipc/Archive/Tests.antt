-- ===== src/Ipc/Archive/Tests.antt =====
-- A vector of two numbers, behind one byte and before another.
use xp_os.Prelude.{ℕ, ◌^◌, ◌<◌, ◌≡◌, List, [], ◌∷◌, ◌++◌, length, arith}
use xp_os.Ipc.Archive.{encode_items, push_bytes, bytes_of, integral, vector, int_bytes}
use xp_os.Ipc.Archive.Bytes.{integral-IsLawful}
use xp_os.Ipc.Archive.Vector.{decode-encode_vector}

abbrev numbers : List ℕ
numbers = 300 ∷ 7 ∷ []

abbrev before : List ℕ
before = 1 ∷ []

abbrev after : List ℕ
after = 2 ∷ []

decode-encode_vector_example :
    (vector (integral int_bytes)).decode (record {
      raw_bytes = (vector (integral int_bytes)).encode numbers before ++ after;
      current_offset = length before;
    })
    ≡ (
      numbers,
      record {
        raw_bytes = (vector (integral int_bytes)).encode numbers before ++ after;
        current_offset = length ((vector (integral int_bytes)).encode numbers before);
      },
    )
decode-encode_vector_example =
    decode-encode_vector (integral int_bytes) (λ v. v < 256 ^ int_bytes)
      (integral-IsLawful int_bytes) numbers before after (omega arith)
      (omega arith, (omega arith, tt)) (unfold encode_items push_bytes bytes_of in omega arith)
