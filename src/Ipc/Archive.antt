-- ===== src/Ipc/Archive.antt =====
-- `SerialisedData` and `DeserialisedData` of Userspace/Libraries/SerialisationLib/, and the messages
-- of the window server in ServerEndpoint.h and ClientEndpoint.h of Userspace/System/WindowServer/.
-- Integers are their unsigned words, and memory is little-endian.
pub mod Bytes
pub mod Vector
pub mod Messages
mod Tests
use xp_os.Prelude.{
  ℕ, zero, suc, ◌+◌, ◌*◌, ◌/◌, ◌%◌, ◌-◌, ◌^◌, Bool, ◌&&◌, ltb, leb, if◌then◌else◌, List, [], ◌∷◌,
  ◌++◌, length, take, drop,
}
use xp_os.Prelude.Word.{u32}

-- `SerialisedData` is the list of the bytes so far.
unfoldable pub push_bytes : List ℕ → List ℕ → List ℕ
push_bytes values message = message ++ values

-- `m_currentOffset` is an `int`: its 32-bit word, which is negative from 2^31 on.
pub record DeserialisedData : Type 0 where
  pub raw_bytes : List ℕ
  pub current_offset : ℕ

-- The bytes from `after - count` on, where `after` is the word of an `int`. Before the start of the
-- vector and past its end there are none; the code would read whatever is there, so every statement
-- has the bytes in place.
unfoldable pub bytes_before : ℕ → ℕ → List ℕ → List ℕ
bytes_before after count bytes =
    if ltb after (2 ^ 31) && leb count after then take count (drop (after - count) bytes) else []

-- `pop`, with the bytes that its pointer leads to: the offset is increased first, and narrowed to
-- `int`, and the pointer is computed from it.
unfoldable pub pop_bytes : ℕ → DeserialisedData → List ℕ × DeserialisedData
unfolding bytes_before
pop_bytes count d =
    let after = u32 (d.current_offset + count) in
    (bytes_before after count d.raw_bytes, record d { current_offset = after })

-- The bytes of an integer in memory.
unfoldable pub bytes_of : ℕ → ℕ → List ℕ
bytes_of zero v = []
bytes_of (suc size) v = (v % 256) ∷ bytes_of size (v / 256)

unfoldable pub value_of : List ℕ → ℕ
value_of [] = 0
value_of (b ∷ bytes) = b + 256 * value_of bytes

-- How a type is written and read: the overloads of `encode` and `decode`.
pub record Archivable {ℓ} (A : Type ℓ) : Type ℓ where
  pub encode : A → List ℕ → List ℕ
  pub decode : DeserialisedData → A × DeserialisedData

abbrev pub integral : ℕ → Archivable ℕ
integral size = record {
  encode = λ v message. push_bytes (bytes_of size v) message;
  decode = λ d. (value_of (pop_bytes size d).0, (pop_bytes size d).1);
}

-- `sizeof(std::size_t)`, `sizeof(int)` and `sizeof(char)`
abbrev pub size_bytes : ℕ
size_bytes = 8

abbrev pub int_bytes : ℕ
int_bytes = 4

abbrev pub char_bytes : ℕ
char_bytes = 1

module _ {ℓ} {A : Type ℓ} (item : Archivable A) where
  unfoldable pub encode_items : List A → List ℕ → List ℕ
  encode_items [] message = message
  encode_items (x ∷ xs) message = encode_items xs (item.encode x message)

  -- The loop that reads `n` items to the end of the vector.
  unfoldable pub decode_items : ℕ → List A → DeserialisedData → List A × DeserialisedData
  decode_items zero xs d = (xs, d)
  decode_items (suc n) xs d = let (x, d') = item.decode d in decode_items n (xs ++ (x ∷ [])) d'

  abbrev pub vector : Archivable (List A)
  vector = record {
    encode = λ xs message. encode_items xs (push_bytes (bytes_of size_bytes (length xs)) message);
    decode = λ d. let (size, d') = (integral size_bytes).decode d in decode_items size [] d';
  }

-- A string is its characters.
abbrev pub string : Archivable (List ℕ)
string = vector (integral char_bytes)

pub record CreateWindow : Type 0 where
  pub width : ℕ
  pub height : ℕ

-- `define_archivable`, for both directions.
abbrev pub create_window : Archivable CreateWindow
create_window = record {
  encode = λ m message.
      (integral int_bytes).encode m.height ((integral int_bytes).encode m.width message);
  decode = λ d.
      let (w, d1) = (integral int_bytes).decode d in
      let (h, d2) = (integral int_bytes).decode d1 in (record { width = w; height = h }, d2);
}

pub record CreateWindowCallback : Type 0 where
  pub shared_memory_id : List ℕ

abbrev pub create_window_callback : Archivable CreateWindowCallback
create_window_callback = record {
  encode = λ m message. string.encode m.shared_memory_id message;
  decode = λ d. let (s, d') = string.decode d in (record { shared_memory_id = s }, d');
}

pub record KeyEvent : Type 0 where
  pub key_up : ℕ
  pub key : ℕ

abbrev pub key_event : Archivable KeyEvent
key_event = record {
  encode = λ m message.
      (integral char_bytes).encode m.key ((integral char_bytes).encode m.key_up message);
  decode = λ d.
      let (u, d1) = (integral char_bytes).decode d in
      let (k, d2) = (integral char_bytes).decode d1 in (record { key_up = u; key = k }, d2);
}
