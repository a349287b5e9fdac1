-- ===== src/Ipc/Archive/Messages.antt =====
-- The messages of the window server are read back as they were sent.
use xp_os.Prelude.{ℕ, ◌^◌, ◌<◌, ◌≡◌, ap, ◌∙◌, List, ◌++◌, length}
use xp_os.Prelude.All.{All}
use mathlib.Core.List.{append_assoc}
use xp_os.Ipc.Archive.{
  DeserialisedData, bytes_of, integral, push_bytes, int_bytes, char_bytes, size_bytes, string,
  CreateWindow, create_window, CreateWindowCallback, create_window_callback, key_event,
}
use xp_os.Ipc.Archive.Bytes.{
  IsLawful, Reads, skip, skip-Reads, first-Reads, skip-append, round_trip, integral-IsLawful,
  integral_decodes,
}
use xp_os.Ipc.Archive.Vector.{vector-IsLawful}

-- Two integers, one after the other.
two_integers :
    (size a b : ℕ) (d : DeserialisedData) (rest : List ℕ)
    → a < 256 ^ size
    → b < 256 ^ size
    → Reads d (bytes_of size a ++ bytes_of size b) rest
    → ((integral size).decode d ≡ (a, skip (bytes_of size a) d))
      × ((integral size).decode (skip (bytes_of size a) d)
          ≡ (b, skip (bytes_of size a ++ bytes_of size b) d))
two_integers size a b d rest ha hb h = (
  integral_decodes size a d (bytes_of size b ++ rest) ha
      (first-Reads d (bytes_of size a) (bytes_of size b) rest h),
  integral_decodes size b (skip (bytes_of size a) d) rest hb
        (skip-Reads d (bytes_of size a) (bytes_of size b) rest h)
      ∙ ap (λ e. (b, e)) (skip-append d (bytes_of size a) (bytes_of size b)),
)

abbrev WindowFits : CreateWindow → Type 0
WindowFits m = (m.width < 256 ^ int_bytes) × (m.height < 256 ^ int_bytes)

create_window-IsLawful : IsLawful create_window WindowFits
unfolding push_bytes
create_window-IsLawful = record {
  code = λ m. bytes_of int_bytes m.width ++ bytes_of int_bytes m.height;
  encodes =
      λ m message. append_assoc message (bytes_of int_bytes m.width) (bytes_of int_bytes m.height);
  decodes = λ m d rest fits h.
      let both = two_integers int_bytes m.width m.height d rest fits.0 fits.1 h in
      ap
        (λ y.
          let (b, e) = (integral int_bytes).decode y.1 in (record { width = y.0; height = b }, e))
        both.0
      ∙ ap (λ y. (record { width = m.width; height = y.0 }, y.1)) both.1;
}

key_event-IsLawful :
    IsLawful key_event (λ m. (m.key_up < 256 ^ char_bytes) × (m.key < 256 ^ char_bytes))
unfolding push_bytes
key_event-IsLawful = record {
  code = λ m. bytes_of char_bytes m.key_up ++ bytes_of char_bytes m.key;
  encodes =
      λ m message. append_assoc message (bytes_of char_bytes m.key_up) (bytes_of char_bytes m.key);
  decodes = λ m d rest fits h.
      let both = two_integers char_bytes m.key_up m.key d rest fits.0 fits.1 h in
      ap
        (λ y.
          let (b, e) = (integral char_bytes).decode y.1 in (record { key_up = y.0; key = b }, e))
        both.0
      ∙ ap (λ y. (record { key_up = m.key_up; key = y.0 }, y.1)) both.1;
}

-- A message that asks for a window is read back, if its two sizes fit `int`, and so does the number
-- of bytes up to its end.
decode-encode_create_window :
    (m : CreateWindow) (before after : List ℕ)
    → m.width < 256 ^ int_bytes
    → m.height < 256 ^ int_bytes
    → length (create_window.encode m before) < 2 ^ 31
    → create_window.decode (record {
      raw_bytes = create_window.encode m before ++ after;
      current_offset = length before;
    })
      ≡ (
        m,
        record {
          raw_bytes = create_window.encode m before ++ after;
          current_offset = length (create_window.encode m before);
        },
      )
decode-encode_create_window m before after hw hh room =
    round_trip create_window WindowFits create_window-IsLawful m before after (hw, hh) room

abbrev IsChar : ℕ → Type 0
IsChar c = c < 256 ^ char_bytes

abbrev CallbackFits : CreateWindowCallback → Type 0
CallbackFits m = (length m.shared_memory_id < 256 ^ size_bytes) × All IsChar m.shared_memory_id

string-IsLawful : IsLawful string (λ s. (length s < 256 ^ size_bytes) × All IsChar s)
string-IsLawful = vector-IsLawful (integral char_bytes) IsChar (integral-IsLawful char_bytes)

create_window_callback-IsLawful : IsLawful create_window_callback CallbackFits
create_window_callback-IsLawful = record {
  code = λ m. string-IsLawful.code m.shared_memory_id;
  encodes = λ m message. string-IsLawful.encodes m.shared_memory_id message;
  decodes = λ m d rest fits h.
      ap (λ y. (record { shared_memory_id = y.0 }, y.1))
        (string-IsLawful.decodes m.shared_memory_id d rest fits h);
}
