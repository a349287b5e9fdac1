-- ===== src/Drivers/Keyboard.antt =====
-- Scan codes of Kernel/Drivers/HID/Keyboard.cpp: what `convert_keys` makes of those that have come in.
pub mod Batches
mod Tests
use xp_os.Prelude.{ℕ, ◌%◌, Bool, true, false, List, [], ◌∷◌, ◌++◌, ◌==◌, leb, if◌then◌else◌, get_or}

pub data Movement : Type 0 where
  key_down key_up : Movement

pub record KeyboardEvent : Type 0 where
  pub movement : Movement
  pub key : ℕ

abbrev pub scancode_s1_extid : ℕ
scancode_s1_extid = 0xe0

abbrev pub scancode_s1_releasemod : ℕ
scancode_s1_releasemod = 0x80

-- The table, up to the last of its entries that is not 0.
abbrev pub scancode_s1_map : List ℕ
scancode_s1_map =
    0 ∷ 0x1b ∷ b'1' ∷ b'2' ∷ b'3' ∷ b'4' ∷ b'5' ∷ b'6' ∷ b'7' ∷ b'8' ∷ b'9' ∷ b'0' ∷ b'-' ∷ b'='
    ∷ 0x08 ∷ 0x09 ∷ b'Q' ∷ b'W' ∷ b'E' ∷ b'R' ∷ b'T' ∷ b'Y' ∷ b'U' ∷ b'I' ∷ b'O' ∷ b'P' ∷ b'['
    ∷ b']' ∷ 0x0d ∷ 0x11 ∷ b'A' ∷ b'S' ∷ b'D' ∷ b'F' ∷ b'G' ∷ b'H' ∷ b'J' ∷ b'K' ∷ b'L' ∷ b';'
    ∷ b'\'' ∷ b'`' ∷ 0 ∷ b'\\' ∷ b'Z' ∷ b'X' ∷ b'C' ∷ b'V' ∷ b'B' ∷ b'N' ∷ b'M' ∷ b',' ∷ b'.' ∷ b'/'
    ∷ 0 ∷ 0 ∷ 0 ∷ b' ' ∷ []

unfoldable pub extended_key : ℕ → ℕ
extended_key code =
    if code == 0x48
    then 0x26
    else if code == 0x4b
    then 0x25
    else if code == 0x4d
    then 0x27
    else if code == 0x50
    then 0x28
    else 0

unfoldable pub key_of : Bool → ℕ → ℕ
unfolding extended_key
key_of extended code = if extended then extended_key code else get_or scancode_s1_map code 0

unfoldable pub events_of_key : ℕ → Bool → List KeyboardEvent
events_of_key key released =
    if key == 0
    then []
    else record { movement = if released then key_up else key_down; key = key } ∷ []

-- What one scan code, a byte, adds to the events.
unfoldable pub key_events : Bool → ℕ → List KeyboardEvent
unfolding key_of events_of_key
key_events extended scancode =
    events_of_key (key_of extended (scancode % scancode_s1_releasemod))
      (leb scancode_s1_releasemod scancode)

-- The loop, with the static variable `extended` before and after it.
unfoldable pub convert_keys : Bool → List ℕ → Bool × List KeyboardEvent
unfolding key_events
convert_keys extended [] = (extended, [])
convert_keys extended (scancode ∷ scancodes) =
    let after_prefix = convert_keys true scancodes in
    let after_key = convert_keys false scancodes in
    if scancode == scancode_s1_extid
    then after_prefix
    else (after_key.0, key_events extended scancode ++ after_key.1)
