-- ===== src/Networking/Ipv4/Receive/Tests.antt =====
-- A message of 22 bytes that says it has 40, from 10.0.2.2 to 10.0.2.15.
use xp_os.Prelude.{drop, ℕ, ◌+◌, ◌*◌, ◌≤◌, ◌≡◌, refl, min, arith, List, [], ◌∷◌}
use xp_os.Networking.Endian.{get32}
use xp_os.Networking.Ipv4.Receive.{
  Delivery, message_header_size, get_ihl, get_length, receive, clamp_length, deliver, set_length,
}
use xp_os.Networking.Ipv4.Receive.Bounds.{receive_inside}

abbrev message : List ℕ
message =
    0x45 ∷ 0 ∷ 0 ∷ 40 ∷ 0 ∷ 1 ∷ 0x40 ∷ 0 ∷ 0x40 ∷ 6 ∷ 0 ∷ 0 ∷ 10 ∷ 0 ∷ 2 ∷ 2 ∷ 10 ∷ 0 ∷ 2 ∷ 15 ∷ 7
    ∷ 8 ∷ []

abbrev delivery : Delivery
delivery = record { dest_ip = 0x0a00020f; source_ip = 0x0a000202; payload = 7 ∷ 8 ∷ []; size = 2 }

receive_inside_example :
    (message_header_size ≤ 22)
    × (get32 message 16 ≡ 0x0a00020f)
    × (delivery.payload ≡ drop (4 * get_ihl message) (clamp_length 22 message))
    × (4 * get_ihl message + 2 ≡ min (get_length message) 22)
unfolding receive get_ihl get_length clamp_length deliver set_length
receive_inside_example =
    receive_inside 0x0a00020f message 22 delivery (grind arith) refl (omega arith) (omega arith)
      refl
