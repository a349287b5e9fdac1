-- ===== src/Networking/Ipv4/Receive.antt =====
-- `receive` of Kernel/Networking/IP/IPv4.cpp, with the getters of `MessageHeader` of
-- Kernel/Networking/IP/IPv4/Common.h that it uses.
pub mod Bounds
mod Tests
use xp_os.Prelude.{
  ℕ, ◌+◌, ◌-◌, ◌*◌, ◌%◌, ◌^◌, Bool, not, Option, none, some, List, ◌++◌, ◌==◌, ltb, if◌then◌else◌,
  take, drop,
}
use xp_os.Prelude.Word.{sub32}
use xp_os.Networking.Endian.{get8, get16, get32, set16}

-- sizeof(MessageHeader), and the number of TCP among the protocols.
abbrev pub message_header_size : ℕ
message_header_size = 20

abbrev pub tcp_protocol : ℕ
tcp_protocol = 6

-- The number of 32-bit words in the header, by the message.
unfoldable pub get_ihl : List ℕ → ℕ
get_ihl bytes = get8 bytes 0 % 2 ^ 4

unfoldable pub get_length : List ℕ → ℕ
get_length bytes = get16 bytes 2

unfoldable pub set_length : ℕ → List ℕ → List ℕ
set_length length bytes = take 2 bytes ++ (set16 (length % 2 ^ 16) ++ drop 4 bytes)

-- The arguments of `receive_ip` of TCP: `payload` holds the bytes from the pointer on, as far as the
-- buffer goes, and `size` is the size that the call names.
pub record Delivery : Type 0 where
  pub dest_ip : ℕ
  pub source_ip : ℕ
  pub payload : List ℕ
  pub size : ℕ

-- A message longer than the buffer says that it is as long as the buffer.
unfoldable pub clamp_length : ℕ → List ℕ → List ℕ
unfolding get_length set_length
clamp_length size bytes = if ltb size (get_length bytes) then set_length size bytes else bytes

-- `switch` on the protocol.
unfoldable pub deliver : List ℕ → Option Delivery
unfolding get_ihl get_length
deliver bytes =
    if get8 bytes 9 == tcp_protocol
    then some (record {
      dest_ip = get32 bytes 16;
      source_ip = get32 bytes 12;
      payload = drop (4 * get_ihl bytes) bytes;
      size = sub32 (get_length bytes) (4 * get_ihl bytes);
    })
    else none

-- What is given to TCP, on a machine with address `ip_address`; `none` if nothing is.
unfoldable pub receive : ℕ → List ℕ → ℕ → Option Delivery
unfolding clamp_length deliver
receive ip_address bytes size =
    if ltb size message_header_size
    then none
    else if not (get32 bytes 16 == ip_address)
    then none
    else deliver (clamp_length size bytes)
