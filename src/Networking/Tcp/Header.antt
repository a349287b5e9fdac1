-- ===== src/Networking/Tcp/Header.antt =====
-- `Header` and `Flags` of Kernel/Networking/TCP/Common.h.
mod Tests
use Prim.Native.Nat.{bit_and}
use xp_os.Prelude.{
  ℕ, zero, suc, ◌+◌, ◌*◌, ◌/◌, ◌%◌, ◌^◌, ◌<◌, ◌≡◌, refl, arith, Bool, not, List, [], ◌∷◌, ◌++◌,
  ◌==◌,
}
use xp_os.Networking.Endian.{get8, get16, get32, set8, set16, set32}

-- The bits of the flags byte.
abbrev pub fin : ℕ
fin = 0x01

abbrev pub syn : ℕ
syn = 0x02

abbrev pub rst : ℕ
rst = 0x04

abbrev pub ack : ℕ
ack = 0x10

-- `flags & mask`, as a test.
unfoldable pub has : ℕ → ℕ → Bool
has mask flags = not (bit_and flags mask == 0)

pub record Header : Type 0 where
  pub source_port : ℕ
  pub dest_port : ℕ
  pub sequence_number : ℕ
  pub ack_number : ℕ
  pub data_offset : ℕ
  pub flags : ℕ
  pub window_size : ℕ
  pub checksum : ℕ
  pub urgent_pointer : ℕ
  pub options : ℕ

-- sizeof(Header)
abbrev pub header_size : ℕ
header_size = 24

-- The getters, on the packed bytes. The data offset is the high half of its byte.
unfoldable pub get_header : List ℕ → Header
get_header bytes = record {
  source_port = get16 bytes 0;
  dest_port = get16 bytes 2;
  sequence_number = get32 bytes 4;
  ack_number = get32 bytes 8;
  data_offset = get8 bytes 12 / 2 ^ 4;
  flags = get8 bytes 13;
  window_size = get16 bytes 14;
  checksum = get16 bytes 16;
  urgent_pointer = get16 bytes 18;
  options = get32 bytes 20;
}

-- The packed bytes that the setters leave.
unfoldable pub set_header : Header → List ℕ
set_header h =
    set16 h.source_port
    ++ (set16 h.dest_port
        ++ (set32 h.sequence_number
            ++ (set32 h.ack_number
                ++ (set8 (h.data_offset % 2 ^ 4 * 2 ^ 4)
                    ++ (set8 h.flags
                        ++ (set16 h.window_size
                            ++ (set16 h.checksum
                                ++ (set16 h.urgent_pointer ++ set32 h.options))))))))

-- Every field fits its place: 16 bits, 32 bits, 4 bits for the data offset and a byte of flags.
pub record Fits (h : Header) : Type 0 where
  pub source_port_fits : h.source_port < 2 ^ 16
  pub dest_port_fits : h.dest_port < 2 ^ 16
  pub sequence_number_fits : h.sequence_number < 2 ^ 32
  pub ack_number_fits : h.ack_number < 2 ^ 32
  pub data_offset_fits : h.data_offset < 2 ^ 4
  pub flags_fits : h.flags < 2 ^ 8
  pub window_size_fits : h.window_size < 2 ^ 16
  pub checksum_fits : h.checksum < 2 ^ 16
  pub urgent_pointer_fits : h.urgent_pointer < 2 ^ 16
  pub options_fits : h.options < 2 ^ 32

-- The getters read back what the setters stored, also in a segment with data behind the header,
-- for fields that fit their places.
pub get_header-set_header :
    (h : Header) (payload : List ℕ) → Fits h → get_header (set_header h ++ payload) ≡ h
unfolding get_header set_header
get_header-set_header h payload v = ground arith
