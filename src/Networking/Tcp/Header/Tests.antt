-- ===== src/Networking/Tcp/Header/Tests.antt =====
-- The header of a SYN-ACK.
use xp_os.Prelude.{◌≡◌, arith, [], ◌∷◌, ◌++◌}
use xp_os.Networking.Tcp.Header.{Header, Fits, get_header, set_header, get_header-set_header}

abbrev syn_ack : Header
syn_ack = record {
  source_port = 80;
  dest_port = 50000;
  sequence_number = 0xbeef0101;
  ack_number = 77;
  data_offset = 6;
  flags = 0x12;
  window_size = 8192;
  checksum = 4660;
  urgent_pointer = 0;
  options = 0x020405b4;
}

syn_ack-Fits : Fits syn_ack
syn_ack-Fits = record {
  source_port_fits = omega arith;
  dest_port_fits = omega arith;
  sequence_number_fits = omega arith;
  ack_number_fits = omega arith;
  data_offset_fits = omega arith;
  flags_fits = omega arith;
  window_size_fits = omega arith;
  checksum_fits = omega arith;
  urgent_pointer_fits = omega arith;
  options_fits = omega arith;
}

get_header-set_header_example : get_header (set_header syn_ack ++ (9 ∷ 8 ∷ [])) ≡ syn_ack
get_header-set_header_example = get_header-set_header syn_ack (9 ∷ 8 ∷ []) syn_ack-Fits
