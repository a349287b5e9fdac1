-- ===== src/Networking/Tcp/Receive/Tests.antt =====
-- A client on port 50000 that opened a connection to port 80.
use xp_os.Prelude.{ℕ, ◌+◌, ◌≡◌, refl, arith, List, [], ◌∷◌, ◌++◌, length, map}
use xp_os.Prelude.Word.{u32}
use xp_os.Networking.Tcp.Header.{Header, has, get_header, set_header}
use xp_os.Networking.Tcp.Socket.{
  closed, syn_sent, established, close_wait, Packet, Socket, create_socket, connect, insert_packet,
  process_received, process_loop, add_to_received, send,
}
use xp_os.Networking.Tcp.Socket.Reassembly.{IsChain, bytes_of, StopsAt, process_received_lem}
use xp_os.Networking.Tcp.Receive.{
  accept_data, accept_on_listen, receive_on_syn_sent, receive, receive_connected, receive_fin,
  receive_ack, ack_established,
}
use xp_os.Networking.Tcp.Receive.Established.{HasWindow}
use xp_os.Networking.Tcp.Receive.Stale.{accept_all, duplicate_blocks}
use xp_os.Networking.Tcp.Receive.Table.{signals, next_state}
use xp_os.Networking.Tcp.Receive.Diagram.{receive-next_state}
use xp_os.Networking.Tcp.Receive.Handshake.{
  IsOpen, receive_all, receive_all-IsOpen, accept_is_refused,
}

abbrev client : Socket
client = create_socket closed (0, 0) (50000, 0x0a00020f)

abbrev opening : Socket
opening = record client { state = syn_sent; remote_port = 80; snd_nxt = 0xbeef0102 }

-- The socket that `opening` becomes when the peer begins at 99.
abbrev connection : Socket
connection = record opening { state = established; rcv_nxt = 100; irs = 99; snd_una = 0xbeef0102 }

abbrev hello : Packet
hello = record { sequence_number = 100; payload = 104 ∷ 101 ∷ [] }

abbrev world : Packet
world = record { sequence_number = 102; payload = 119 ∷ 111 ∷ [] }

abbrev early : Packet
early = record { sequence_number = 98; payload = 0 ∷ 0 ∷ [] }

abbrev syn_ack : Header
syn_ack = record {
  source_port = 80;
  dest_port = 50000;
  sequence_number = 99;
  ack_number = 0xbeef0102;
  data_offset = 6;
  flags = 0x12;
  window_size = 8192;
  checksum = 0;
  urgent_pointer = 0;
  options = 0x020405b4;
}

abbrev push_and_fin : Header
push_and_fin = record syn_ack { sequence_number = 100; flags = 0x11 }

abbrev segments : List (List ℕ)
segments = set_header syn_ack ∷ (set_header push_and_fin ++ hello.payload) ∷ []

-- A run: the SYN-ACK opens the connection, and the segment with data is delivered and closes it for
-- the peer.
run :
    let s = receive_all 7 segments opening in
    (s.state ≡ close_wait) × (s.delivered ≡ 104 ∷ 101 ∷ [])
unfolding receive_all receive set_header receive_on_syn_sent has get_header create_socket send
    receive_connected receive_fin receive_ack ack_established accept_data process_received
    process_loop add_to_received insert_packet
run = (refl, refl)

-- A run: `connect` sends one SYN and counts it.
connect_counts : (connect (80, 7) client).snd_nxt ≡ 0xbeef0102
unfolding connect has create_socket
connect_counts = refl

abbrev waiting : Socket
waiting = record connection { out_of_order_list = hello ∷ world ∷ [] }

process_received_lem_example :
    let s' = process_received waiting in
    (given : List Packet) × (waiting.out_of_order_list ≡ given ++ s'.out_of_order_list)
    × IsChain 100 given
    × (s'.delivered ≡ [] ++ bytes_of given)
    × (s'.rcv_nxt ≡ u32 (100 + length (bytes_of given)))
    × StopsAt s'.rcv_nxt s'.out_of_order_list
unfolding create_socket
process_received_lem_example = process_received_lem waiting (omega arith)

connection-HasWindow : HasWindow connection
connection-HasWindow = record { ordered = omega arith; small = omega arith }

duplicate_blocks_example : (accept_all (early ∷ hello ∷ world ∷ []) connection).delivered ≡ []
unfolding create_socket
duplicate_blocks_example = duplicate_blocks early (hello ∷ world ∷ []) connection refl (omega arith)

receive-next_state_example :
    (receive 7 (set_header syn_ack) opening).state
    ≡ next_state syn_sent (signals (get_header (set_header syn_ack)) opening)
receive-next_state_example = receive-next_state 7 (set_header syn_ack) opening (omega arith)

-- The table's entry is the one for an answer to the SYN.
opened : next_state syn_sent (signals (get_header (set_header syn_ack)) opening) ≡ established
unfolding next_state get_header set_header has create_socket
opened = refl

receive_all-IsOpen_example : IsOpen (receive_all 7 segments opening).state
receive_all-IsOpen_example = receive_all-IsOpen 7 segments opening tt

abbrev request : Header
request = record syn_ack { dest_port = 80; source_port = 50000; flags = 0x02; ack_number = 0 }

accept_is_refused_example :
    (map
        (λ g. g.ack_number)
        (accept_on_listen request (create_socket closed (0, 0) (80, 0x0a000202))).sent
      ≡ 1 ∷ [])
    × (receive_on_syn_sent (record syn_ack { ack_number = 1 }) opening ≡ opening)
unfolding create_socket
accept_is_refused_example =
    accept_is_refused closed (0, 0) (80, 0x0a000202) request (record syn_ack { ack_number = 1 })
      opening (unfold has in refl) (unfold has in refl) refl (unfold has in refl) (omega arith)
