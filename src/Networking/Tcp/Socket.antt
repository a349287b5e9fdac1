-- ===== src/Networking/Tcp/Socket.antt =====
-- `Socket` of Kernel/Networking/TCP/Socket.h: its variables, sending, and the queues of packets.
--
-- What a socket does to the world around it is kept in two fields: `sent`, the segments given to
-- IPv4, oldest first, and `delivered`, the bytes given to `NetworkSocket::receive`.
pub mod Reassembly
use xp_os.Prelude.{
  ℕ, zero, suc, ◌+◌, ◌%◌, ◌^◌, Bool, true, false, List, [], ◌∷◌, ◌++◌, ◌==◌, ltb, if◌then◌else◌,
  length, take,
}
use xp_os.Prelude.Word.{u32}
use xp_os.Networking.Tcp.Header.{Header, has, fin, syn, ack}

-- `Socket::State`
pub data State : Type 0 where
  listen syn_sent syn_received established fin_wait1 fin_wait2 close_wait closing last_ack : State
  time_wait closed : State

abbrev pub Endpoint : Type 0
Endpoint = ℕ × ℕ

-- A packet with the bytes that its pointer leads to; `length` is their number.
pub record Packet : Type 0 where
  pub sequence_number : ℕ
  pub payload : List ℕ

-- What `send` gives to IPv4: the fields of the header that depend on the socket, the options, the
-- destination and the data. The checksum is left out.
pub record Segment : Type 0 where
  pub source_port : ℕ
  pub dest_port : ℕ
  pub dest_ip : ℕ
  pub sequence_number : ℕ
  pub ack_number : ℕ
  pub flags : ℕ
  pub window_size : ℕ
  pub options : ℕ
  pub payload : List ℕ

pub record Socket : Type 0 where
  pub state : State
  pub snd_una : ℕ
  pub snd_nxt : ℕ
  pub snd_wnd : ℕ
  pub snd_wl1 : ℕ
  pub snd_wl2 : ℕ
  pub iss : ℕ
  pub rcv_nxt : ℕ
  pub irs : ℕ
  pub local_port : ℕ
  pub remote_port : ℕ
  pub local_ip : ℕ
  pub remote_ip : ℕ
  pub retransmission_queue : List Packet
  pub out_of_order_list : List Packet
  pub connection_queue : List (Endpoint × Header)
  pub sent : List Segment
  pub delivered : List ℕ

-- WINDOW_SIZE, and the value that `snd_una`, `snd_nxt` and `iss` start with.
abbrev pub window_size : ℕ
window_size = 8192

abbrev pub initial_sequence : ℕ
initial_sequence = 0xbeef0101

-- A socket as the constructor and `create_socket` leave it. The constructor does not initialise
-- `m_state`, `m_remotePort` and `m_remoteIp`; they are the arguments `state` and `remote`.
unfoldable pub create_socket : State → Endpoint → Endpoint → Socket
create_socket state remote endpoint = record {
  state = state;
  snd_una = initial_sequence;
  snd_nxt = initial_sequence;
  snd_wnd = window_size;
  snd_wl1 = 0;
  snd_wl2 = 0;
  iss = initial_sequence;
  rcv_nxt = 0;
  irs = 0;
  local_port = endpoint.0;
  remote_port = remote.0;
  local_ip = endpoint.1;
  remote_ip = remote.1;
  retransmission_queue = [];
  out_of_order_list = [];
  connection_queue = [];
  sent = [];
  delivered = [];
}

-- The private `send`: it acknowledges `rcv_nxt` if the ACK flag is set, and moves `snd_nxt` past
-- the data and past a SYN or FIN. The size is a `uint16_t`, so `snd_nxt` moves by its low half.
unfoldable pub send : ℕ → List ℕ → ℕ → Socket → Socket
send seq payload flags s =
    let segment : Segment = record {
      source_port = s.local_port;
      dest_port = s.remote_port;
      dest_ip = s.remote_ip;
      sequence_number = seq;
      ack_number = if has ack flags then s.rcv_nxt else 0;
      flags = flags;
      window_size = window_size;
      options = if has syn flags then 0x020405b4 else 0;
      payload = payload;
    } in
    let snd_nxt = u32 (s.snd_nxt + length payload) in
    record s {
      sent = s.sent ++ (segment ∷ []);
      snd_nxt = if has (fin + syn) flags then u32 (snd_nxt + 1) else snd_nxt;
    }

-- The public `send`: its `std::size_t` size becomes a `uint16_t`, so only the low 16 bits of the
-- length count.
unfoldable pub send_data : List ℕ → Socket → Socket
unfolding send
send_data payload s = send s.snd_nxt (take (length payload % 2 ^ 16) payload) ack s

unfoldable pub listen_on : Socket → Socket
listen_on s = record s { state = listen }

unfoldable pub connect : Endpoint → Socket → Socket
unfolding send
connect to s =
    send s.snd_nxt [] syn (record s { remote_port = to.0; remote_ip = to.1; state = syn_sent })

-- `for (...) if (packet.sequenceNumber < it->sequenceNumber) break; insert(it, packet)`
unfoldable pub insert_packet : Packet → List Packet → List Packet
insert_packet packet [] = packet ∷ []
insert_packet packet (p ∷ ps) =
    let later = p ∷ insert_packet packet ps in
    if ltb packet.sequence_number p.sequence_number then packet ∷ p ∷ ps else later

unfoldable pub add_to_received : Packet → Socket → Socket
add_to_received packet s = record s { out_of_order_list = insert_packet packet s.out_of_order_list }

-- The loop of `process_received`, on the packets that are left in the list: `rcv_nxt`, the bytes
-- delivered and the list when it stops.
unfoldable pub process_loop : ℕ → List ℕ → List Packet → ℕ × List ℕ × List Packet
process_loop rcv_nxt delivered [] = (rcv_nxt, delivered, [])
process_loop rcv_nxt delivered (p ∷ ps) =
    let rest = process_loop (u32 (rcv_nxt + length p.payload)) (delivered ++ p.payload) ps in
    if rcv_nxt == p.sequence_number then rest else (rcv_nxt, delivered, p ∷ ps)

unfoldable pub process_received : Socket → Socket
process_received s =
    let (rcv_nxt, delivered, left) = process_loop s.rcv_nxt s.delivered s.out_of_order_list in
    record s { rcv_nxt = rcv_nxt; delivered = delivered; out_of_order_list = left }
