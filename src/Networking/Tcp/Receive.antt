-- ===== src/Networking/Tcp/Receive.antt =====
-- The receiving side of `Socket` in Kernel/Networking/TCP/TCP.cpp: what an incoming segment does to
-- the socket that it is for. `data` holds the bytes of the segment, its header first.
pub mod Established
pub mod Stale
pub mod Handshake
pub mod Table
pub mod Diagram
mod Tests
use xp_os.Prelude.{
  ℕ, zero, suc, ◌+◌, ◌-◌, ◌*◌, ◌%◌, ◌^◌, Bool, true, false, not, ◌&&◌, ◌||◌, Option, none, some,
  List, [], ◌∷◌, ◌++◌, ◌==◌, ltb, leb, if◌then◌else◌, length, take, drop,
}
use xp_os.Prelude.Word.{u32, sub32}
use xp_os.Networking.Tcp.Header.{Header, get_header, has, fin, syn, rst, ack}
use xp_os.Networking.Tcp.Socket.{
  State, listen, syn_sent, syn_received, established, fin_wait1, fin_wait2, close_wait, closing,
  time_wait, Endpoint, Packet, Socket, create_socket, send, add_to_received, process_received,
}

-- `snd_una`, `snd_wnd`, `snd_wl1` and `snd_wl2` from a header.
unfoldable pub set_window : Header → Socket → Socket
set_window h s = record s {
  snd_una = h.ack_number;
  snd_wnd = h.window_size;
  snd_wl1 = h.sequence_number;
  snd_wl2 = h.ack_number;
}

-- `rcv_nxt` is set from `irs` before `irs` is set from the header.
unfoldable pub accept_on_listen : Header → Socket → Socket
unfolding set_window
accept_on_listen h s =
    if has ack h.flags
    then s
    else if not (has syn h.flags)
    then s
    else (let s1 = record s { rcv_nxt = u32 (s.irs + 1); irs = h.sequence_number } in
        let s2 = record (set_window h s1) { state = syn_received } in
        send s2.snd_nxt [] (syn + ack) s2)

unfoldable pub receive_on_syn_sent : Header → Socket → Socket
unfolding set_window
receive_on_syn_sent h s =
    if has ack h.flags && (leb h.ack_number s.iss || ltb s.snd_nxt h.ack_number)
    then s
    else if not (has syn h.flags)
    then s
    else (let s1 = record s { irs = h.sequence_number; rcv_nxt = u32 (h.sequence_number + 1) } in
        if has ack h.flags
        then (let s2 = record (set_window h s1) { state = established } in
            send s2.snd_nxt [] ack s2)
        else (let s2 = record s1 { state = syn_received; snd_nxt = sub32 s1.snd_nxt 1 } in
            send s2.snd_nxt [] (syn + ack) s2))

-- The loop over the retransmission queue: after an erasure it skips the packet behind the erased
-- one, since `it` is moved twice. (After erasing the last packet the code follows a null pointer;
-- here the loop ends.)
unfoldable pub refresh_queue : ℕ → List Packet → List Packet
refresh_queue snd_una [] = []
refresh_queue snd_una (p ∷ []) = if ltb p.sequence_number snd_una then [] else p ∷ []
refresh_queue snd_una (p ∷ q ∷ ps) =
    let erased = q ∷ refresh_queue snd_una ps in
    let kept = p ∷ refresh_queue snd_una (q ∷ ps) in
    if ltb p.sequence_number snd_una then erased else kept

unfoldable pub refresh_retransmission_queue : Socket → Socket
refresh_retransmission_queue s = record s {
  retransmission_queue = refresh_queue s.snd_una s.retransmission_queue;
}

-- The window is updated by a newer segment, or by a newer acknowledgement in the same one.
unfoldable pub update_window : Header → Socket → Socket
update_window h s =
    if ltb s.snd_wl1 h.sequence_number
      || (s.snd_wl1 == h.sequence_number && ltb s.snd_wl2 h.ack_number)
    then record s { snd_wnd = h.window_size; snd_wl1 = h.sequence_number; snd_wl2 = h.ack_number }
    else s

-- `snd_una <= ack && ack <= snd_nxt`
unfoldable pub in_send_window : Header → Socket → Bool
in_send_window h s = leb s.snd_una h.ack_number && leb h.ack_number s.snd_nxt

unfoldable pub ack_syn_received : Header → Socket → Socket
unfolding in_send_window
ack_syn_received h s =
    if in_send_window h s
    then record s {
      snd_wnd = h.window_size;
      snd_wl1 = h.sequence_number;
      snd_wl2 = h.ack_number;
      state = established;
    }
    else send h.ack_number [] (rst + ack) s

unfoldable pub ack_established : Header → Socket → Socket
unfolding in_send_window update_window refresh_retransmission_queue
ack_established h s =
    if in_send_window h s
    then refresh_retransmission_queue (update_window h (record s { snd_una = h.ack_number }))
    else s

unfoldable pub receive_ack : State → Header → Socket → Socket
receive_ack syn_received h s = ack_syn_received h s
receive_ack established h s = ack_established h s
receive_ack _ h s = s

-- The state that a FIN leads to.
unfoldable pub after_fin : State → Header → Socket → State
after_fin syn_received h s = close_wait
after_fin established h s = close_wait
after_fin fin_wait1 h s = if ltb s.snd_nxt h.ack_number then time_wait else closing
after_fin fin_wait2 h s = time_wait
after_fin time_wait h s = time_wait
after_fin state h s = state

unfoldable pub receive_fin : Header → Socket → Socket
unfolding after_fin
receive_fin h s =
    let s1 = record s { rcv_nxt = u32 (h.sequence_number + 1) } in
    let s2 = send s1.snd_nxt [] ack s1 in record s2 { state = after_fin s2.state h s2 }

unfoldable pub receive_on_listen : ℕ → Header → Socket → Socket
receive_on_listen source_ip h s = record s {
  connection_queue = s.connection_queue ++ (((h.source_port, source_ip), h) ∷ []);
}

unfoldable pub accept_data : Packet → Socket → Socket
accept_data packet s =
    let s1 = process_received (add_to_received packet s) in send s1.snd_nxt [] ack s1

unfoldable pub is_established : State → Bool
is_established established = true
is_established _ = false

-- A segment no longer than its header carries no data.
unfoldable pub receive_data : List ℕ → Socket → Socket
unfolding is_established
receive_data data_bytes s =
    let h = get_header data_bytes in
    let offset = h.data_offset * 4 in
    let packet : Packet = record {
      sequence_number = h.sequence_number;
      payload = drop offset data_bytes;
    } in
    if leb (length data_bytes) offset
    then s
    else if is_established s.state
    then accept_data packet s
    else s

-- The part of `receive` behind its `switch`.
unfoldable pub receive_connected : List ℕ → Socket → Socket
unfolding receive_data
receive_connected data_bytes s =
    let h = get_header data_bytes in
    if has rst h.flags
    then s
    else if has syn h.flags
    then send 0 [] (rst + ack) s
    else if not (has ack h.flags)
    then s
    else (let s1 = receive_data data_bytes (receive_ack s.state h s) in
        if has fin h.flags then receive_fin h s1 else s1)

unfoldable pub dispatch : State → ℕ → List ℕ → Socket → Socket
dispatch listen source_ip data_bytes s = receive_on_listen source_ip (get_header data_bytes) s
dispatch syn_sent source_ip data_bytes s = receive_on_syn_sent (get_header data_bytes) s
dispatch _ source_ip data_bytes s = receive_connected data_bytes s

unfoldable pub receive : ℕ → List ℕ → Socket → Socket
unfolding dispatch
receive source_ip data_bytes s = dispatch s.state source_ip data_bytes s

-- `accept_conn_request` on a listening socket: the socket itself, which keeps its queue as it is,
-- and the new one; `none` if no request waits. The header that the queue points to is taken to be
-- the one that was received. `state` and `remote` are what the constructor leaves unset.
unfoldable pub accept_conn_request : State → Endpoint → Socket → Option (Socket × Socket)
unfolding accept_on_listen
accept_conn_request state remote s = elim s.connection_queue [
  | [] ↦ none
  | (endpoint, h) ∷ rest ↦
      let new = create_socket state remote (s.local_port, s.local_ip) in
      some (s, accept_on_listen h (record new { remote_port = endpoint.0; remote_ip = endpoint.1 }))
]
