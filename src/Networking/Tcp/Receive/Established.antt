-- ===== src/Networking/Tcp/Receive/Established.antt =====
-- A connection that carries data: packets in either order, and the window of unacknowledged data.
use mathlib.Core.List.{append_assoc}
use xp_os.Prelude.{
  ℕ, ◌+◌, ◌*◌, ◌^◌, ◌≤◌, ◌<◌, ◌≡◌, refl, ap, ◌∙◌, true, false, List, [], ◌∷◌, ◌++◌, arith, length,
  drop,
}
use xp_os.Networking.Tcp.Header.{Header, get_header, ack, syn, rst, has, fin}
use xp_os.Networking.Tcp.Socket.{
  State, Packet, Socket, send, insert_packet, add_to_received, process_loop, process_received,
}
use xp_os.Networking.Tcp.Socket.Reassembly.{loop_wanted, loop_unwanted, insert_before}
use xp_os.Networking.Tcp.Receive.{
  accept_data, receive, receive_ack, ack_syn_received, ack_established, in_send_window,
  update_window, refresh_retransmission_queue, receive_data, receive_fin, receive_on_syn_sent,
  receive_connected, dispatch, receive_on_listen,
}

-- What has not been acknowledged ends where sending goes on, and no number has wrapped.
pub record HasWindow (s : Socket) : Type 0 where
  pub ordered : s.snd_una ≤ s.snd_nxt
  pub small : s.snd_nxt < 2 ^ 32

module _ (p q : Packet) (out : List ℕ) (some_data : 0 < length p.payload)
    (follows : q.sequence_number ≡ p.sequence_number + length p.payload)
    (fits : q.sequence_number + length q.payload < 2 ^ 32) where
  loop_first :
      (ps : List Packet)
      → process_loop p.sequence_number out (p ∷ ps)
        ≡ process_loop q.sequence_number (out ++ p.payload) ps
  loop_first ps =
      loop_wanted p.sequence_number out p ps refl
      ∙ ap (λ n. process_loop n (out ++ p.payload) ps) (omega arith)

  loop_second :
      process_loop q.sequence_number (out ++ p.payload) (q ∷ [])
      ≡ (q.sequence_number + length q.payload, out ++ (p.payload ++ q.payload), [])
  unfolding process_loop
  loop_second =
      loop_wanted q.sequence_number (out ++ p.payload) q [] refl
      ∙ ground (arith, append_assoc out p.payload q.payload)

  loop_waits : process_loop p.sequence_number out (q ∷ []) ≡ (p.sequence_number, out, q ∷ [])
  loop_waits = loop_unwanted p.sequence_number out q [] (omega arith)

  loop_both :
      process_loop p.sequence_number out (insert_packet p (q ∷ []))
      ≡ (q.sequence_number + length q.payload, out ++ (p.payload ++ q.payload), [])
  loop_both =
      ap (process_loop p.sequence_number out) (insert_before p q [] (omega arith))
      ∙ loop_first (q ∷ [])
      ∙ loop_second

-- Two packets of data that follow one another are delivered in their order, whichever comes first,
-- to a socket that waits for the first of them and holds no packet, if the numbers do not wrap.
pub either_order :
    (p q : Packet) (s : Socket)
    → s.out_of_order_list ≡ []
    → s.rcv_nxt ≡ p.sequence_number
    → q.sequence_number ≡ p.sequence_number + length p.payload
    → 0 < length p.payload
    → q.sequence_number + length q.payload < 2 ^ 32
    → let s1 = accept_data q (accept_data p s) in
      let s2 = accept_data p (accept_data q s) in
      (s1.delivered ≡ s.delivered ++ (p.payload ++ q.payload))
      × (s2.delivered ≡ s1.delivered)
      × (s2.rcv_nxt ≡ s1.rcv_nxt)
      × (s1.rcv_nxt ≡ q.sequence_number + length q.payload)
unfolding accept_data process_received add_to_received send insert_packet process_loop
either_order p q s empty next follows some_data fits =
    rw
      (
        empty,
        next,
        loop_first p q s.delivered some_data follows fits [],
        loop_second p q s.delivered some_data follows fits,
        loop_waits p q s.delivered some_data follows fits,
        loop_both p q s.delivered some_data follows fits,
      )
      (refl, refl, refl, refl)

send_plain :
    (seq flags : ℕ) (s : Socket)
    → has (fin + syn) flags ≡ false
    → HasWindow s
    → HasWindow (send seq [] flags s)
unfolding send
send_plain seq flags s h v = rw h (omega arith)

receive_ack-HasWindow :
    (state : State) (h : Header) (s : Socket) → HasWindow s → HasWindow (receive_ack state h s)
unfolding receive_ack ack_syn_received ack_established in_send_window update_window
    refresh_retransmission_queue
receive_ack-HasWindow State.listen h s v = v
receive_ack-HasWindow State.syn_received h s v =
    ground (arith, send_plain h.ack_number (rst + ack) s (unfold has in refl))
receive_ack-HasWindow State.established h s v = ground arith
receive_ack-HasWindow _ h s v = v

accept_data-HasWindow : (p : Packet) (s : Socket) → HasWindow s → HasWindow (accept_data p s)
unfolding accept_data process_received add_to_received
accept_data-HasWindow p s v =
    let s1 = process_received (add_to_received p s) in
    let v1 : HasWindow s1 = record { ordered = v.ordered; small = v.small } in
    send_plain s1.snd_nxt ack s1 (unfold has in refl) v1

receive_data-HasWindow :
    (bytes : List ℕ) (s : Socket) → HasWindow s → HasWindow (receive_data bytes s)
unfolding receive_data
receive_data-HasWindow bytes s v = ground (
  arith,
  accept_data-HasWindow
      (record {
        sequence_number = (get_header bytes).sequence_number;
        payload = drop ((get_header bytes).data_offset * 4) bytes;
      })
      s,
)

receive_fin-HasWindow : (h : Header) (s : Socket) → HasWindow s → HasWindow (receive_fin h s)
unfolding receive_fin send
receive_fin-HasWindow h s v =
    let c : has (fin + syn) ack ≡ false = unfold has in refl in rw c (omega arith)

receive_on_syn_sent-HasWindow :
    (h : Header) (s : Socket) → HasWindow s → HasWindow (receive_on_syn_sent h s)
unfolding receive_on_syn_sent send
receive_on_syn_sent-HasWindow h s v =
    let plain : has (fin + syn) ack ≡ false = unfold has in refl in
    let counts : has (fin + syn) (syn + ack) ≡ true = unfold has in refl in
    ground (arith, plain, counts)

receive_connected-HasWindow :
    (bytes : List ℕ) (s : Socket) → HasWindow s → HasWindow (receive_connected bytes s)
unfolding receive_connected
receive_connected-HasWindow bytes s v =
    let h = get_header bytes in
    let acked = receive_ack s.state h s in
    let read = receive_data bytes acked in
    ground (
      arith,
      send_plain 0 (rst + ack) s (unfold has in refl),
      receive_ack-HasWindow s.state h s,
      receive_data-HasWindow bytes acked,
      receive_fin-HasWindow h read,
    )

dispatch-HasWindow :
    (state : State) (source_ip : ℕ) (bytes : List ℕ) (s : Socket)
    → HasWindow s
    → HasWindow (dispatch state source_ip bytes s)
unfolding dispatch receive_on_listen
dispatch-HasWindow State.listen source_ip bytes s v = record {
  ordered = v.ordered;
  small = v.small;
}
dispatch-HasWindow State.syn_sent source_ip bytes s v =
    receive_on_syn_sent-HasWindow (get_header bytes) s v
dispatch-HasWindow _ source_ip bytes s v = receive_connected-HasWindow bytes s v

-- No segment, whatever its bytes and the state of the socket, takes what is acknowledged past what
-- was sent, given that it was not past it before and that `snd_nxt` is a 32-bit number.
pub receive-HasWindow :
    (source_ip : ℕ) (bytes : List ℕ) (s : Socket)
    → HasWindow s
    → HasWindow (receive source_ip bytes s)
unfolding receive
receive-HasWindow source_ip bytes s v = dispatch-HasWindow s.state source_ip bytes s v
