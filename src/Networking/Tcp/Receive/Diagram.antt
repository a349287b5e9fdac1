-- ===== src/Networking/Tcp/Receive/Diagram.antt =====
-- The state that a segment leads to, by its flags and its acknowledgement.
use xp_os.Prelude.{
  ℕ, ◌+◌, ◌*◌, ◌^◌, ◌<◌, ◌≡◌, refl, ap, ◌∙◌, Bool, true, false, ◌&&◌, List, [], arith, ltb, leb,
  if◌then◌else◌, Bool-cases, inl, inr, length, if_true, if_false,
}
use xp_os.Prelude.Word.{u32}
use xp_os.Networking.Tcp.Header.{Header, get_header, has, fin, syn, rst, ack}
use xp_os.Networking.Tcp.Socket.{
  State, listen, syn_sent, syn_received, established, fin_wait1, fin_wait2, close_wait, closing,
  time_wait, last_ack, closed, Socket, send,
}
use xp_os.Networking.Tcp.Receive.{
  receive_on_syn_sent, receive_ack, ack_syn_received, ack_established, in_send_window,
  update_window, refresh_retransmission_queue, receive_fin, after_fin, receive_data,
  receive_on_listen, receive_connected, dispatch, receive, is_established,
}
use xp_os.Networking.Tcp.Receive.Handshake.{state-receive_data}
use xp_os.Networking.Tcp.Receive.Table.{signals, counts, next_state}

state-receive_on_syn_sent :
    (h : Header) (s : Socket)
    → s.state ≡ syn_sent
    → (receive_on_syn_sent h s).state ≡ next_state syn_sent (signals h s)
unfolding receive_on_syn_sent send next_state
state-receive_on_syn_sent h s e = ground arith

module _ (bytes : List ℕ) (s : Socket) where
  abbrev h : Header
  h = get_header bytes

  acked : Socket
  acked = receive_ack s.state h s

  -- The socket as the state after a FIN is chosen.
  answered : Socket → Socket
  answered t = send t.snd_nxt [] ack (record t { rcv_nxt = u32 (h.sequence_number + 1) })

  connected_stays : counts (signals h s) ≡ false → (receive_connected bytes s).state ≡ s.state
  unfolding receive_connected send
  connected_stays n = ground arith

  connected_goes :
      (state : State)
      → acked.state ≡ state
      → counts (signals h s) ≡ true
      → (receive_connected bytes s).state ≡ (
          if has fin h.flags
          then after_fin state h (answered (receive_data bytes acked))
          else state)
  unfolding receive_connected receive_fin send acked answered
  connected_goes state e c =
      let a : has ack h.flags ≡ true = ground (arith, c) in
      let r : has rst h.flags ≡ false = ground (arith, c) in
      let y : has syn h.flags ≡ false = ground (arith, c) in
      elim (Bool-cases (has fin h.flags)) [
        | inl f ↦
            rw (r, y, a, f)
              (ap (λ x. after_fin x h (answered (receive_data bytes acked)))
                (state-receive_data bytes acked ∙ e))
        | inr f ↦ rw (r, y, a, f) (state-receive_data bytes acked ∙ e)
      ]

  -- In the states that take neither data nor acknowledgements.
  quiet :
      (state : State)
      → s.state ≡ state
      → ((t : Socket) → receive_ack state h t ≡ t)
      → is_established state ≡ false
      → (acked ≡ s) × (receive_data bytes acked ≡ s)
  unfolding receive_data acked
  quiet state e same no_data =
      let acked_is : acked ≡ s = ap (λ x. receive_ack x h s) e ∙ same s in
      (
        acked_is,
        ap (receive_data bytes) acked_is
            ∙ (elim (Bool-cases (leb (length bytes) (h.data_offset * 4))) [
              | inl l ↦ rw l refl
              | inr l ↦ rw (l, ap is_established e, no_data) refl
            ]),
      )

  answered_nxt : s.snd_nxt < 2 ^ 32 → (answered s).snd_nxt ≡ s.snd_nxt
  unfolding answered send
  answered_nxt small =
      let same : u32 (s.snd_nxt + 0) ≡ s.snd_nxt = omega arith in
      let no_fin : has (fin + syn) ack ≡ false = unfold has in refl in rw (no_fin, same) refl

  -- Where the state stays unless a segment counts and has a FIN.
  quiet_fin :
      (state : State)
      → s.state ≡ state
      → ((t : Socket) → receive_ack state h t ≡ t)
      → is_established state ≡ false
      → (receive_connected bytes s).state ≡ (
          if counts (signals h s) && has fin h.flags then after_fin state h (answered s) else state)
  quiet_fin state e same no_data = elim (Bool-cases (counts (signals h s))) [
    | inl c ↦
        let (acked_is, kept) = quiet state e same no_data in
        rw c (
          connected_goes state (ap (λ t. t.state) acked_is ∙ e) c
          ∙ ap (λ t. if has fin h.flags then after_fin state h (answered t) else state) kept)
    | inr n ↦ rw n (connected_stays n ∙ e)
  ]

  if_same : (b : Bool) (a : State) → (if b then a else a) ≡ a
  if_same true a = refl
  if_same false a = refl

  acked_syn_received :
      s.state ≡ syn_received
      → acked.state ≡ (if (signals h s).in_window then established else syn_received)
  unfolding acked receive_ack ack_syn_received in_send_window send
  acked_syn_received e =
      ap (λ x. (receive_ack x h s).state) e
      ∙ elim (Bool-cases (signals h s).in_window) [ inl i ↦ rw i refl | inr o ↦ rw o e ]

  from_syn_received :
      s.state ≡ syn_received
      → (receive_connected bytes s).state ≡ next_state syn_received (signals h s)
  unfolding next_state after_fin
  from_syn_received e = elim (Bool-cases (counts (signals h s))) [
    | inl c ↦ elim (Bool-cases (signals h s).in_window) [
      | inl i ↦
          rw (c, i)
            (connected_goes established
              (acked_syn_received e ∙ if_true (signals h s).in_window established syn_received i) c)
      | inr o ↦
          rw (c, o)
            (connected_goes syn_received
              (acked_syn_received e ∙ if_false (signals h s).in_window established syn_received o)
              c)
    ]
    | inr n ↦ rw n (connected_stays n ∙ e)
  ]

  acked_established : s.state ≡ established → acked.state ≡ established
  unfolding acked receive_ack ack_established in_send_window update_window
      refresh_retransmission_queue
  acked_established e = ap (λ x. (receive_ack x h s).state) e ∙ ground arith

  from_established :
      s.state ≡ established
      → (receive_connected bytes s).state ≡ next_state established (signals h s)
  unfolding next_state after_fin
  from_established e = elim (Bool-cases (counts (signals h s))) [
    | inl c ↦ rw c (connected_goes established (acked_established e) c)
    | inr n ↦ rw n (connected_stays n ∙ e)
  ]

  from_fin_wait1 :
      s.snd_nxt < 2 ^ 32
      → s.state ≡ fin_wait1
      → (receive_connected bytes s).state ≡ next_state fin_wait1 (signals h s)
  unfolding next_state after_fin receive_ack is_established
  from_fin_wait1 small e =
      quiet_fin fin_wait1 e (λ t. refl) refl
      ∙ ap
          (λ n.
            if counts (signals h s) && has fin h.flags
            then (if ltb n h.ack_number then time_wait else closing)
            else fin_wait1)
          (answered_nxt small)

  from_fin_wait2 :
      s.state ≡ fin_wait2 → (receive_connected bytes s).state ≡ next_state fin_wait2 (signals h s)
  unfolding next_state after_fin receive_ack is_established
  from_fin_wait2 e = quiet_fin fin_wait2 e (λ t. refl) refl

  from_last :
      (state : State)
      → s.state ≡ state
      → ((t : Socket) → receive_ack state h t ≡ t)
      → is_established state ≡ false
      → ((t : Socket) → after_fin state h t ≡ state)
      → (receive_connected bytes s).state ≡ state
  from_last state e same no_data stays =
      quiet_fin state e same no_data
      ∙ ap (λ x. if counts (signals h s) && has fin h.flags then x else state) (stays (answered s))
      ∙ if_same (counts (signals h s) && has fin h.flags) state

dispatch-next_state :
    (state : State) (source_ip : ℕ) (bytes : List ℕ) (s : Socket)
    → s.snd_nxt < 2 ^ 32
    → s.state ≡ state
    → (dispatch state source_ip bytes s).state ≡ next_state state (signals (get_header bytes) s)
unfolding dispatch receive_on_listen next_state receive_ack after_fin is_established
dispatch-next_state listen ip bytes s small e = e
dispatch-next_state syn_sent ip bytes s small e = state-receive_on_syn_sent (get_header bytes) s e
dispatch-next_state syn_received ip bytes s small e = from_syn_received bytes s e
dispatch-next_state established ip bytes s small e = from_established bytes s e
dispatch-next_state fin_wait1 ip bytes s small e = from_fin_wait1 bytes s small e
dispatch-next_state fin_wait2 ip bytes s small e = from_fin_wait2 bytes s e
dispatch-next_state close_wait ip bytes s small e =
    from_last bytes s close_wait e (λ t. refl) refl (λ t. refl)
dispatch-next_state closing ip bytes s small e =
    from_last bytes s closing e (λ t. refl) refl (λ t. refl)
dispatch-next_state last_ack ip bytes s small e =
    from_last bytes s last_ack e (λ t. refl) refl (λ t. refl)
dispatch-next_state time_wait ip bytes s small e =
    from_last bytes s time_wait e (λ t. refl) refl (λ t. refl)
dispatch-next_state closed ip bytes s small e =
    from_last bytes s closed e (λ t. refl) refl (λ t. refl)

-- A segment takes a socket, whatever its state is, to the state that the table `next_state` gives for
-- the segment's flags and for where the number that it acknowledges lies among those sent, and its
-- data and its sequence number have no part in it. `snd_nxt` is a 32-bit word.
pub receive-next_state :
    (source_ip : ℕ) (bytes : List ℕ) (s : Socket)
    → s.snd_nxt < 2 ^ 32
    → (receive source_ip bytes s).state ≡ next_state s.state (signals (get_header bytes) s)
unfolding receive
receive-next_state source_ip bytes s small =
    dispatch-next_state s.state source_ip bytes s small refl
