-- ===== src/Networking/Tcp/Receive/Handshake.antt =====
-- The states of a connection, and how one is set up.
use xp_os.Prelude.{
  ℕ, ◌+◌, ◌≤◌, ◌≡◌, refl, sym, ap, ◌∙◌, true, false, List, [], ◌∷◌, arith, Bool-cases, inl, inr,
  ◌⊎◌, map, ◌*◌, drop, ltb,
}
use mathlib.Core.Path.{subst, subst₂}
use xp_os.Prelude.Word.{u32}
use xp_os.Networking.Tcp.Header.{Header, get_header, has, fin, syn, rst, ack}
use xp_os.Networking.Tcp.Socket.{
  State, listen, syn_sent, syn_received, established, fin_wait1, fin_wait2, close_wait, closing,
  time_wait, Endpoint, Packet, Socket, send, create_socket, process_received, add_to_received,
}
use xp_os.Networking.Tcp.Receive.{
  accept_on_listen, receive_on_syn_sent, receive_ack, ack_syn_received, ack_established,
  in_send_window, update_window, refresh_retransmission_queue, receive_fin, after_fin, accept_data,
  receive_data, receive_on_listen, receive_connected, dispatch, receive,
}

-- The state diagram that `receive` follows.
infix 40 ◌⟶◌
pub data ◌⟶◌ : State → State → Type 0 where
  stay : {s : State} → s ⟶ s
  both_open : syn_sent ⟶ established
  cross : syn_sent ⟶ syn_received
  acknowledged : syn_received ⟶ established
  closed_early : syn_received ⟶ close_wait
  closed_by_peer : established ⟶ close_wait
  closes : fin_wait1 ⟶ closing
  closes_last : fin_wait1 ⟶ time_wait
  peer_done : fin_wait2 ⟶ time_wait

state-accept_data : (p : Packet) (s : Socket) → (accept_data p s).state ≡ s.state
unfolding accept_data send process_received add_to_received
state-accept_data p s = refl

pub state-receive_data : (bytes : List ℕ) (s : Socket) → (receive_data bytes s).state ≡ s.state
unfolding receive_data
state-receive_data bytes s = ground (
  arith,
  state-accept_data
      (record {
        sequence_number = (get_header bytes).sequence_number;
        payload = drop ((get_header bytes).data_offset * 4) bytes;
      })
      s,
)

state-receive_ack :
    (state : State) (h : Header) (s : Socket)
    → s.state ≡ state
    → ((receive_ack state h s).state ≡ state)
      ⊎ ((state ≡ syn_received) × ((receive_ack state h s).state ≡ established))
unfolding receive_ack ack_syn_received ack_established in_send_window update_window
    refresh_retransmission_queue send
state-receive_ack listen h s e = inl e
state-receive_ack syn_received h s e = ground arith
state-receive_ack established h s e = ground arith
state-receive_ack _ h s e = inl e

fin_step : (a : State) (h : Header) (s : Socket) → a ⟶ after_fin a h s
unfolding after_fin
fin_step syn_received h s = closed_early
fin_step established h s = closed_by_peer
fin_step fin_wait1 h s = elim (Bool-cases (ltb s.snd_nxt h.ack_number)) [
  | inl e ↦ rw e closes_last
  | inr e ↦ rw e closes
]
fin_step fin_wait2 h s = peer_done
fin_step _ h s = stay

-- An acknowledgement and then perhaps a FIN.
ack_then_fin :
    (a b c : State) (h : Header)
    → (b ≡ a) ⊎ ((a ≡ syn_received) × (b ≡ established))
    → (c ≡ a) ⊎ (c ≡ b) ⊎ ((s : Socket) × (c ≡ after_fin b h s))
    → a ⟶ c
unfolding after_fin
ack_then_fin a b c h moved (inl e) = subst (λ x. a ⟶ x) (sym e) stay
ack_then_fin a b c h (inl e) (inr (inl f)) = subst (λ x. a ⟶ x) (sym (f ∙ e)) stay
ack_then_fin a b c h (inl e) (inr (inr (s, f))) =
    subst (λ x. a ⟶ x) (sym (f ∙ ap (λ x. after_fin x h s) e)) (fin_step a h s)
ack_then_fin a b c h (inr (e, g)) (inr (inl f)) = subst₂ ◌⟶◌ (sym e) (sym (f ∙ g)) acknowledged
ack_then_fin a b c h (inr (e, g)) (inr (inr (s, f))) =
    subst₂ ◌⟶◌ (sym e) (sym (f ∙ ap (λ x. after_fin x h s) g)) closed_early

state-receive_fin :
    (h : Header) (s : Socket) → (t : Socket) × ((receive_fin h s).state ≡ after_fin s.state h t)
unfolding receive_fin send
state-receive_fin h s =
    (send s.snd_nxt [] ack (record s { rcv_nxt = u32 (h.sequence_number + 1) }), refl)

module _ (bytes : List ℕ) (s : Socket) where
  h : Header
  h = get_header bytes

  acked : Socket
  acked = receive_ack s.state h s

  connected_ends :
      let c = (receive_connected bytes s).state in
      (c ≡ s.state) ⊎ (c ≡ acked.state) ⊎ ((t : Socket) × (c ≡ after_fin acked.state h t))
  unfolding receive_connected send h acked
  connected_ends = elim (Bool-cases (has rst h.flags)) [
    | inl e ↦ inl (rw e refl)
    | inr r ↦ elim (Bool-cases (has syn h.flags)) [
      | inl e ↦ inl (rw (r, e) refl)
      | inr y ↦ elim (Bool-cases (has ack h.flags)) [
        | inr e ↦ inl (rw (r, y, e) refl)
        | inl a ↦ elim (Bool-cases (has fin h.flags)) [
          | inl f ↦
              let (t, e) = state-receive_fin h (receive_data bytes acked) in
              inr (
                inr (
                  t,
                  rw (r, y, a, f) (e ∙ ap (λ x. after_fin x h t) (state-receive_data bytes acked)),
                ))
          | inr f ↦ inr (inl (rw (r, y, a, f) (state-receive_data bytes acked)))
        ]
      ]
    ]
  ]

  connected_step : s.state ⟶ (receive_connected bytes s).state
  unfolding acked
  connected_step =
      ack_then_fin s.state acked.state (receive_connected bytes s).state h
        (state-receive_ack s.state h s refl) connected_ends

syn_sent_ends :
    (h : Header) (s : Socket)
    → let c = (receive_on_syn_sent h s).state in
      (c ≡ s.state) ⊎ (c ≡ established) ⊎ (c ≡ syn_received)
unfolding receive_on_syn_sent send
syn_sent_ends h s = ground arith

open_step : (c : State) → (c ≡ syn_sent) ⊎ (c ≡ established) ⊎ (c ≡ syn_received) → syn_sent ⟶ c
open_step c (inl e) = subst (λ x. syn_sent ⟶ x) (sym e) stay
open_step c (inr (inl e)) = subst (λ x. syn_sent ⟶ x) (sym e) both_open
open_step c (inr (inr e)) = subst (λ x. syn_sent ⟶ x) (sym e) cross

dispatch_step :
    (state : State) (source_ip : ℕ) (bytes : List ℕ) (s : Socket)
    → s.state ≡ state
    → state ⟶ (dispatch state source_ip bytes s).state
unfolding dispatch receive_on_listen
dispatch_step listen source_ip bytes s e = subst (λ x. listen ⟶ x) (sym e) stay
dispatch_step syn_sent source_ip bytes s e =
    open_step (receive_on_syn_sent (get_header bytes) s).state (
      subst (λ x. (c s ≡ x) ⊎ (c s ≡ established) ⊎ (c s ≡ syn_received)) e
        (syn_sent_ends (get_header bytes) s))
  where
    c : Socket → State
    c s = (receive_on_syn_sent (get_header bytes) s).state
dispatch_step state source_ip bytes s e =
    subst (λ x. x ⟶ (receive_connected bytes s).state) e (connected_step bytes s)

-- A segment leaves the state of a socket as it is or moves it along an edge of the diagram.
pub receive_step :
    (source_ip : ℕ) (bytes : List ℕ) (s : Socket) → s.state ⟶ (receive source_ip bytes s).state
unfolding receive
receive_step source_ip bytes s = dispatch_step s.state source_ip bytes s refl

-- The states that a connection can be in once it is set up by `accept_on_listen` or `connect`.
abbrev pub IsOpen : State → Type 0
IsOpen syn_sent = Unit
IsOpen syn_received = Unit
IsOpen established = Unit
IsOpen close_wait = Unit
IsOpen _ = ⊥

⟶-IsOpen : {a b : State} → a ⟶ b → IsOpen a → IsOpen b
⟶-IsOpen stay o = o
⟶-IsOpen both_open o = tt
⟶-IsOpen cross o = tt
⟶-IsOpen acknowledged o = tt
⟶-IsOpen closed_early o = tt
⟶-IsOpen closed_by_peer o = tt
⟶-IsOpen closes o = o
⟶-IsOpen closes_last o = o
⟶-IsOpen peer_done o = o

-- The segments of a list received one after the other.
unfoldable pub receive_all : ℕ → List (List ℕ) → Socket → Socket
receive_all source_ip [] s = s
receive_all source_ip (bytes ∷ rest) s = receive_all source_ip rest (receive source_ip bytes s)

-- A connection that was set up never leaves the four states SYN_SENT, SYN_RECEIVED, ESTABLISHED and
-- CLOSE_WAIT, whatever segments it receives; so it is never closed.
pub receive_all-IsOpen :
    (source_ip : ℕ) (segments : List (List ℕ)) (s : Socket)
    → IsOpen s.state
    → IsOpen (receive_all source_ip segments s).state
unfolding receive_all
receive_all-IsOpen source_ip [] s o = o
receive_all-IsOpen source_ip (bytes ∷ rest) s o =
    receive_all-IsOpen source_ip rest (receive source_ip bytes s)
      (⟶-IsOpen (receive_step source_ip bytes s) o)

-- What a new socket answers to the SYN of any peer acknowledges number 1, not the number after the
-- peer's own: a client of this code, whose first number is above 0, drops such an answer.
pub accept_is_refused :
    (state : State) (remote endpoint : Endpoint) (h : Header) (answer : Header) (client : Socket)
    → has ack h.flags ≡ false
    → has syn h.flags ≡ true
    → answer.ack_number ≡ 1
    → has ack answer.flags ≡ true
    → 1 ≤ client.iss
    → (map (λ g. g.ack_number) (accept_on_listen h (create_socket state remote endpoint)).sent
        ≡ 1 ∷ [])
      × (receive_on_syn_sent answer client ≡ client)
unfolding accept_on_listen create_socket send receive_on_syn_sent
accept_is_refused state remote endpoint h answer client no_ack with_syn one with_ack first =
    let acks : has ack (syn + ack) ≡ true = unfold has in refl in
    (rw (no_ack, with_syn, acks) refl, ground arith)
