-- ===== src/Networking/Tcp/Receive/Stale.antt =====
-- What a packet that was delivered before does to a connection when it comes again.
use xp_os.Prelude.{
  ℕ, ◌<◌, ◌≡◌, refl, ap, ◌∙◌, List, [], ◌∷◌, arith, ltb, Bool-cases, inl, inr, ltb→lt, ltb→le,
}
use xp_os.Networking.Tcp.Socket.{
  Packet, Socket, send, insert_packet, add_to_received, process_received,
}
use xp_os.Networking.Tcp.Socket.Reassembly.{insert_before, insert_after, loop_unwanted}
use xp_os.Networking.Tcp.Receive.{accept_data}

-- The packets of `ps` accepted one after the other.
unfoldable pub accept_all : List Packet → Socket → Socket
accept_all [] s = s
accept_all (p ∷ ps) s = accept_all ps (accept_data p s)

-- The list of packets begins with one from before `rcv_nxt`.
record IsStuck (s : Socket) : Type 0 where
  head : Packet
  rest : List Packet
  begins : s.out_of_order_list ≡ head ∷ rest
  old : head.sequence_number < s.rcv_nxt

insert_packet_head :
    (q head : Packet) (rest : List Packet) (n : ℕ)
    → head.sequence_number < n
    → (p : Packet) × (ps : List Packet) × (insert_packet q (head ∷ rest) ≡ p ∷ ps)
      × (p.sequence_number < n)
insert_packet_head q head rest n h =
    elim (Bool-cases (ltb q.sequence_number head.sequence_number)) [
      | inl lt ↦
          (q, head ∷ rest, insert_before q head rest (ltb→lt _ _ lt), omega (arith, ltb→lt _ _ lt))
      | inr ge ↦ (head, insert_packet q rest, insert_after q head rest (ltb→le _ _ ge), h)
    ]

accept_data-IsStuck :
    (q : Packet) (s : Socket)
    → IsStuck s
    → ((accept_data q s).delivered ≡ s.delivered) × IsStuck (accept_data q s)
unfolding accept_data process_received add_to_received send
accept_data-IsStuck q s v =
    let (p, ps, begins, old) = insert_packet_head q v.head v.rest s.rcv_nxt v.old in
    let now : insert_packet q s.out_of_order_list ≡ p ∷ ps =
      ap (insert_packet q) v.begins ∙ begins in
    rw (now, loop_unwanted s.rcv_nxt s.delivered p ps (omega arith))
      (refl, record { head = p; rest = ps; begins = refl; old = old })

accept_all-IsStuck :
    (ps : List Packet) (s : Socket) → IsStuck s → (accept_all ps s).delivered ≡ s.delivered
unfolding accept_all
accept_all-IsStuck [] s v = refl
accept_all-IsStuck (p ∷ ps) s v =
    let (same, stuck) = accept_data-IsStuck p s v in
    accept_all-IsStuck ps (accept_data p s) stuck ∙ same

-- Once a packet from before `rcv_nxt` is accepted while no packet waits, such as a duplicate of one
-- that was delivered, no packet that is accepted later is delivered, whatever the packets are.
pub duplicate_blocks :
    (p : Packet) (ps : List Packet) (s : Socket)
    → s.out_of_order_list ≡ []
    → p.sequence_number < s.rcv_nxt
    → (accept_all (p ∷ ps) s).delivered ≡ s.delivered
unfolding accept_all accept_data process_received add_to_received send insert_packet
duplicate_blocks p ps s none_waits old = accept_all-IsStuck ps (accept_data p s) stuck ∙ same
  where
    now : insert_packet p s.out_of_order_list ≡ p ∷ []
    now = ap (insert_packet p) none_waits

    stuck : IsStuck (accept_data p s)
    stuck =
        rw (now, loop_unwanted s.rcv_nxt s.delivered p [] (omega arith))
          (record { head = p; rest = []; begins = refl; old = old })

    same : (accept_data p s).delivered ≡ s.delivered
    same = rw (now, loop_unwanted s.rcv_nxt s.delivered p [] (omega arith)) refl
