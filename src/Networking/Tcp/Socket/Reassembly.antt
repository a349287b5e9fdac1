-- ===== src/Networking/Tcp/Socket/Reassembly.antt =====
-- Putting the received packets in order, and what keeps them from the application.
use mathlib.Core.List.{append_assoc, append-nil}
use xp_os.Prelude.{
  ℕ, ◌+◌, ◌^◌, ◌≤◌, ◌<◌, ◌≡◌, ◌≢◌, refl, sym, ap, ◌∙◌, true, false, List, [], ◌∷◌, ◌++◌, inl, inr,
  arith, ◌==◌, ltb, length, length-append, Bool-cases, ==→eq, ==→ne, eq→==, ne→==, ltb→lt, ltb→le,
}
use xp_os.Prelude.All.{All, All-mono, IsOrdered}
use xp_os.Prelude.Word.{u32}
use xp_os.Networking.Tcp.Socket.{Packet, Socket, insert_packet, process_loop, process_received}

-- Packets that follow one another from sequence number `n` on.
abbrev pub IsChain : ℕ → List Packet → Type 0
IsChain n [] = Unit
IsChain n (p ∷ ps) = (n ≡ p.sequence_number) × IsChain (u32 (n + length p.payload)) ps

abbrev pub bytes_of : List Packet → List ℕ
bytes_of [] = []
bytes_of (p ∷ ps) = p.payload ++ bytes_of ps

-- The list does not begin with the packet that is wanted next.
abbrev pub StopsAt : ℕ → List Packet → Type 0
StopsAt n [] = Unit
StopsAt n (p ∷ ps) = n ≢ p.sequence_number

pub loop_wanted :
    (n : ℕ) (out : List ℕ) (p : Packet) (ps : List Packet)
    → n ≡ p.sequence_number
    → process_loop n out (p ∷ ps) ≡ process_loop (u32 (n + length p.payload)) (out ++ p.payload) ps
unfolding process_loop
loop_wanted n out p ps e = let t : (n == p.sequence_number) ≡ true = eq→== _ _ e in rw t refl

pub loop_unwanted :
    (n : ℕ) (out : List ℕ) (p : Packet) (ps : List Packet)
    → n ≢ p.sequence_number
    → process_loop n out (p ∷ ps) ≡ (n, out, p ∷ ps)
unfolding process_loop
loop_unwanted n out p ps e = let t : (n == p.sequence_number) ≡ false = ne→== _ _ e in rw t refl

record Processed (n : ℕ) (out : List ℕ) (packets : List Packet) (r : ℕ × List ℕ × List Packet)
    : Type 0 where
  given : List Packet
  kept : packets ≡ given ++ r.2
  chained : IsChain n given
  out_grows : r.1 ≡ out ++ bytes_of given
  next_moves : r.0 ≡ u32 (n + length (bytes_of given))
  stops : StopsAt r.0 r.2

process_loop-Processed :
    (n : ℕ) (out : List ℕ) (packets : List Packet)
    → n < 2 ^ 32
    → Processed n out packets (process_loop n out packets)
unfolding process_loop
process_loop-Processed n out [] h = record {
  given = [];
  kept = refl;
  chained = tt;
  out_grows = sym (append-nil out);
  next_moves = omega arith;
  stops = tt;
}
process_loop-Processed n out (p ∷ ps) h = elim (Bool-cases (n == p.sequence_number)) [
  | inl e ↦
      let r =
        process_loop-Processed (u32 (n + length p.payload)) (out ++ p.payload) ps (omega arith) in
      rw (loop_wanted n out p ps (==→eq _ _ e)) (record {
        given = p ∷ r.given;
        kept = ap (λ l. p ∷ l) r.kept;
        chained = (==→eq _ _ e, r.chained);
        out_grows = r.out_grows ∙ append_assoc out p.payload (bytes_of r.given);
        next_moves = omega (arith, r.next_moves, length-append p.payload (bytes_of r.given));
        stops = r.stops;
      })
  | inr e ↦ rw (loop_unwanted n out p ps (==→ne _ _ e)) (record {
    given = [];
    kept = refl;
    chained = tt;
    out_grows = sym (append-nil out);
    next_moves = omega arith;
    stops = ==→ne _ _ e;
  })
]

-- With `rcv_nxt` a 32-bit number, `process_received` takes packets off the front of the list as far
-- as each begins at the sequence number wanted next, delivers their bytes in order, moves
-- `rcv_nxt` by the number of those bytes, modulo 2^32, and keeps all other packets; the first that
-- it keeps is not wanted next.
pub process_received_lem :
    (s : Socket)
    → s.rcv_nxt < 2 ^ 32
    → let s' = process_received s in
      (given : List Packet) × (s.out_of_order_list ≡ given ++ s'.out_of_order_list)
      × IsChain s.rcv_nxt given
      × (s'.delivered ≡ s.delivered ++ bytes_of given)
      × (s'.rcv_nxt ≡ u32 (s.rcv_nxt + length (bytes_of given)))
      × StopsAt s'.rcv_nxt s'.out_of_order_list
unfolding process_received
process_received_lem s h =
    let r = process_loop-Processed s.rcv_nxt s.delivered s.out_of_order_list h in
    (r.given, r.kept, r.chained, r.out_grows, r.next_moves, r.stops)

-- The list of packets in the order of their sequence numbers.
abbrev pub IsSorted : List Packet → Type 0
IsSorted = IsOrdered (λ p q. p.sequence_number ≤ q.sequence_number)

pub insert_before :
    (packet p : Packet) (ps : List Packet)
    → packet.sequence_number < p.sequence_number
    → insert_packet packet (p ∷ ps) ≡ packet ∷ p ∷ ps
unfolding insert_packet
insert_before packet p ps h = ground arith

pub insert_after :
    (packet p : Packet) (ps : List Packet)
    → p.sequence_number ≤ packet.sequence_number
    → insert_packet packet (p ∷ ps) ≡ p ∷ insert_packet packet ps
unfolding insert_packet
insert_after packet p ps h = ground arith

All-insert_packet :
    (P : Packet → Type 0) (packet : Packet) (ps : List Packet)
    → P packet
    → All P ps
    → All P (insert_packet packet ps)
All-insert_packet P packet [] h a = unfold insert_packet in (h, tt)
All-insert_packet P packet (p ∷ ps) h a =
    elim (Bool-cases (ltb packet.sequence_number p.sequence_number)) [
      | inl lt ↦ rw (insert_before packet p ps (ltb→lt _ _ lt)) (h, a)
      | inr ge ↦
          rw (insert_after packet p ps (ltb→le _ _ ge)) (a.0, All-insert_packet P packet ps h a.1)
    ]

-- A packet put into a list in the order of the sequence numbers leaves a list in that order.
pub insert_packet-IsSorted :
    (packet : Packet) (ps : List Packet) → IsSorted ps → IsSorted (insert_packet packet ps)
insert_packet-IsSorted packet [] h = unfold insert_packet in (tt, tt)
insert_packet-IsSorted packet (p ∷ ps) h =
    elim (Bool-cases (ltb packet.sequence_number p.sequence_number)) [
      | inl lt ↦ rw (insert_before packet p ps (ltb→lt _ _ lt)) (
        (
          omega (arith, ltb→lt _ _ lt),
          All-mono (λ q. p.sequence_number ≤ q.sequence_number)
              (λ q. packet.sequence_number ≤ q.sequence_number) ps
              (λ q le. omega (arith, ltb→lt _ _ lt)) h.0,
        ),
        h,
      )
      | inr ge ↦ rw (insert_after packet p ps (ltb→le _ _ ge)) (
        All-insert_packet (λ q. p.sequence_number ≤ q.sequence_number) packet ps (ltb→le _ _ ge)
            h.0,
        insert_packet-IsSorted packet ps h.1,
      )
    ]
