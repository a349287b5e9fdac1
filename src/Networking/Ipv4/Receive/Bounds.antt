-- ===== src/Networking/Ipv4/Receive/Bounds.antt =====
-- What reaches TCP stays inside the buffer.
use xp_os.Prelude.{
  ℕ, ◌+◌, ◌*◌, ◌^◌, ◌≤◌, ◌<◌, ◌≡◌, some, List, [], ◌∷◌, arith, Bool-cases, inl, inr, ltb, length,
  ltb→le, min, ◌==◌, ==→eq, drop, ap, ◌∙◌,
}
use xp_os.Prelude.Word.{sub32}
use xp_os.Prelude.All.{All}
use xp_os.Networking.Endian.{get8, get32}
use xp_os.Networking.Ipv4.Receive.{
  Delivery, message_header_size, tcp_protocol, get_ihl, get_length, set_length, clamp_length,
  deliver, receive,
}

length_of_four :
    (size : ℕ) (b0 b1 b2 b3 : ℕ) (bs : List ℕ)
    → b2 < 256
    → b3 < 256
    → let bytes = b0 ∷ b1 ∷ b2 ∷ b3 ∷ bs in
      get_length (clamp_length size bytes) ≡ min (get_length bytes) size
unfolding get_length clamp_length set_length
length_of_four size b0 b1 b2 b3 bs h2 h3 = ground arith

get_length-clamp_length :
    (size : ℕ) (bytes : List ℕ)
    → All (λ x. x < 256) bytes
    → length bytes ≡ size
    → 20 ≤ size
    → get_length (clamp_length size bytes) ≡ min (get_length bytes) size
get_length-clamp_length size [] v h l = omega arith
get_length-clamp_length size (_ ∷ []) v h l = omega arith
get_length-clamp_length size (_ ∷ _ ∷ []) v h l = omega arith
get_length-clamp_length size (_ ∷ _ ∷ _ ∷ []) v h l = omega arith
get_length-clamp_length size (b0 ∷ b1 ∷ b2 ∷ b3 ∷ bs) v h l =
    length_of_four size b0 b1 b2 b3 bs v.1.1.0 v.1.1.1.0

get_ihl-clamp_length :
    (size : ℕ) (bytes : List ℕ)
    → 0 < length bytes
    → get_ihl (clamp_length size bytes) ≡ get_ihl bytes
unfolding get_ihl clamp_length set_length
get_ihl-clamp_length size [] h = omega arith
get_ihl-clamp_length size (b0 ∷ bs) h = ground arith

delivered-size :
    (bytes : List ℕ) (d : Delivery)
    → deliver bytes ≡ some d
    → d.size ≡ sub32 (get_length bytes) (4 * get_ihl bytes)
unfolding deliver
delivered-size bytes d e = elim (Bool-cases (get8 bytes 9 == tcp_protocol)) [
  | inl t ↦ cc (e, t)
  | inr f ↦ cc (e, f)
]

received :
    (ip_address : ℕ) (bytes : List ℕ) (size : ℕ) (d : Delivery)
    → receive ip_address bytes size ≡ some d
    → (message_header_size ≤ size)
      × (get32 bytes 16 ≡ ip_address)
      × (deliver (clamp_length size bytes) ≡ some d)
unfolding receive
received ip_address bytes size d e = elim (Bool-cases (ltb size message_header_size)) [
  | inl short ↦ cc (e, short)
  | inr long ↦ elim (Bool-cases (get32 bytes 16 == ip_address)) [
    | inl mine ↦ (ltb→le _ _ long, ==→eq _ _ mine, cc (e, long, mine))
    | inr other ↦ cc (e, long, other)
  ]
]

delivered-payload :
    (bytes : List ℕ) (d : Delivery)
    → deliver bytes ≡ some d
    → d.payload ≡ drop (4 * get_ihl bytes) bytes
unfolding deliver
delivered-payload bytes d e = elim (Bool-cases (get8 bytes 9 == tcp_protocol)) [
  | inl t ↦ cc (e, t)
  | inr f ↦ cc (e, f)
]

-- What IPv4 gives to TCP comes from a message to this machine that is no shorter than a header. It
-- starts where the header ends that the message names, and the size that is named is that of the
-- message from there on, where a message longer than the buffer counts as long as the buffer: so it
-- ends inside the buffer. The buffer holds fewer than 2^32 bytes, and the header that the message
-- names ends inside the message and the buffer.
pub receive_inside :
    (ip_address : ℕ) (bytes : List ℕ) (size : ℕ) (d : Delivery)
    → All (λ x. x < 256) bytes
    → length bytes ≡ size
    → size < 2 ^ 32
    → 4 * get_ihl bytes ≤ min (get_length bytes) size
    → receive ip_address bytes size ≡ some d
    → (message_header_size ≤ size)
      × (get32 bytes 16 ≡ ip_address)
      × (d.payload ≡ drop (4 * get_ihl bytes) (clamp_length size bytes))
      × (4 * get_ihl bytes + d.size ≡ min (get_length bytes) size)
receive_inside ip_address bytes size d v whole small header_inside e =
    let (long, mine, given) = received ip_address bytes size d e in
    let same_ihl = get_ihl-clamp_length size bytes (omega (arith, long)) in
    (
      long,
      mine,
      delivered-payload (clamp_length size bytes) d given
          ∙ ap (λ n. drop (4 * n) (clamp_length size bytes)) same_ihl,
      omega (
        arith,
        delivered-size (clamp_length size bytes) d given,
        get_length-clamp_length size bytes v whole long,
        same_ihl,
      ),
    )
