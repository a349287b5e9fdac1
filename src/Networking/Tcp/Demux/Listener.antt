-- ===== src/Networking/Tcp/Demux/Listener.antt =====
-- What a listening socket does to the sockets that were created for its endpoint after it.
use xp_os.Prelude.{ℕ, ◌≡◌, refl, sym, ap, ◌∙◌, true, List, [], ◌∷◌, ◌++◌, map, eq→==}
use mathlib.Core.List.{append_assoc, append-nil}
use xp_os.Networking.Tcp.Header.{Header, get_header}
use xp_os.Networking.Tcp.Socket.{listen, Endpoint, Socket}
use xp_os.Networking.Tcp.Receive.{receive, dispatch, receive_on_listen}
use xp_os.Networking.Tcp.Demux.{is_listening, is_local, take_peer, matches, receive_ip}

-- A segment to the endpoint, with its sender.
abbrev pub Arrival : Type 0
Arrival = ℕ × List ℕ

-- A socket that listens at an endpoint.
pub record ListensAt (dest_ip port : ℕ) (s : Socket) : Type 0 where
  pub listening : s.state ≡ listen
  pub local_port_is : s.local_port ≡ port
  pub local_ip_is : s.local_ip ≡ dest_ip

-- The segments of a list received one after the other, all sent to the same port.
unfoldable pub receive_ip_all : ℕ → List Arrival → List Socket → List Socket
receive_ip_all dest_ip [] ss = ss
receive_ip_all dest_ip (a ∷ rest) ss = receive_ip_all dest_ip rest (receive_ip dest_ip a.0 a.1 ss)

abbrev pub AllTo : ℕ → List Arrival → Type 0
AllTo port [] = Unit
AllTo port (a ∷ rest) = ((get_header a.1).dest_port ≡ port) × AllTo port rest

-- The entry of the queue of connection requests for a segment: its sender, and its header.
abbrev pub request_of : Arrival → Endpoint × Header
request_of a = (((get_header a.1).source_port, a.0), get_header a.1)

module _ (dest_ip port source_ip : ℕ) (payload : List ℕ) (s : Socket) (v : ListensAt dest_ip port s)
    (to : (get_header payload).dest_port ≡ port) where
  -- The listening socket with the sender as its peer.
  peered : Socket
  peered = record s { remote_port = (get_header payload).source_port; remote_ip = source_ip }

  is_local-listener : is_local dest_ip source_ip payload s ≡ true
  unfolding is_local
  is_local-listener = rw (eq→== _ _ (v.local_port_is ∙ sym to), eq→== _ _ v.local_ip_is) refl

  take_peer-listener : take_peer dest_ip source_ip payload s ≡ peered
  unfolding take_peer peered is_listening
  take_peer-listener = rw (is_local-listener, v.listening) refl

  matches-peered : matches dest_ip source_ip payload peered ≡ true
  unfolding matches peered is_local
  matches-peered =
      rw
        (
          eq→== _ _ (v.local_port_is ∙ sym to),
          eq→== _ _ v.local_ip_is,
          eq→== (get_header payload).source_port _ refl,
          eq→== source_ip _ refl,
        )
        refl

  receive-peered :
      receive source_ip payload peered ≡ receive_on_listen source_ip (get_header payload) peered
  unfolding receive dispatch peered
  receive-peered = ap (λ x. dispatch x source_ip payload peered) v.listening

  taken :
      (ss : List Socket)
      → (s' : Socket) × ListensAt dest_ip port s'
        × (s'.connection_queue ≡ s.connection_queue ++ (request_of (source_ip, payload) ∷ []))
        × (receive_ip dest_ip source_ip payload (s ∷ ss) ≡ s' ∷ ss)
  unfolding receive_ip peered receive_on_listen
  taken ss = (
    receive_on_listen source_ip (get_header payload) peered,
    record {
      listening = v.listening;
      local_port_is = v.local_port_is;
      local_ip_is = v.local_ip_is;
    },
    refl,
    rw (take_peer-listener, matches-peered, receive-peered) refl,
  )

-- While the first socket of an endpoint listens, it gets every segment to the endpoint, whoever
-- sends it: its queue of connection requests grows by the sender and the header of each of them, in
-- order. It goes on listening, and the sockets behind it, such as those accepted from it, get none
-- and stay as they are.
pub listener_takes_all :
    (dest_ip port : ℕ) (arrivals : List Arrival) (s : Socket) (ss : List Socket)
    → ListensAt dest_ip port s
    → AllTo port arrivals
    → (s' : Socket) × ListensAt dest_ip port s'
      × (s'.connection_queue ≡ s.connection_queue ++ map request_of arrivals)
      × (receive_ip_all dest_ip arrivals (s ∷ ss) ≡ s' ∷ ss)
unfolding receive_ip_all
listener_takes_all dest_ip port [] s ss v to = (s, v, sym (append-nil s.connection_queue), refl)
listener_takes_all dest_ip port (a ∷ rest) s ss v to =
    let (s1, v1, q1, e1) = taken dest_ip port a.0 a.1 s v to.0 ss in
    let (s2, v2, q2, e2) = listener_takes_all dest_ip port rest s1 ss v1 to.1 in
    (
      s2,
      v2,
      q2
          ∙ ap (λ q. q ++ map request_of rest) q1
          ∙ append_assoc s.connection_queue (request_of a ∷ []) (map request_of rest),
      ap (receive_ip_all dest_ip rest) e1 ∙ e2,
    )
