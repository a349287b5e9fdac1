-- ===== src/Networking/Tcp/Demux.antt =====
-- `receive_ip` of Kernel/Networking/TCP/TCP.cpp: the choice of the socket that a segment is for,
-- among those created for the endpoint that it names, oldest first.
pub mod Listener
mod Tests
use xp_os.Prelude.{ℕ, Bool, true, false, ◌&&◌, List, [], ◌∷◌, ◌==◌, if◌then◌else◌}
use xp_os.Networking.Tcp.Header.{get_header}
use xp_os.Networking.Tcp.Socket.{State, listen, Socket}
use xp_os.Networking.Tcp.Receive.{receive}

unfoldable pub is_listening : State → Bool
is_listening listen = true
is_listening _ = false

module _ (dest_ip source_ip : ℕ) (payload : List ℕ) where
  abbrev pub local_port : ℕ
  local_port = (get_header payload).dest_port

  abbrev pub remote_port : ℕ
  remote_port = (get_header payload).source_port

  unfoldable pub is_local : Socket → Bool
  is_local s = (s.local_port == local_port) && (s.local_ip == dest_ip)

  -- A listening socket takes the sender for its peer.
  unfoldable pub take_peer : Socket → Socket
  unfolding is_local is_listening
  take_peer s =
      if is_local s && is_listening s.state
      then record s { remote_port = remote_port; remote_ip = source_ip }
      else s

  unfoldable pub matches : Socket → Bool
  unfolding is_local
  matches s = is_local s && (s.remote_port == remote_port) && (s.remote_ip == source_ip)

  -- The loop over the sockets of the endpoint: the first that matches receives the segment.
  unfoldable pub receive_ip : List Socket → List Socket
  unfolding take_peer matches
  receive_ip [] = []
  receive_ip (s ∷ ss) =
      let rest = take_peer s ∷ receive_ip ss in
      if matches (take_peer s) then receive source_ip payload (take_peer s) ∷ ss else rest
