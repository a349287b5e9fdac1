-- ===== src/Networking/Tcp/Demux/Tests.antt =====
-- A listening socket at port 80, a connection accepted from it, and a segment for the connection.
use xp_os.Prelude.{◌≡◌, refl, List, [], ◌∷◌, ◌++◌, map}
use xp_os.Networking.Tcp.Header.{Header, get_header, set_header}
use xp_os.Networking.Tcp.Socket.{listen, established, Socket, create_socket}
use xp_os.Networking.Tcp.Demux.Listener.{
  Arrival, ListensAt, request_of, receive_ip_all, listener_takes_all,
}

abbrev listener : Socket
listener = create_socket listen (0, 0) (80, 0x0a000202)

abbrev connection : Socket
connection = create_socket established (50000, 7) (80, 0x0a000202)

abbrev segment : Header
segment = record {
  source_port = 50000;
  dest_port = 80;
  sequence_number = 100;
  ack_number = 0xbeef0102;
  data_offset = 6;
  flags = 0x10;
  window_size = 8192;
  checksum = 0;
  urgent_pointer = 0;
  options = 0;
}

abbrev arrivals : List Arrival
arrivals = (7, set_header segment) ∷ (8, set_header segment) ∷ []

listener_takes_all_example :
    (s' : Socket) × ListensAt 0x0a000202 80 s'
    × (s'.connection_queue ≡ [] ++ map request_of arrivals)
    × (receive_ip_all 0x0a000202 arrivals (listener ∷ connection ∷ []) ≡ s' ∷ connection ∷ [])
unfolding create_socket set_header get_header
listener_takes_all_example =
    listener_takes_all 0x0a000202 80 arrivals listener (connection ∷ [])
      (record { listening = refl; local_port_is = refl; local_ip_is = refl }) (refl, (refl, tt))
