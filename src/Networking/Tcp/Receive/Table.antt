-- ===== src/Networking/Tcp/Receive/Table.antt =====
-- A table of the states of a connection: what a segment does to each.
use xp_os.Prelude.{Bool, not, ◌&&◌, ◌||◌, ltb, leb, if◌then◌else◌}
use xp_os.Networking.Tcp.Header.{Header, has, fin, syn, rst, ack}
use xp_os.Networking.Tcp.Socket.{
  State, syn_sent, syn_received, established, fin_wait1, fin_wait2, close_wait, closing, time_wait,
  Socket,
}

-- The flags of a segment, and where the number that it acknowledges lies.
pub record Signals : Type 0 where
  pub has_syn : Bool
  pub has_ack : Bool
  pub has_rst : Bool
  pub has_fin : Bool
  pub acks_syn : Bool
  pub in_window : Bool
  pub beyond_sent : Bool

abbrev pub signals : Header → Socket → Signals
signals h s = record {
  has_syn = has syn h.flags;
  has_ack = has ack h.flags;
  has_rst = has rst h.flags;
  has_fin = has fin h.flags;
  acks_syn = ltb s.iss h.ack_number && leb h.ack_number s.snd_nxt;
  in_window = leb s.snd_una h.ack_number && leb h.ack_number s.snd_nxt;
  beyond_sent = ltb s.snd_nxt h.ack_number;
}

-- A segment of a connection that is set up counts with an ACK and neither a RST nor a SYN.
abbrev pub counts : Signals → Bool
counts g = g.has_ack && not g.has_rst && not g.has_syn

-- An answer to a SYN has a SYN, and if it acknowledges, then the SYN.
abbrev pub answers : Signals → Bool
answers g = g.has_syn && (not g.has_ack || g.acks_syn)

-- The table of the states.
unfoldable pub next_state : State → Signals → State
next_state syn_sent g =
    if answers g then (if g.has_ack then established else syn_received) else syn_sent
next_state syn_received g =
    if counts g
    then if g.has_fin then close_wait else (if g.in_window then established else syn_received)
    else syn_received
next_state established g = if counts g && g.has_fin then close_wait else established
next_state fin_wait1 g =
    if counts g && g.has_fin then (if g.beyond_sent then time_wait else closing) else fin_wait1
next_state fin_wait2 g = if counts g && g.has_fin then time_wait else fin_wait2
next_state state g = state
