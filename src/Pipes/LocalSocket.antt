-- ===== src/Pipes/LocalSocket.antt =====
-- `LocalSocket` of Kernel/Pipes/LocalSocket.h and LocalSocket.cpp. A socket is named by its address.
-- A call runs up to its call of `block` and goes on in a second function once that has returned; what
-- it does while it holds the socket's mutex is one step. `none` is a step that
-- follows a pointer to no socket.
pub mod Stream
pub mod Accepts
pub mod Missed
mod Tests
use xp_os.Prelude.{
  ℕ, ◌+◌, ◌%◌, Bool, true, false, not, ◌&&◌, ◌||◌, List, [], ◌∷◌, ◌++◌, Option, none, some, ◌==◌,
  ltb, if◌then◌else◌, length,
}
use xp_os.Prelude.Chain.{◌>>=◌}
use xp_os.Prelude.Map.{update}
use xp_os.Common.CircularBuffer.{FixedCircularBuffer}
use xp_os.Common.Strings.{same_name}
use xp_os.Tasks.State.{Manager}
use xp_os.Tasks.Manager.{about_to_block, block, unblock}
use xp_os.Tasks.WaitQueue.{WaitQueue}

pub record LocalSocket : Type 0 where
  pub identifier : List ℕ
  pub queue : FixedCircularBuffer
  pub endpoint : Option ℕ
  pub binded : Bool
  pub connected : Bool
  pub listening : Bool
  pub should_not_block : Bool
  pub tid : ℕ
  pub read_wait_queue : WaitQueue
  pub write_wait_queue : WaitQueue
  pub connection_queue : List ℕ

pub data EventType : Type 0 where
  readable writeable sock_request_conn : EventType

-- The sockets, the names that they are bound to, the tasks, and the events that listeners were told.
pub record Sockets : Type 0 where
  pub socket : ℕ → Option LocalSocket
  pub bind_map : List (List ℕ × ℕ)
  pub manager : Manager
  pub events : List (ℕ × EventType)

unfoldable pub find_bound : List (List ℕ × ℕ) → List ℕ → Option ℕ
find_bound [] id = none
find_bound (entry ∷ entries) id =
    if same_name entry.0 id then some entry.1 else find_bound entries id

unfoldable pub erase_bound : List (List ℕ × ℕ) → List ℕ → List (List ℕ × ℕ)
erase_bound [] id = []
erase_bound (entry ∷ entries) id =
    let rest = entry ∷ erase_bound entries id in if same_name entry.0 id then entries else rest

abbrev pub set_socket : ℕ → LocalSocket → Sockets → Sockets
set_socket s socket w = record w { socket = update w.socket s socket }

-- The memory of a destroyed socket is not one any more.
abbrev pub delete_socket : ℕ → Sockets → Sockets
delete_socket s w = record w { socket = λ t. if t == s then none else w.socket t }

abbrev pub notify_event : ℕ → EventType → Sockets → Sockets
notify_event s event w = record w { events = w.events ++ ((s, event) ∷ []) }

-- `open`, at the address of the new object. An identifier and a byte array start with what memory
-- holds there.
unfoldable pub open_socket : ℕ → List ℕ → List ℕ → ℕ → Sockets → Sockets
open_socket s identifier storage flags w =
    set_socket s
      (record {
        identifier = identifier;
        queue = record { queue_front = 0; queue_back = 0; queue = storage };
        endpoint = none;
        binded = false;
        connected = false;
        listening = false;
        should_not_block = flags % 2 == 1;
        tid = 0;
        read_wait_queue = record { next_item = 0; queue = [] };
        write_wait_queue = record { next_item = 0; queue = [] };
        connection_queue = [];
      })
      w

unfoldable pub close : ℕ → Sockets → Option Sockets
unfolding erase_bound
close s w = do
  socket ← w.socket s
  some (delete_socket s (record w { bind_map = erase_bound w.bind_map socket.identifier }))

-- `insert`, in `bind`, where `find` gave nothing.
unfoldable pub bind_free : ℕ → List ℕ → LocalSocket → Sockets → Option ℕ → Bool × Sockets
bind_free s id socket w (some _) = (false, w)
bind_free s id socket w none = (
  true,
  set_socket s (record socket { identifier = id; binded = true })
      (record w { bind_map = w.bind_map ++ ((id, s) ∷ []) }),
)

unfoldable pub bind : ℕ → List ℕ → Sockets → Option (Bool × Sockets)
unfolding find_bound bind_free
bind s id w = do
  socket ← w.socket s
  some (if socket.binded then (false, w) else bind_free s id socket w (find_bound w.bind_map id))

unfoldable pub listen : ℕ → Sockets → Option (Bool × Sockets)
listen s w = do
  socket ← w.socket s
  some (
      if socket.binded
      then (true, set_socket s (record socket { listening = true }) w)
      else (false, w))

-- A call that has returned with a result, or that waits in `block`; the flag is whether that takes
-- the task off its ready list.
pub data Turn {ℓ} (A : Type ℓ) : Type ℓ where
  returns : A → Sockets → Turn A
  waits : Bool → Sockets → Turn A

unfoldable pub wait_in_block {ℓ} : {A : Type ℓ} → Sockets → Option (Turn A)
unfolding block
wait_in_block w = do
  blocked ← block w.manager
  some (waits blocked.0 (record w { manager = blocked.1 }))

-- `accept` from where it takes the first request, after `block` if it waited there.
unfoldable pub accept_from : ℕ → ℕ → LocalSocket → List ℕ → Sockets → Option (Bool × Sockets)
unfolding unblock
accept_from s new socket [] w = some (false, w)
accept_from s new socket (remote ∷ requests) w =
    let w1 = set_socket s (record socket { connection_queue = requests }) w in
    do
      new_socket ← w1.socket new
      let w2 = set_socket new (record new_socket { endpoint = some remote }) w1
      remote_socket ← w2.socket remote
      let w3 = set_socket remote (record remote_socket { endpoint = some new }) w2
      accepted ← w3.socket new
      let w4 = set_socket new (record accepted { connected = true }) w3
      peer ← w4.socket remote
      m ← unblock peer.tid w4.manager
      some (true, record w4 { manager = m })

unfoldable pub accept_end : ℕ → ℕ → Sockets → Option (Bool × Sockets)
unfolding accept_from
accept_end s new w = do socket ← w.socket s; accept_from s new socket socket.connection_queue w

unfoldable pub accept_wait : ℕ → LocalSocket → Sockets → Option (Turn Bool)
unfolding about_to_block wait_in_block
accept_wait s socket w = do
  m ← about_to_block w.manager
  wait_in_block
      (record (set_socket s (record socket { tid = w.manager.current_task }) w) { manager = m })

unfoldable pub accept : ℕ → ℕ → Sockets → Option (Turn Bool)
unfolding accept_wait accept_end
accept s new w = do
  socket ← w.socket s
  if not socket.listening
      then some (returns false w)
      else if length socket.connection_queue == 0 && not socket.should_not_block
      then accept_wait s socket w
      else (do accepted ← accept_end s new w; some (returns accepted.0 accepted.1))

-- `connect` under the lock of the socket that listens.
unfoldable pub connect_request : ℕ → ℕ → LocalSocket → Sockets → Sockets
connect_request s remote listener w = notify_event remote sock_request_conn (
    set_socket remote (record listener { connection_queue = listener.connection_queue ++ (s ∷ []) })
      w)

-- The task that last waited to accept is woken, if there was one.
unfoldable pub wake_listener : ℕ → ℕ → Sockets → Manager → Option Manager
unfolding unblock
wake_listener remote_tid remote w m =
    if remote_tid == 0 then some m else (do listener ← w.socket remote; unblock listener.tid m)

-- What follows once the lock is released. `connect` returns true after `block`.
unfoldable pub connect_wait : ℕ → ℕ → ℕ → Sockets → Option (Turn Bool)
unfolding about_to_block wake_listener wait_in_block
connect_wait s remote remote_tid w = do
  socket ← w.socket s
  let w1 = set_socket s (record socket { connected = true }) w
  m ← about_to_block w1.manager
  m' ← wake_listener remote_tid remote w1 m
  wait_in_block (record w1 { manager = m' })

unfoldable pub connect : ℕ → List ℕ → Sockets → Option (Turn Bool)
unfolding find_bound connect_request connect_wait
connect s id w = do
  socket ← w.socket s
  let w1 = set_socket s (record socket { tid = w.manager.current_task }) w
  elim (find_bound w.bind_map id) [
    | none ↦ some (returns false w1)
    | some remote ↦ (do
      listener ← w1.socket remote
      if listener.listening
          then connect_wait s remote listener.tid (connect_request s remote listener w1)
          else some (returns false w1))
  ]
