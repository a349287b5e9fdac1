-- ===== src/Pipes/LocalSocket/Stream.antt =====
-- Reading and writing of `LocalSocket`. A round of the loop that waits is one step; after `block` the
-- call goes on with the next round. `size` is QUEUE_SIZE.
pub mod Transfer
pub mod Received
pub mod Waits
use xp_os.Prelude.{
  ℕ, Bool, true, false, not, ◌&&◌, List, [], Option, none, some, ◌==◌, ltb, if◌then◌else◌,
}
use xp_os.Prelude.Chain.{◌>>=◌}
use xp_os.Prelude.Map.{update}
use xp_os.Common.CircularBuffer as Buffer
use xp_os.Common.CircularBuffer.{is_queue_empty, is_queue_full}
use xp_os.Tasks.WaitQueue.{add_to_queue, wake_queue, remove_from_queue}
use xp_os.Pipes.LocalSocket.{
  LocalSocket, Sockets, readable, writeable, set_socket, notify_event, Turn, returns, waits,
  wait_in_block,
}

module _ (size : ℕ) where
  -- What is read: the count, and the bytes laid in `buf`.
  unfoldable pub take_bytes : ℕ → ℕ → LocalSocket → Sockets → Option (Turn (ℕ × List ℕ))
  unfolding Buffer.read is_queue_full wake_queue
  take_bytes s count socket w =
      let (read_count, bytes, queue) = Buffer.read size count socket.queue in
      let w1 = set_socket s (record socket { queue = queue }) w in
      if read_count == 0 then some (returns (read_count, bytes) w1) else (do
        woken ← wake_queue socket.write_wait_queue w1.manager
        let w2 = record w1 { manager = woken.1 }
        some (
            returns (read_count, bytes)
              (if is_queue_full size socket.queue then notify_event s writeable w2 else w2)))

  -- A round of `read`, which is in the wait queue as `item`.
  unfoldable pub read_round : ℕ → ℕ → ℕ → Sockets → Option (Turn (ℕ × List ℕ))
  unfolding is_queue_empty wait_in_block take_bytes
  read_round s count item w = do
    socket ← w.socket s
    let left = record socket { read_wait_queue = remove_from_queue item socket.read_wait_queue }
    if socket.connected && is_queue_empty size socket.queue
        then (if socket.should_not_block then some (returns (0, []) w) else wait_in_block w)
        else if socket.connected
        then take_bytes s count left (set_socket s left w)
        else some (returns (0, []) (set_socket s left w))

  unfoldable pub read : ℕ → ℕ → Sockets → Option (Turn (ℕ × List ℕ))
  unfolding add_to_queue read_round
  read s count w = do
    socket ← w.socket s
    added ← add_to_queue socket.read_wait_queue w.manager
    read_round s count added.0
        (record (set_socket s (record socket { read_wait_queue = added.1 }) w) {
          manager = added.2;
        })

  unfoldable pub put_bytes : ℕ → ℕ → List ℕ → LocalSocket → Sockets → Option (Turn ℕ)
  unfolding Buffer.write is_queue_empty wake_queue
  put_bytes remote count buf socket w =
      let (write_count, queue) = Buffer.write size count buf socket.queue in
      let w1 = set_socket remote (record socket { queue = queue }) w in
      if write_count == 0 then some (returns write_count w1) else (do
        woken ← wake_queue socket.read_wait_queue w1.manager
        let w2 = record w1 { manager = woken.1 }
        some (
            returns write_count
              (if is_queue_empty size socket.queue then notify_event remote readable w2 else w2)))

  -- A round of `write` to the socket at the other end; the flag is the writer's own.
  unfoldable pub write_round : Bool → ℕ → ℕ → List ℕ → ℕ → Sockets → Option (Turn ℕ)
  unfolding is_queue_full wait_in_block put_bytes
  write_round should_not_block remote count buf item w = do
    socket ← w.socket remote
    let left = record socket { write_wait_queue = remove_from_queue item socket.write_wait_queue }
    if socket.connected && is_queue_full size socket.queue
        then (if should_not_block then some (returns 0 w) else wait_in_block w)
        else if socket.connected
        then put_bytes remote count buf left (set_socket remote left w)
        else some (returns 0 (set_socket remote left w))

  unfoldable pub write_to : Bool → ℕ → ℕ → List ℕ → Sockets → Option (Turn ℕ)
  unfolding add_to_queue write_round
  write_to should_not_block remote count buf w = do
    socket ← w.socket remote
    added ← add_to_queue socket.write_wait_queue w.manager
    write_round should_not_block remote count buf added.0
        (record (set_socket remote (record socket { write_wait_queue = added.1 }) w) {
          manager = added.2;
        })

  unfoldable pub write : ℕ → ℕ → List ℕ → Sockets → Option (Turn ℕ)
  unfolding write_to
  write s count buf w = do
    socket ← w.socket s
    elim socket.endpoint [
      | none ↦ some (returns 0 w)
      | some remote ↦ write_to socket.should_not_block remote count buf w
    ]
