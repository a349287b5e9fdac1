-- ===== src/Pipes/LocalSocket/Stream/Waits.antt =====
-- Calls that wait, or should not, and the socket at the other end.
use xp_os.Prelude.{
  ℕ, ◌+◌, ◌≡◌, ◌≢◌, refl, ◌∙◌, arith, true, false, List, [], ◌∷◌, ◌++◌, none, some, ne→==, eq→==,
}
use xp_os.Prelude.Map.{update, update_self}
use xp_os.Common.CircularBuffer.{is_queue_empty}
use xp_os.Tasks.State.{Task, Manager}
use xp_os.Tasks.Manager.{get_current_task, about_to_block, block}
use xp_os.Tasks.WaitQueue.{WaitQueue, add_to_queue}
use xp_os.Tasks.WaitQueue.Wake.{IsAwake}
use xp_os.Pipes.LocalSocket.{
  LocalSocket, Sockets, set_socket, delete_socket, erase_bound, close, returns, waits,
  wait_in_block,
}
use xp_os.Pipes.LocalSocket.Stream.{read_round, read, write, write_to}

module _ (size : ℕ) where
  block-awake :
      (m : Manager) → m.current_task ≢ 0 → IsAwake m m.current_task → block m ≡ some (false, m)
  unfolding block get_current_task
  block-awake m runs awake = rw (ne→== m.current_task 0 runs) (rw awake.found (rw awake.flag refl))

  -- A task that was woken finds nothing to read. Then its call of `block` returns at once and changes
  -- nothing, so the call goes round its loop without waiting.
  pub woken_reader_spins :
      (s count item : ℕ) (w : Sockets) (socket : LocalSocket)
      → w.socket s ≡ some socket
      → socket.connected ≡ true
      → is_queue_empty size socket.queue ≡ true
      → socket.should_not_block ≡ false
      → w.manager.current_task ≢ 0
      → IsAwake w.manager w.manager.current_task
      → read_round size s count item w ≡ some (waits false w)
  unfolding read_round wait_in_block
  woken_reader_spins s count item w socket found connected empty blocking runs awake =
      ground (arith, block-awake w.manager runs awake)

  -- The entry that `add_to_queue` makes for the task that runs.
  abbrev pub entered : WaitQueue → ℕ → WaitQueue
  entered q task = record {
    next_item = q.next_item + 1;
    queue = q.queue ++ ((q.next_item, task) ∷ []);
  }

  abbrev pub marked : Manager → Task → Manager
  marked m task = record m {
    tasks = update m.tasks m.current_task (record task { block_flag = true });
  }

  add_to_queue-current :
      (q : WaitQueue) (m : Manager) (task : Task)
      → get_current_task m ≡ some task
      → add_to_queue q m ≡ some (q.next_item, entered q m.current_task, marked m task)
  unfolding add_to_queue about_to_block
  add_to_queue-current q m task current = rw current refl

  read_round-refuses :
      (s count item : ℕ) (w : Sockets) (socket : LocalSocket)
      → w.socket s ≡ some socket
      → socket.connected ≡ true
      → is_queue_empty size socket.queue ≡ true
      → socket.should_not_block ≡ true
      → read_round size s count item w ≡ some (returns (0, []) w)
  unfolding read_round
  read_round-refuses s count item w socket found connected empty no_wait = ground arith

  read-enters :
      (s count : ℕ) (w : Sockets) (socket : LocalSocket) (item : ℕ) (q : WaitQueue) (m : Manager)
      → w.socket s ≡ some socket
      → add_to_queue socket.read_wait_queue w.manager ≡ some (item, q, m)
      → read size s count w
        ≡ read_round size s count item
            (record (set_socket s (record socket { read_wait_queue = q }) w) { manager = m })
  unfolding read
  read-enters s count w socket item q m found added = ground arith

  -- A socket that does not block is connected and empty. Then a read by a task returns no bytes, but
  -- the task stays in the queue of those that wait to read, and stays marked as one that is about to
  -- block.
  pub read_leaves_entry :
      (s count : ℕ) (w : Sockets) (socket : LocalSocket) (task : Task)
      → w.socket s ≡ some socket
      → socket.connected ≡ true
      → is_queue_empty size socket.queue ≡ true
      → socket.should_not_block ≡ true
      → get_current_task w.manager ≡ some task
      → read size s count w
        ≡ some (
            returns
              (0, [])
              (record (set_socket s
                (record socket {
                  read_wait_queue = entered socket.read_wait_queue w.manager.current_task;
                })
                w) { manager = marked w.manager task }))
  read_leaves_entry s count w socket task found connected empty no_wait current =
      let entry : LocalSocket = record socket {
        read_wait_queue = entered socket.read_wait_queue w.manager.current_task;
      } in
      read-enters s count w socket socket.read_wait_queue.next_item entry.read_wait_queue
        (marked w.manager task) found
        (add_to_queue-current socket.read_wait_queue w.manager task current)
      ∙ read_round-refuses s count socket.read_wait_queue.next_item
          (record (set_socket s entry w) { manager = marked w.manager task }) entry
          (update_self w.socket s entry) connected empty no_wait

  write_to_nothing :
      (s t count : ℕ) (buf : List ℕ) (w : Sockets) (socket : LocalSocket)
      → w.socket s ≡ some socket
      → socket.endpoint ≡ some t
      → w.socket t ≡ none
      → write size s count buf w ≡ none
  unfolding write write_to
  write_to_nothing s t count buf w socket found linked gone = ground arith

  -- Two sockets are the ends of a connection, and one is closed. Then a write to the other follows
  -- the pointer to the socket that is gone.
  pub write-close :
      (s t count : ℕ) (buf : List ℕ) (w : Sockets) (socket peer : LocalSocket)
      → s ≢ t
      → w.socket s ≡ some socket
      → socket.endpoint ≡ some t
      → w.socket t ≡ some peer
      → (after : Sockets) × (close t w ≡ some after) × (write size s count buf after ≡ none)
  unfolding close
  write-close s t count buf w socket peer other found linked there =
      let after : Sockets =
        delete_socket t (record w { bind_map = erase_bound w.bind_map peer.identifier }) in
      let kept : after.socket s ≡ some socket = rw (ne→== s t other) found in
      let gone : after.socket t ≡ none = rw (eq→== t t refl) refl in
      (after, rw there refl, write_to_nothing s t count buf after socket kept linked gone)
