-- ===== src/Pipes/LocalSocket/Stream/Transfer.antt =====
-- What is written to a socket, its reader gets.
use xp_os.Prelude.{
  ℕ, ◌-◌, ◌<◌, ◌≤◌, min, ◌≡◌, ◌≢◌, refl, sym, ◌∙◌, arith, Bool, true, false, List, ◌++◌, some,
  if◌then◌else◌, length, take, ne→==,
}
use native.Mathlib.Decide.{dec_lt}
use mathlib.Core.Path.{subst}
use xp_os.Prelude.All.{All}
use xp_os.Prelude.Map.{update_self}
use xp_os.Common.CircularBuffer as Buffer
use xp_os.Common.CircularBuffer.{FixedCircularBuffer, is_queue_empty, is_queue_full}
use xp_os.Common.CircularBuffer.Bounds.{IsValid, span-lt}
use xp_os.Common.CircularBuffer.Copies.{contents}
use xp_os.Common.CircularBuffer.Refine.{length-contents, write_refines, tests_read_length}
use xp_os.Tasks.State.{Manager}
use xp_os.Tasks.WaitQueue.{wake_queue, remove_from_queue}
use xp_os.Tasks.WaitQueue.Wake.{IsAwake}
use xp_os.Tasks.WaitQueue.Total.{IsKnown, wake_queue_total}
use xp_os.Pipes.LocalSocket.{
  LocalSocket, Sockets, EventType, readable, writeable, set_socket, notify_event, returns,
}
use xp_os.Pipes.LocalSocket.Stream.{take_bytes, read_round, put_bytes, write_round}

module _ (size : ℕ) where
  -- The socket once the call has left its queue of writers, or of readers.
  abbrev pub without_writer : ℕ → LocalSocket → LocalSocket
  without_writer item socket = record socket {
    write_wait_queue = remove_from_queue item socket.write_wait_queue;
  }

  abbrev pub without_reader : ℕ → LocalSocket → LocalSocket
  without_reader item socket = record socket {
    read_wait_queue = remove_from_queue item socket.read_wait_queue;
  }

  write_round-puts :
      (no_wait : Bool) (remote count : ℕ) (buf : List ℕ) (item : ℕ) (w : Sockets)
      → (socket : LocalSocket) → w.socket remote ≡ some socket
      → socket.connected ≡ true
      → is_queue_full size socket.queue ≡ false
      → write_round size no_wait remote count buf item w
        ≡ put_bytes size remote count buf
            (without_writer item socket)
            (set_socket remote (without_writer item socket) w)
  unfolding write_round
  write_round-puts no_wait remote count buf item w socket found connected room = ground arith

  pub read_round-takes :
      (s count item : ℕ) (w : Sockets) (socket : LocalSocket)
      → w.socket s ≡ some socket
      → socket.connected ≡ true
      → is_queue_empty size socket.queue ≡ false
      → read_round size s count item w
        ≡ take_bytes size s count
            (without_reader item socket)
            (set_socket s (without_reader item socket) w)
  unfolding read_round
  read_round-takes s count item w socket found connected more = ground arith

  put_bytes-wakes :
      (remote count : ℕ) (buf : List ℕ) (socket : LocalSocket) (w : Sockets) (k : ℕ) (m : Manager)
      → (Buffer.write size count buf socket.queue).0 ≢ 0
      → wake_queue socket.read_wait_queue w.manager ≡ some (k, m)
      → put_bytes size remote count buf socket w
        ≡ some (
            returns (Buffer.write size count buf socket.queue).0 (
              let w2 =
                record (set_socket remote
                  (record socket { queue = (Buffer.write size count buf socket.queue).1 })
                  w) { manager = m } in
              if is_queue_empty size socket.queue then notify_event remote readable w2 else w2))
  unfolding put_bytes
  put_bytes-wakes remote count buf socket w k m some_bytes woken =
      rw (ne→== (Buffer.write size count buf socket.queue).0 0 some_bytes, woken) refl

  pub take_bytes-wakes :
      (s count : ℕ) (socket : LocalSocket) (w : Sockets) (k : ℕ) (m : Manager)
      → (Buffer.read size count socket.queue).0 ≢ 0
      → wake_queue socket.write_wait_queue w.manager ≡ some (k, m)
      → take_bytes size s count socket w
        ≡ some (
            returns
              ((Buffer.read size count socket.queue).0, (Buffer.read size count socket.queue).1)
              (let w2 =
                  record (set_socket s
                    (record socket { queue = (Buffer.read size count socket.queue).2 })
                    w) { manager = m } in
                if is_queue_full size socket.queue then notify_event s writeable w2 else w2))
  unfolding take_bytes
  take_bytes-wakes s count socket w k m some_bytes woken =
      rw (ne→== (Buffer.read size count socket.queue).0 0 some_bytes, woken) refl

  not_full :
      (b : FixedCircularBuffer)
      → IsValid size b
      → is_queue_full size b ≡ false
      → length (contents size b) < size - 1
  not_full b v room =
      let below : length (contents size b) < size =
        rw (length-contents size b v)
          (span-lt size b.queue_front b.queue_back v.front_in v.back_in) in
      let at_end_full = (tests_read_length size b v).1.1 in
      elim (dec_lt (length (contents size b)) (size - 1)) [
        | yes h ↦ h
        | no h ↦ cc (room, at_end_full (omega (arith, h, below)))
      ]

  pub not_empty :
      (b : FixedCircularBuffer)
      → IsValid size b
      → is_queue_empty size b ≡ false
      → 0 < length (contents size b)
  not_empty b v more =
      let none_then_empty = (tests_read_length size b v).0.1 in
      elim (dec_lt 0 (length (contents size b))) [
        | yes h ↦ h
        | no h ↦ cc (more, none_then_empty (omega (arith, h)))
      ]

  -- What a write of `n` bytes leaves: they follow what the socket held, and its readers are awake.
  pub record Written (remote : ℕ) (buf : List ℕ) (socket : LocalSocket) (n : ℕ) (after : Sockets)
      : Type 0 where
    pub target : LocalSocket
    pub found : after.socket remote ≡ some target
    pub bytes : contents size target.queue ≡ contents size socket.queue ++ take n buf
    pub valid : IsValid size target.queue
    pub connected : target.connected ≡ true
    pub writers : target.write_wait_queue ≡ socket.write_wait_queue
    pub awake : All (λ entry. IsAwake after.manager entry.1) socket.read_wait_queue.queue

  pub notify-socket :
      (b : Bool) (s t : ℕ) (event : EventType) (w : Sockets)
      → (if b then notify_event s event w else w).socket t ≡ w.socket t
  notify-socket true s t event w = refl
  notify-socket false s t event w = refl

  pub notify-manager :
      (b : Bool) (s : ℕ) (event : EventType) (w : Sockets)
      → (if b then notify_event s event w else w).manager ≡ w.manager
  notify-manager true s event w = refl
  notify-manager false s event w = refl

  put_bytes-Written :
      (remote count : ℕ) (buf : List ℕ) (socket : LocalSocket) (w : Sockets)
      → socket.connected ≡ true
      → is_queue_full size socket.queue ≡ false
      → IsValid size socket.queue
      → count ≤ length buf
      → 0 < count
      → All (λ entry. IsKnown w.manager entry.1) socket.read_wait_queue.queue
      → (n : ℕ) × (after : Sockets) × (put_bytes size remote count buf socket w
          ≡ some (returns n after))
        × (0 < n)
        × (n ≡ min count (size - 1 - length (contents size socket.queue)))
        × Written remote buf socket n after
  put_bytes-Written remote count buf socket w connected room valid enough some_count known =
      let written = write_refines size socket.queue valid count buf enough in
      let n : ℕ = (Buffer.write size count buf socket.queue).0 in
      let target : LocalSocket = record socket {
        queue = (Buffer.write size count buf socket.queue).1;
      } in
      let fits = not_full socket.queue valid room in
      let more : 0 < n = omega (arith, written.0, fits, some_count) in
      let (m, woken, awake) = wake_queue_total socket.read_wait_queue w.manager known in
      let w2 : Sockets = record (set_socket remote target w) { manager = m } in
      let empty : Bool = is_queue_empty size socket.queue in
      let after : Sockets = if empty then notify_event remote readable w2 else w2 in
      (
        n,
        after,
        put_bytes-wakes remote count buf socket w (length socket.read_wait_queue.queue) m
            (λ e. absurd (omega (arith, e, more))) woken,
        more,
        written.0,
        record {
          target = target;
          found =
              notify-socket empty remote remote readable w2 ∙ update_self w.socket remote target;
          bytes = written.1;
          valid = written.2;
          connected = connected;
          writers = refl;
          awake =
              subst (λ x. All (λ entry. IsAwake x entry.1) socket.read_wait_queue.queue)
                (sym (notify-manager empty remote readable w2)) awake;
        },
      )

  -- A write to a connected socket that is not full, with a byte to write, returns how many it wrote:
  -- at least one, and as many as there is room for. They follow the bytes that the socket held. Each
  -- task that waits to read is awake, if the task manager knows them all.
  pub write_round-Written :
      (no_wait : Bool) (remote count : ℕ) (buf : List ℕ) (item : ℕ) (w : Sockets)
      → (socket : LocalSocket) → w.socket remote ≡ some socket
      → socket.connected ≡ true
      → is_queue_full size socket.queue ≡ false
      → IsValid size socket.queue
      → count ≤ length buf
      → 0 < count
      → All (λ entry. IsKnown w.manager entry.1) socket.read_wait_queue.queue
      → (n : ℕ) × (after : Sockets) × (write_round size no_wait remote count buf item w
          ≡ some (returns n after))
        × (0 < n)
        × (n ≡ min count (size - 1 - length (contents size socket.queue)))
        × Written remote buf (without_writer item socket) n after
  write_round-Written no_wait remote count buf item w socket found connected room valid enough
        some_count known =
      let (n, after, done, more, counted, result) =
        put_bytes-Written remote count buf (without_writer item socket)
          (set_socket remote (without_writer item socket) w) connected room valid enough some_count
          known in
      (
        n,
        after,
        write_round-puts no_wait remote count buf item w socket found connected room ∙ done,
        more,
        counted,
        result,
      )
