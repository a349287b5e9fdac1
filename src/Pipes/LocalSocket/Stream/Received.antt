-- ===== src/Pipes/LocalSocket/Stream/Received.antt =====
-- What a reader gets of what was written.
use xp_os.Prelude.{
  ℕ, ◌<◌, ◌≤◌, min, ◌≡◌, ap, sym, ◌∙◌, arith, Bool, true, false, List, [], ◌++◌, some,
  if◌then◌else◌, length, take, drop, length-append, length-take, Bool-cases, inl, inr,
}
use mathlib.Core.Path.{subst}
use xp_os.Prelude.All.{All}
use xp_os.Prelude.Map.{update_self}
use xp_os.Common.CircularBuffer as Buffer
use xp_os.Common.CircularBuffer.{is_queue_empty, is_queue_full}
use xp_os.Common.CircularBuffer.Bounds.{IsValid}
use xp_os.Common.CircularBuffer.Copies.{contents}
use xp_os.Common.CircularBuffer.Refine.{read_refines, tests_read_length}
use xp_os.Tasks.WaitQueue.{remove_from_queue}
use xp_os.Tasks.WaitQueue.Wake.{IsAwake}
use xp_os.Tasks.WaitQueue.Total.{IsKnown, wake_queue_total}
use xp_os.Pipes.LocalSocket.{LocalSocket, Sockets, writeable, set_socket, notify_event, returns}
use xp_os.Pipes.LocalSocket.Stream.{take_bytes, read_round, write_round}
use xp_os.Pipes.LocalSocket.Stream.Transfer.{
  without_reader, read_round-takes, take_bytes-wakes, not_empty, notify-socket, notify-manager,
  write_round-Written,
}

module _ (size : ℕ) where
  -- What a read leaves: the bytes after those it took, and its writers awake.
  pub record Received (s : ℕ) (socket : LocalSocket) (n : ℕ) (bytes : List ℕ) (after : Sockets)
      : Type 0 where
    pub taken : bytes ≡ take n (contents size socket.queue)
    pub target : LocalSocket
    pub found : after.socket s ≡ some target
    pub left : contents size target.queue ≡ drop n (contents size socket.queue)
    pub valid : IsValid size target.queue
    pub awake : All (λ entry. IsAwake after.manager entry.1) socket.write_wait_queue.queue

  take_bytes-Received :
      (s count : ℕ) (socket : LocalSocket) (w : Sockets)
      → is_queue_empty size socket.queue ≡ false
      → IsValid size socket.queue
      → 0 < count
      → All (λ entry. IsKnown w.manager entry.1) socket.write_wait_queue.queue
      → (n : ℕ) × (bytes : List ℕ) × (after : Sockets) × (take_bytes size s count socket w
          ≡ some (returns (n, bytes) after))
        × (n ≡ min count (length (contents size socket.queue)))
        × Received s socket n bytes after
  take_bytes-Received s count socket w more valid some_count known =
      let result = read_refines size socket.queue valid count in
      let n : ℕ = (Buffer.read size count socket.queue).0 in
      let held = not_empty size socket.queue valid more in
      let target : LocalSocket = record socket {
        queue = (Buffer.read size count socket.queue).2;
      } in
      let (m, woken, awake) = wake_queue_total socket.write_wait_queue w.manager known in
      let w2 : Sockets = record (set_socket s target w) { manager = m } in
      let full : Bool = is_queue_full size socket.queue in
      let after : Sockets = if full then notify_event s writeable w2 else w2 in
      (
        n,
        (Buffer.read size count socket.queue).1,
        after,
        take_bytes-wakes size s count socket w (length socket.write_wait_queue.queue) m
            (λ e. absurd (omega (arith, e, result.0, held, some_count))) woken,
        result.0,
        record {
          taken = result.1;
          target = target;
          found = notify-socket size full s s writeable w2 ∙ update_self w.socket s target;
          left = result.2;
          valid = result.3;
          awake =
              subst (λ x. All (λ entry. IsAwake x entry.1) socket.write_wait_queue.queue)
                (sym (notify-manager size full s writeable w2)) awake;
        },
      )

  -- A read of a connected socket that holds a byte, for at least one byte, returns the oldest bytes
  -- that it holds, as many as asked for or all; the others stay. Each task that waits to write is
  -- awake, if the task manager knows them all.
  pub read_round-Received :
      (s count item : ℕ) (w : Sockets) (socket : LocalSocket)
      → w.socket s ≡ some socket
      → socket.connected ≡ true
      → is_queue_empty size socket.queue ≡ false
      → IsValid size socket.queue
      → 0 < count
      → All (λ entry. IsKnown w.manager entry.1) socket.write_wait_queue.queue
      → (n : ℕ) × (bytes : List ℕ) × (after : Sockets) × (read_round size s count item w
          ≡ some (returns (n, bytes) after))
        × (n ≡ min count (length (contents size socket.queue)))
        × Received s (without_reader size item socket) n bytes after
  read_round-Received s count item w socket found connected more valid some_count known =
      let (n, bytes, after, done, counted, result) =
        take_bytes-Received s count (without_reader size item socket)
          (set_socket s (without_reader size item socket) w) more valid some_count known in
      (
        n,
        bytes,
        after,
        read_round-takes size s count item w socket found connected more ∙ done,
        counted,
        result,
      )

  -- A socket is connected and not full, the task manager knows the tasks that wait to read from it,
  -- and no other task waits to write to it. Then a write with a byte to write and a read for at least
  -- one byte after it both return: the write has awoken every reader, it wrote `n` bytes, at least
  -- one, and the read gets the oldest bytes of what the socket held, followed by these `n`.
  pub write_then_read :
      (no_wait : Bool) (s count wanted : ℕ) (buf : List ℕ) (item reader : ℕ) (w : Sockets)
      → (socket : LocalSocket) → w.socket s ≡ some socket
      → socket.connected ≡ true
      → is_queue_full size socket.queue ≡ false
      → IsValid size socket.queue
      → count ≤ length buf
      → 0 < count
      → 0 < wanted
      → All (λ entry. IsKnown w.manager entry.1) socket.read_wait_queue.queue
      → (remove_from_queue item socket.write_wait_queue).queue ≡ []
      → (n : ℕ) × (mid : Sockets) × (k : ℕ) × (bytes : List ℕ) × (after : Sockets) × (write_round
            size no_wait s count buf item w
          ≡ some (returns n mid))
        × (0 < n)
        × All (λ entry. IsAwake mid.manager entry.1) socket.read_wait_queue.queue
        × (read_round size s wanted reader mid ≡ some (returns (k, bytes) after))
        × (k ≡ min wanted (length (contents size socket.queue ++ take n buf)))
        × (bytes ≡ take k (contents size socket.queue ++ take n buf))
  write_then_read no_wait s count wanted buf item reader w socket found connected room valid enough
        some_count some_wanted known alone =
      let (n, mid, wrote, more, counted, written) =
        write_round-Written size no_wait s count buf item w socket found connected room valid enough
          some_count known in
      let target : LocalSocket = written.target in
      let holds : 0 < length (contents size target.queue) = omega (
        arith,
        more,
        ap length written.bytes,
        counted,
        length-append (contents size socket.queue) (take n buf),
        length-take n buf,
        enough,
      ) in
      let not_empty_now : is_queue_empty size target.queue ≡ false =
        elim (Bool-cases (is_queue_empty size target.queue)) [
          | inl e ↦
              absurd
                (omega (arith, holds, (tests_read_length size target.queue written.valid).0.0 e))
          | inr e ↦ e
        ] in
      let nobody : target.write_wait_queue.queue ≡ [] = ap (λ q. q.queue) written.writers ∙ alone in
      let (k, bytes, after, got, number, received) =
        read_round-Received s wanted reader mid target written.found written.connected not_empty_now
          written.valid some_wanted
          (subst (All (λ entry. IsKnown mid.manager entry.1)) (sym nobody) tt) in
      (
        n,
        mid,
        k,
        bytes,
        after,
        wrote,
        more,
        written.awake,
        got,
        number ∙ ap (λ (t : List ℕ). min wanted (length t)) written.bytes,
        received.taken ∙ ap (take k) written.bytes,
      )
