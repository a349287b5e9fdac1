-- ===== src/Common/CircularBuffer.antt =====
-- `FixedCircularBuffer<Size>` of Kernel/Common/CircularBuffer.h.
--
-- `m_queueFront` and `m_queueBack` are `int`s that stay in [0, Size), so their additions do not
-- overflow for a `Size` below 2^31; they are natural numbers here. The array starts uninitialised:
-- it is a list of any bytes. `Size` is the section's parameter.
pub mod Bounds
pub mod Copies
pub mod Refine
mod Tests
use xp_os.Prelude.{
  ℕ, zero, suc, ◌+◌, ◌-◌, ◌%◌, Bool, List, [], ◌++◌, ◌==◌, leb, if◌then◌else◌, take, drop,
}
use xp_os.Memory.Copy.{memcpy}

pub record FixedCircularBuffer : Type 0 where
  pub queue_front : ℕ
  pub queue_back : ℕ
  pub queue : List ℕ

module _ (size : ℕ) where
  unfoldable pub is_queue_empty : FixedCircularBuffer → Bool
  is_queue_empty b = b.queue_front == b.queue_back

  unfoldable pub is_queue_full : FixedCircularBuffer → Bool
  is_queue_full b = (b.queue_back + 1) % size == b.queue_front

  -- The loop of `read`: `while (!is_queue_empty() && count--)`, on the count that is left. It
  -- returns `readCount` and the buffer with its front moved.
  unfoldable pub read_loop : ℕ → ℕ → FixedCircularBuffer → ℕ × FixedCircularBuffer
  read_loop zero read_count b = (read_count, b)
  read_loop (suc count) read_count b =
      let rest =
        read_loop count (read_count + 1) (record b { queue_front = (b.queue_front + 1) % size }) in
      if is_queue_empty b then (read_count, b) else rest

  -- The bytes that `read` copies out, as the two `memcpy` calls lay them in the caller's memory.
  unfoldable pub copy_out : List ℕ → ℕ → ℕ → List ℕ
  copy_out queue start end =
      if leb start end
      then take (end - start) (drop start queue)
      else take (size - start) (drop start queue) ++ take end queue

  -- The count returned, the bytes written to `buf`, and the buffer after the call.
  unfoldable pub read : ℕ → FixedCircularBuffer → ℕ × List ℕ × FixedCircularBuffer
  read count b =
      let (read_count, b') = read_loop count 0 b in
      (read_count, copy_out b.queue b.queue_front b'.queue_front, b')

  unfoldable pub write_loop : ℕ → ℕ → FixedCircularBuffer → ℕ × FixedCircularBuffer
  write_loop zero write_count b = (write_count, b)
  write_loop (suc count) write_count b =
      let rest =
        write_loop count (write_count + 1) (record b { queue_back = (b.queue_back + 1) % size }) in
      if is_queue_full b then (write_count, b) else rest

  -- The array after the `memcpy` calls of `write`, from the caller's bytes.
  unfoldable pub copy_in : List ℕ → ℕ → ℕ → List ℕ → List ℕ
  copy_in queue start end buf =
      if leb start end
      then memcpy queue start buf (end - start)
      else memcpy (memcpy queue start buf (size - start)) 0 (drop (size - start) buf) end

  unfoldable pub write : ℕ → List ℕ → FixedCircularBuffer → ℕ × FixedCircularBuffer
  write count buf b =
      let (write_count, b') = write_loop count 0 b in
      (write_count, record b' { queue = copy_in b.queue b.queue_back b'.queue_back buf })
