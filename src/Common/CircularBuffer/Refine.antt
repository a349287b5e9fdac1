-- ===== src/Common/CircularBuffer/Refine.antt =====
-- The circular buffer against the queue of the bytes it holds, oldest first.
use xp_os.Prelude.{
  ℕ, ◌+◌, ◌-◌, ◌≤◌, ◌<◌, min, ◌≡◌, refl, sym, ap, ap₂, ◌∙◌, arith, length, take, drop, get_or, List,
  ◌↔◌, true, ◌++◌,
}
use xp_os.Prelude.Tabulate.{
  tabulate_ext, tabulate-add, length-tabulate, take-tabulate, drop-tabulate, take-drop-eq-tabulate,
}
use xp_os.Prelude.Modular.{wrap, mod-eq-wrap, wrap-lt}
use xp_os.Common.CircularBuffer.{
  FixedCircularBuffer, copy_out, copy_in, read_loop, write_loop, read, write, is_queue_empty,
  is_queue_full,
}
use xp_os.Common.CircularBuffer.Bounds.{
  IsValid, used, span, span-lt, move_front, move_back, read_loop_lem, write_loop_lem,
}
use xp_os.Common.CircularBuffer.Copies.{
  window, contents, copy_out-eq-window, length-copy_in, copy_in_new, copy_in_old,
}

wrap_again :
    (size a k i : ℕ)
    → a < size
    → k < size
    → k + i < size
    → wrap size (wrap size (a + k) + i) ≡ wrap size (a + (k + i))
unfolding wrap
wrap_again size a k i ha hk h = ground arith

span_move_front :
    (size f b k : ℕ)
    → f < size
    → b < size
    → k ≤ span size f b
    → span size (wrap size (f + k)) b + k ≡ span size f b
unfolding span wrap
span_move_front size f b k hf hb hk = ground arith

span_move_back :
    (size f b k : ℕ)
    → f < size
    → b < size
    → k ≤ size - 1 - span size f b
    → span size f (wrap size (b + k)) ≡ span size f b + k
unfolding span wrap
span_move_back size f b k hf hb hk = ground arith

-- The back is as far from the front as there are bytes.
wrap_front_span : (size f b : ℕ) → f < size → b < size → wrap size (f + span size f b) ≡ b
unfolding span wrap
wrap_front_span size f b hf hb = ground arith

-- An index of the window, counted from the back.
wrap_behind_back :
    (size f b i : ℕ)
    → f < size
    → b < size
    → i < span size f b
    → wrap size (b + (size - span size f b + i)) ≡ wrap size (f + i)
unfolding span wrap
wrap_behind_back size f b i hf hb h = ground arith

wrap_past_back :
    (size f b i : ℕ)
    → f < size
    → b < size
    → i < size
    → span size f b + i < size
    → wrap size (b + i) ≡ wrap size (f + (span size f b + i))
unfolding span wrap
wrap_past_back size f b i hf hb hi h = ground arith

module _ (size : ℕ) (b : FixedCircularBuffer) (v : IsValid size b) where
  open b use {queue_front, queue_back, queue}

  used-lt : used size b < size
  used-lt = span-lt size queue_front queue_back v.front_in v.back_in

  pub length-contents : length (contents size b) ≡ used size b
  length-contents =
      length-tabulate (used size b) (λ i. get_or queue (wrap size (queue_front + i)) 0)

  contents-move_front :
      (k : ℕ) → k ≤ used size b → contents size (move_front size k b) ≡ drop k (contents size b)
  unfolding move_front
  contents-move_front k h =
      tabulate_ext left (λ i. get_or queue (wrap size (wrap size (queue_front + k) + i)) 0)
        (λ i. get_or queue (wrap size (queue_front + (k + i))) 0)
        (λ i lt.
          ap (λ j. get_or queue j 0)
            (wrap_again size queue_front k i v.front_in (omega (arith, used-lt))
              (omega (arith, used-lt, whole))))
      ∙ sym (drop-tabulate k left (λ i. get_or queue (wrap size (queue_front + i)) 0))
      ∙ ap (λ n. drop k (window size queue queue_front n)) (omega (arith, whole))
    where
      left : ℕ
      left = span size (wrap size (queue_front + k)) queue_back

      whole : left + k ≡ used size b
      whole = span_move_front size queue_front queue_back k v.front_in v.back_in h

  IsValid-move_front : (k : ℕ) → k ≤ used size b → IsValid size (move_front size k b)
  unfolding move_front
  IsValid-move_front k h = ground (arith, wrap-lt size (queue_front + k), used-lt)

  read_moves :
      (count : ℕ)
      → read_loop size count 0 b
        ≡ (min count (used size b), move_front size (min count (used size b)) b)
  read_moves count = ground (arith, read_loop_lem size count 0 b v)

  copied_out :
      (k : ℕ)
      → k ≤ used size b
      → copy_out size queue queue_front (wrap size (queue_front + k)) ≡ take k (contents size b)
  copied_out k h =
      copy_out-eq-window size queue queue_front k v.storage v.front_in (omega (arith, used-lt))
      ∙ sym (take-tabulate (used size b) k (λ i. get_or queue (wrap size (queue_front + i)) 0) h)

  -- Reading `count` bytes from a valid buffer returns as many as there are, `count` at most, hands
  -- out that many of the oldest bytes in order, and leaves the rest in a valid buffer.
  pub read_refines :
      (count : ℕ)
      → let (n, out, b') = read size count b in
        (n ≡ min count (length (contents size b)))
        × (out ≡ take n (contents size b))
        × (contents size b' ≡ drop n (contents size b))
        × IsValid size b'
  unfolding read move_front
  read_refines count =
      let fits : min count (used size b) ≤ used size b = omega arith in
      rw (read_moves count, length-contents)
        (refl, copied_out _ fits, contents-move_front _ fits, IsValid-move_front _ fits)

  write_moves :
      (count : ℕ)
      → write_loop size count 0 b ≡ (
        min count (size - 1 - used size b),
        move_back size (min count (size - 1 - used size b)) b,
      )
  write_moves count = ground (arith, write_loop_lem size count 0 b v)

  module _ (buf : List ℕ) (k : ℕ) (hb : k ≤ length buf) (room : k ≤ size - 1 - used size b) where
    -- The buffer after `k` bytes were copied in and the back was moved past them.
    written : FixedCircularBuffer
    written = record b {
      queue_back = wrap size (queue_back + k);
      queue = copy_in size queue queue_back (wrap size (queue_back + k)) buf;
    }

    IsValid-written : IsValid size written
    unfolding written
    IsValid-written = ground (
      arith,
      wrap-lt size (queue_back + k),
      used-lt,
      length-copy_in size queue queue_back k buf (wrap size (queue_back + k)),
    )

    old_bytes :
        (i : ℕ)
        → i < used size b
        → get_or written.queue (wrap size (queue_front + i)) 0
          ≡ get_or queue (wrap size (queue_front + i)) 0
    unfolding written
    old_bytes i h = ground (
      arith,
      used-lt,
      wrap_behind_back size queue_front queue_back i,
      copy_in_old size queue queue_back k buf v.storage v.back_in (omega (arith, used-lt)) hb
          (size - used size b + i),
    )

    new_bytes :
        (i : ℕ)
        → i < k
        → get_or written.queue (wrap size (queue_front + (used size b + i))) 0 ≡ get_or buf i 0
    unfolding written
    new_bytes i h = ground (
      arith,
      used-lt,
      wrap_past_back size queue_front queue_back i,
      copy_in_new size queue queue_back k buf v.storage v.back_in (omega (arith, used-lt)) hb i,
    )

    contents-written : contents size written ≡ contents size b ++ take k buf
    unfolding written
    contents-written =
        ap (window size written.queue written.queue_front) longer
        ∙ tabulate-add (used size b) k (λ i. get_or written.queue (wrap size (queue_front + i)) 0)
        ∙ ap₂ ◌++◌
            (tabulate_ext (used size b) (λ i. get_or written.queue (wrap size (queue_front + i)) 0)
              (λ i. get_or queue (wrap size (queue_front + i)) 0) old_bytes)
            (tabulate_ext k
                (λ i. get_or written.queue (wrap size (queue_front + (used size b + i))) 0)
                (λ i. get_or buf (0 + i) 0)
                (λ i lt. new_bytes i lt ∙ ap (λ j. get_or buf j 0) (omega arith))
              ∙ sym (take-drop-eq-tabulate k 0 buf 0 (omega arith)))
      where
        longer : used size written ≡ used size b + k
        longer = span_move_back size queue_front queue_back k v.front_in v.back_in room

  -- Writing the first `count` bytes of a source that has them to a valid buffer takes as many as
  -- fit beside one byte that is kept free, appends exactly those in order, and leaves the buffer
  -- valid.
  pub write_refines :
      (count : ℕ) (buf : List ℕ)
      → count ≤ length buf
      → let (n, b') = write size count buf b in
        (n ≡ min count (size - 1 - length (contents size b)))
        × (contents size b' ≡ contents size b ++ take n buf)
        × IsValid size b'
  unfolding write move_back written
  write_refines count buf h =
      let room : min count (size - 1 - used size b) ≤ size - 1 - used size b = omega arith in
      let k = min count (size - 1 - used size b) in
      rw (write_moves count, length-contents)
        (refl, contents-written buf k (omega arith) room, IsValid-written buf k (omega arith) room)

  -- The two tests of the code say how many bytes a valid buffer holds: none, and all that it can.
  pub tests_read_length :
      ((is_queue_empty size b ≡ true) ↔ (length (contents size b) ≡ 0))
      × ((is_queue_full size b ≡ true) ↔ (length (contents size b) ≡ size - 1))
  unfolding is_queue_empty is_queue_full span wrap
  tests_read_length = rw length-contents (
    (λ e. ground arith, λ e. ground arith),
    (
      λ e. ground (arith, mod-eq-wrap size (queue_back + 1)),
      λ e. ground (arith, mod-eq-wrap size (queue_back + 1)),
    ),
  )
