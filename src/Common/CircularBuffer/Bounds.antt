-- ===== src/Common/CircularBuffer/Bounds.antt =====
-- The representation invariant of the circular buffer, and how far its loops move the indices.
use xp_os.Prelude.{
  ℕ, zero, suc, ◌+◌, ◌-◌, ◌%◌, ◌<◌, min, ◌≡◌, ◌≢◌, arith, ◌==◌, leb, if◌then◌else◌, length,
  Bool-cases, inl, inr,
}
use xp_os.Common.CircularBuffer.{
  FixedCircularBuffer, is_queue_empty, is_queue_full, read_loop, write_loop,
}
use xp_os.Prelude.Modular.{wrap, mod-eq-wrap}

pub record IsValid (size : ℕ) (b : FixedCircularBuffer) : Type 0 where
  pub storage : length b.queue ≡ size
  pub front_in : b.queue_front < size
  pub back_in : b.queue_back < size

-- How many bytes lie between two indices, going round at `size`.
unfoldable pub span : ℕ → ℕ → ℕ → ℕ
span size front back = if leb front back then back - front else size + back - front

-- How many bytes the buffer holds.
abbrev pub used : ℕ → FixedCircularBuffer → ℕ
used size b = span size b.queue_front b.queue_back

pub span-lt : (size f b : ℕ) → f < size → b < size → span size f b < size
unfolding span
span-lt size f b hf hb = ground arith

-- One step of the front, and one of the back.
span_front_step :
    (size f b : ℕ)
    → f < size
    → b < size
    → f ≢ b
    → span size f b ≡ suc (span size ((f + 1) % size) b)
unfolding span wrap
span_front_step size f b hf hb ne = ground (arith, mod-eq-wrap size (f + 1))

span_back_step :
    (size f b : ℕ)
    → f < size
    → b < size
    → (b + 1) % size ≢ f
    → span size f ((b + 1) % size) ≡ suc (span size f b)
unfolding span wrap
span_back_step size f b hf hb ne = ground (arith, mod-eq-wrap size (b + 1))

span_full : (size f b : ℕ) → f < size → b < size → (b + 1) % size ≡ f → span size f b ≡ size - 1
unfolding span wrap
span_full size f b hf hb e = ground (arith, mod-eq-wrap size (b + 1))

span_self : (size f : ℕ) → span size f f ≡ 0
unfolding span
span_self size f = ground arith

wrap_step :
    (size f k : ℕ) → f < size → k < size → wrap size ((f + 1) % size + k) ≡ wrap size (f + suc k)
unfolding wrap
wrap_step size f k hf hk = ground (arith, mod-eq-wrap size (f + 1))

wrap_zero : (size f : ℕ) → f < size → wrap size (f + 0) ≡ f
unfolding wrap
wrap_zero size f h = ground arith

module _ (size : ℕ) where
  -- The front moves by `k`, and the bytes stay.
  unfoldable pub move_front : ℕ → FixedCircularBuffer → FixedCircularBuffer
  move_front k b = record b { queue_front = wrap size (b.queue_front + k) }

  unfoldable pub move_back : ℕ → FixedCircularBuffer → FixedCircularBuffer
  move_back k b = record b { queue_back = wrap size (b.queue_back + k) }

  pub read_loop_lem :
      (count rc : ℕ) (b : FixedCircularBuffer)
      → IsValid size b
      → read_loop size count rc b
        ≡ (rc + min count (used size b), move_front (min count (used size b)) b)
  unfolding read_loop is_queue_empty move_front
  read_loop_lem zero rc b v = ground (arith, wrap_zero size b.queue_front)
  read_loop_lem (suc count) rc b v = elim (Bool-cases (b.queue_front == b.queue_back)) [
    | inl e ↦ ground (arith, wrap_zero size b.queue_front, span_self size b.queue_front)
    | inr ne ↦ ground (
      arith,
      read_loop_lem count (rc + 1) (record b { queue_front = (b.queue_front + 1) % size }),
      span_front_step size b.queue_front b.queue_back,
      span-lt size b.queue_front b.queue_back,
      wrap_step size b.queue_front
          (min count (span size ((b.queue_front + 1) % size) b.queue_back)),
    )
  ]

  pub write_loop_lem :
      (count wc : ℕ) (b : FixedCircularBuffer)
      → IsValid size b
      → write_loop size count wc b ≡ (
        wc + min count (size - 1 - used size b),
        move_back (min count (size - 1 - used size b)) b,
      )
  unfolding write_loop is_queue_full move_back
  write_loop_lem zero wc b v = ground (arith, wrap_zero size b.queue_back)
  write_loop_lem (suc count) wc b v =
      elim (Bool-cases ((b.queue_back + 1) % size == b.queue_front)) [
        | inl e ↦
            ground (arith, wrap_zero size b.queue_back, span_full size b.queue_front b.queue_back)
        | inr ne ↦ ground (
          arith,
          write_loop_lem count (wc + 1) (record b { queue_back = (b.queue_back + 1) % size }),
          span_back_step size b.queue_front b.queue_back,
          span-lt size b.queue_front ((b.queue_back + 1) % size),
          wrap_step size b.queue_back
              (min count (size - 1 - span size b.queue_front ((b.queue_back + 1) % size))),
        )
      ]
