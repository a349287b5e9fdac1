-- ===== src/Common/CircularBuffer/Copies.antt =====
-- What the `memcpy` calls of the circular buffer read and write, byte by byte.
use xp_os.Prelude.{
  ℕ, zero, ◌+◌, ◌-◌, ◌≤◌, ◌<◌, ◌≡◌, sym, ap, ap₂, ◌∙◌, arith, ltb, leb, ◌&&◌, length-drop,
  if◌then◌else◌, length, take, drop, get_or, List, ◌++◌, Bool-cases, inl, inr, ltb→lt, ltb→le,
}
use xp_os.Prelude.Tabulate.{
  tabulate, tabulate_ext, tabulate-add, take-drop-eq-tabulate, get_or-drop,
}
use xp_os.Prelude.Modular.{wrap}
use xp_os.Memory.Copy.{memcpy, length-memcpy, get_or-memcpy}
use xp_os.Common.CircularBuffer.{FixedCircularBuffer, copy_out, copy_in}
use xp_os.Common.CircularBuffer.Bounds.{used}

-- The `k` bytes from index `start` on, going round at `size`.
abbrev pub window : ℕ → List ℕ → ℕ → ℕ → List ℕ
window size queue start k = tabulate k (λ i. get_or queue (wrap size (start + i)) 0)

abbrev pub contents : ℕ → FixedCircularBuffer → List ℕ
contents size b = window size b.queue b.queue_front (used size b)

wrap_low : (size a : ℕ) → a < size → wrap size a ≡ a
unfolding wrap
wrap_low size a h = ground arith

wrap_high : (size a : ℕ) → size ≤ a → wrap size a ≡ a - size
unfolding wrap
wrap_high size a h = ground arith

-- The two branches of `read`, by whether the front passes the end of the array.
copy_out_straight :
    (size : ℕ) (queue : List ℕ) (start k : ℕ)
    → copy_out size queue start (start + k) ≡ take k (drop start queue)
unfolding copy_out
copy_out_straight size queue start k =
    let e : start + k - start ≡ k = omega arith in
    ground (arith, ap (λ n. take n (drop start queue)) e)

copy_out_round :
    (size : ℕ) (queue : List ℕ) (start end : ℕ)
    → end < start
    → copy_out size queue start end ≡ take (size - start) (drop start queue) ++ take end queue
unfolding copy_out
copy_out_round size queue start end h = ground arith

module _ (size : ℕ) (queue : List ℕ) (start : ℕ) where
  straight :
      (k : ℕ)
      → length queue ≡ size
      → start + k ≤ size
      → take k (drop start queue) ≡ window size queue start k
  straight k hq h =
      take-drop-eq-tabulate k start queue 0 (omega arith)
      ∙ tabulate_ext k (λ i. get_or queue (start + i) 0)
          (λ i. get_or queue (wrap size (start + i)) 0)
          (λ i lt. ap (λ j. get_or queue j 0) (sym (wrap_low size (start + i) (omega arith))))

  -- The bytes from index 0 on continue a window that reached the end of the array.
  round :
      (k : ℕ)
      → length queue ≡ size
      → start ≤ size
      → k ≤ size
      → take k queue ≡ tabulate k (λ i. get_or queue (wrap size (start + (size - start + i))) 0)
  round k hq hs hk =
      take-drop-eq-tabulate k zero queue 0 (omega arith)
      ∙ tabulate_ext k (λ i. get_or queue (zero + i) 0)
          (λ i. get_or queue (wrap size (start + (size - start + i))) 0)
          (λ i lt.
            ap (λ j. get_or queue j 0)
              (omega (arith, wrap_high size (start + (size - start + i)) (omega arith))))

  window_high :
      (k : ℕ)
      → length queue ≡ size
      → start < size
      → k < size
      → size ≤ start + k
      → take (size - start) (drop start queue) ++ take (start + k - size) queue
        ≡ window size queue start k
  window_high k hq hs hk h =
      ap₂ ◌++◌ (straight (size - start) hq (omega arith))
        (round (start + k - size) hq (omega arith) (omega arith))
      ∙ sym (
          tabulate-add (size - start) (start + k - size)
            (λ i. get_or queue (wrap size (start + i)) 0))
      ∙ ap (window size queue start) parts
    where
      parts : size - start + (start + k - size) ≡ k
      parts = omega arith

  -- What `read` copies out is the window from the old front on.
  pub copy_out-eq-window :
      (k : ℕ)
      → length queue ≡ size
      → start < size
      → k < size
      → copy_out size queue start (wrap size (start + k)) ≡ window size queue start k
  copy_out-eq-window k hq hs hk = elim (Bool-cases (ltb (start + k) size)) [
    | inl lt ↦
        ap (copy_out size queue start) (wrap_low size (start + k) (ltb→lt _ _ lt))
        ∙ copy_out_straight size queue start k
        ∙ straight k hq (omega (arith, ltb→lt _ _ lt))
    | inr ge ↦
        ap (copy_out size queue start) (wrap_high size (start + k) (ltb→le _ _ ge))
        ∙ copy_out_round size queue start (start + k - size) (omega (arith, ltb→le _ _ ge))
        ∙ window_high k hq hs hk (ltb→le _ _ ge)
  ]

-- What `write` copies in, byte by byte: the `k` bytes from the old back on are the caller's, and
-- the `size - k` bytes after them are the old ones.
module _ (size : ℕ) (queue : List ℕ) (start k : ℕ) (buf : List ℕ) where
  pub length-copy_in : (end : ℕ) → length (copy_in size queue start end buf) ≡ length queue
  unfolding copy_in
  length-copy_in end = ground (
    arith,
    length-memcpy queue start buf (end - start),
    length-memcpy queue start buf (size - start),
    length-memcpy (memcpy queue start buf (size - start)) 0 (drop (size - start) buf) end,
  )

  -- Byte `j` after a copy that does not pass the end of the array, and after one that does.
  get_or-copy_in_straight :
      (end j : ℕ)
      → start ≤ end
      → end ≤ length queue
      → end - start ≤ length buf
      → get_or (copy_in size queue start end buf) j 0
        ≡ (if leb start j && ltb j end then get_or buf (j - start) 0 else get_or queue j 0)
  unfolding copy_in
  get_or-copy_in_straight end j h he hb =
      ground (arith, get_or-memcpy queue start buf (end - start) j 0)

  get_or-copy_in_round :
      (end j : ℕ)
      → length queue ≡ size
      → end < start
      → start < size
      → j < size
      → size - start + end ≤ length buf
      → get_or (copy_in size queue start end buf) j 0 ≡ (
          if ltb j end
          then get_or buf (size - start + j) 0
          else if leb start j
          then get_or buf (j - start) 0
          else get_or queue j 0)
  unfolding copy_in
  get_or-copy_in_round end j hq h hs hj hb = ground (
    arith,
    length-memcpy queue start buf (size - start),
    length-drop (size - start) buf,
    get_or-memcpy queue start buf (size - start) j 0,
    get_or-memcpy (memcpy queue start buf (size - start)) 0 (drop (size - start) buf) end j 0,
    get_or-drop (size - start) buf j 0,
  )

  pub copy_in_new :
      length queue ≡ size
      → start < size
      → k < size
      → k ≤ length buf
      → (i : ℕ) → i < k
      → get_or (copy_in size queue start (wrap size (start + k)) buf) (wrap size (start + i)) 0
        ≡ get_or buf i 0
  unfolding wrap
  copy_in_new hq hs hk hb i hi = ground (
    arith,
    get_or-copy_in_straight (wrap size (start + k)) (wrap size (start + i)),
    get_or-copy_in_round (wrap size (start + k)) (wrap size (start + i)),
  )

  pub copy_in_old :
      length queue ≡ size
      → start < size
      → k < size
      → k ≤ length buf
      → (i : ℕ) → k ≤ i
      → i < size
      → get_or (copy_in size queue start (wrap size (start + k)) buf) (wrap size (start + i)) 0
        ≡ get_or queue (wrap size (start + i)) 0
  unfolding wrap
  copy_in_old hq hs hk hb i hi his = ground (
    arith,
    get_or-copy_in_straight (wrap size (start + k)) (wrap size (start + i)),
    get_or-copy_in_round (wrap size (start + k)) (wrap size (start + i)),
  )
