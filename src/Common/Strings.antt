-- ===== src/Common/Strings.antt =====
-- Kernel/Common/String.cpp. A source is the list of its characters without the NUL; the NUL is read
-- where the list ends.
pub mod Copied
use xp_os.Prelude.{
  ℕ, ◌-◌, ◌^◌, Bool, true, false, ◌&&◌, ◌||◌, List, [], ◌∷◌, ◌++◌, Option, none, some, ◌==◌, ltb,
  if◌then◌else◌, length, drop, replicate,
}

-- Whether `strcmp` gives 0.
unfoldable pub same_name : List ℕ → List ℕ → Bool
same_name [] [] = true
same_name [] (_ ∷ _) = false
same_name (_ ∷ _) [] = false
same_name (c ∷ s) (d ∷ t) = (c == d) && same_name s t

-- `--num` on 64 bits.
unfoldable pub decrement : ℕ → ℕ
decrement num = if num == 0 then 2 ^ 64 - 1 else num - 1

-- The `while` loop of `strncpy`: the characters that it writes, and `num` after it. The NUL ends it
-- before `num` is decremented.
unfoldable pub copy_loop : List ℕ → ℕ → List ℕ × ℕ
unfolding decrement
copy_loop [] num = (0 ∷ [], num)
copy_loop (c ∷ str) num =
    let (written, left) = copy_loop str (decrement num) in
    if decrement num == 0 then (c ∷ [], 0) else (c ∷ written, left)

-- `strncpy` to memory with some room: the bytes there, or `none` where it writes behind the room. The
-- zeros of the `for` loop go to the start of the destination.
unfoldable pub strncpy : ℕ → List ℕ → ℕ → Option (List ℕ)
unfolding copy_loop
strncpy room str num =
    let (written, left) = copy_loop str num in
    if ltb room (length written) || ltb room left
    then none
    else some (replicate left 0 ++ drop left written)
