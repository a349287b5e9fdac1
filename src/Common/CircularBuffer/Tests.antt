-- ===== src/Common/CircularBuffer/Tests.antt =====
-- A buffer of four bytes whose contents go round the end of the array.
use xp_os.Prelude.{◌-◌, ◌≡◌, refl, min, arith, [], ◌∷◌, ◌++◌, length, take, drop}
use xp_os.Prelude.Modular.{wrap}
use xp_os.Common.CircularBuffer.{FixedCircularBuffer, read, write, write_loop, is_queue_full}
use xp_os.Common.CircularBuffer.Bounds.{IsValid, span}
use xp_os.Common.CircularBuffer.Copies.{contents}
use xp_os.Common.CircularBuffer.Refine.{read_refines, write_refines}

-- 7, then 8
abbrev round_the_end : FixedCircularBuffer
round_the_end = record { queue_front = 3; queue_back = 1; queue = 8 ∷ 0 ∷ 0 ∷ 7 ∷ [] }

round_the_end-IsValid : IsValid 4 round_the_end
round_the_end-IsValid = omega arith

contents-round_the_end : contents 4 round_the_end ≡ 7 ∷ 8 ∷ []
unfolding span wrap
contents-round_the_end = refl

write_stops_when_full : (write 4 3 (1 ∷ 2 ∷ 3 ∷ []) round_the_end).0 ≡ 1
unfolding write write_loop is_queue_full
write_stops_when_full = refl

read_refines_example :
    let (n, out, b) = read 4 5 round_the_end in
    (n ≡ min 5 (length (contents 4 round_the_end)))
    × (out ≡ take n (contents 4 round_the_end))
    × (contents 4 b ≡ drop n (contents 4 round_the_end))
    × IsValid 4 b
read_refines_example = read_refines 4 round_the_end round_the_end-IsValid 5

write_refines_example :
    let (n, b) = write 4 3 (1 ∷ 2 ∷ 3 ∷ []) round_the_end in
    (n ≡ min 3 (4 - 1 - length (contents 4 round_the_end)))
    × (contents 4 b ≡ contents 4 round_the_end ++ take n (1 ∷ 2 ∷ 3 ∷ []))
    × IsValid 4 b
write_refines_example =
    write_refines 4 round_the_end round_the_end-IsValid 3 (1 ∷ 2 ∷ 3 ∷ []) (omega arith)
