-- ===== src/Tasks/VariableFrequencyBuffer/Tests.antt =====
-- A ring of three lists.
use xp_os.Prelude.{ℕ, ◌≡◌, refl, some, arith, [], ◌∷◌}
use xp_os.Tasks.VariableFrequencyBuffer.{VariableFrequencyBuffer, add, get_next}
use xp_os.Tasks.VariableFrequencyBuffer.Scan.{IsValid, total}
use xp_os.Tasks.VariableFrequencyBuffer.Row.{row, pending}
use xp_os.Tasks.VariableFrequencyBuffer.Refine.{get_next_refines}

abbrev three : VariableFrequencyBuffer
three = record { buffer = (7 ∷ []) ∷ [] ∷ (4 ∷ 5 ∷ []) ∷ []; current_list = 1; size = 3 }

three-IsValid : IsValid 3 three
unfolding total
three-IsValid = omega arith

pending-three : pending 3 three ≡ 4 ∷ 5 ∷ 7 ∷ []
unfolding pending row
pending-three = refl

add-three : pending 3 (add 3 9 1 three) ≡ 4 ∷ 5 ∷ 9 ∷ 7 ∷ []
unfolding pending row add
add-three = refl

get_next_refines_example :
    (gid : ℕ) × (b : VariableFrequencyBuffer) × (get_next 3 three ≡ some (gid, b))
    × (pending 3 three ≡ gid ∷ pending 3 b)
    × IsValid 3 b
get_next_refines_example = get_next_refines 3 three three-IsValid (omega arith)
