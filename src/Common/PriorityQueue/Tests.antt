-- ===== src/Common/PriorityQueue/Tests.antt =====
-- A queue of numbers, greater ones first.
use xp_os.Prelude.{ℕ, ◌≡◌, refl, arith, List, [], ◌∷◌, ltb}
use xp_os.Common.PriorityQueue.{push}
use xp_os.Common.PriorityQueue.Order.{StrictOrder, IsDescending}
use xp_os.Prelude.{Bool}

abbrev gt : ℕ → ℕ → Bool
gt a b = ltb b a

gt-StrictOrder : StrictOrder gt
gt-StrictOrder = record {
  asymmetric = λ a b h. ground arith;
  not_trans = λ a b c h k. ground arith;
}

abbrev queue : List ℕ
queue = 9 ∷ 5 ∷ 5 ∷ 2 ∷ []

push-queue : push gt 5 queue ≡ 9 ∷ 5 ∷ 5 ∷ 5 ∷ 2 ∷ []
unfolding push
push-queue = refl

queue-IsDescending : IsDescending gt queue
queue-IsDescending = ((refl, (refl, (refl, tt))), ((refl, (refl, tt)), ((refl, tt), (tt, tt))))
