-- ===== src/Tasks/Scheduler/Tests.antt =====
-- A scheduler with one group in its first queue, on a ring of the code's size.
use xp_os.Prelude.{ℕ, zero, suc, ◌≡◌, refl, arith, [], ◌∷◌, replicate}
use xp_os.Tasks.VariableFrequencyBuffer.{VariableFrequencyBuffer}
use xp_os.Tasks.VariableFrequencyBuffer.Scan.{total}
use xp_os.Tasks.State.{MasterScheduler}
use xp_os.Tasks.Scheduler.Order.{IsOrderly, HandsOut, next_group_refines}

abbrev empty_ring : VariableFrequencyBuffer
empty_ring = record { buffer = replicate 256 []; current_list = 0; size = 0 }

total-replicate : (n : ℕ) → total (replicate n []) ≡ 0
unfolding total
total-replicate zero = refl
total-replicate (suc n) = omega (arith, total-replicate n)

abbrev one_driver : MasterScheduler
one_driver = record {
  queue0 = record { group_id = 4; priority = 7 } ∷ [];
  queue1 = [];
  queue2 = empty_ring;
  group_slice_start_time = 100;
  group_slice_end_time = 115;
}

one_driver-IsOrderly : IsOrderly one_driver
one_driver-IsOrderly = record {
  descending0 = (tt, tt);
  descending1 = tt;
  ring_valid = record { storage = refl; current_in = omega arith; counted = refl_total };
}
  where
    refl_total : 0 ≡ total (replicate 256 [])
    refl_total = omega (arith, total-replicate 256)

next_group_refines_example : HandsOut one_driver
next_group_refines_example = next_group_refines one_driver one_driver-IsOrderly
