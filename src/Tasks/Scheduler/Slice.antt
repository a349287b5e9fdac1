-- ===== src/Tasks/Scheduler/Slice.antt =====
-- The thread that a group's time slice gives the processor to.
use xp_os.Prelude.{ℕ, ◌+◌, ◌-◌, ◌*◌, ◌/◌, ◌^◌, ◌≤◌, ◌<◌, ◌≡◌, refl, arith}
use xp_os.Prelude.Word.{sub64}
use xp_os.Tasks.State.{MasterScheduler}
use xp_os.Tasks.Scheduler.{share, task_num}

share_lem :
    (d ready p : ℕ)
    → d * ready ≡ p
    → p ≤ 14 * ready
    → 0 < ready
    → ready < 2 ^ 31
    → (share d ready 15 ≡ p / 15) × (share d ready 15 < ready)
unfolding share
share_lem d ready p e h hr hb = rw e (ground arith)

product_bound : (d ready : ℕ) → d < 15 → d * ready ≤ 14 * ready
product_bound d ready h = grind arith

-- Inside a slice of fixed length, the code's machine arithmetic gives the share of the slice that
-- is over, times the number of ready threads; it is the index of one of them.
pub task_num_bounds :
    (now ready : ℕ) (s : MasterScheduler)
    → s.group_slice_end_time ≡ s.group_slice_start_time + 15
    → s.group_slice_end_time < 2 ^ 64
    → s.group_slice_start_time ≤ now
    → now < s.group_slice_end_time
    → 0 < ready
    → ready < 2 ^ 31
    → (task_num now ready s ≡ (now - s.group_slice_start_time) * ready / 15)
      × (task_num now ready s < ready)
unfolding task_num
task_num_bounds now ready s he hw hs hn hr hb =
    rw (elapsed, length_of_slice)
      (share_lem (now - s.group_slice_start_time) ready _ refl
        (product_bound (now - s.group_slice_start_time) ready (omega arith)) hr hb)
  where
    elapsed : sub64 now s.group_slice_start_time ≡ now - s.group_slice_start_time
    elapsed = omega arith

    length_of_slice : sub64 s.group_slice_end_time s.group_slice_start_time ≡ 15
    length_of_slice = omega arith
