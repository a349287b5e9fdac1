-- ===== src/Tasks/Manager/Tests.antt =====
-- Task 3 of group 2 runs; two tasks sleep, to wake at 1000 and at 10.
use mathlib.Core.List.Memᴰ
use xp_os.Prelude.{
  ℕ, ◌≡◌, ◌≢◌, refl, true, false, some, none, arith, List, [], ◌∷◌, ◌==◌, if◌then◌else◌,
}
use xp_os.Tasks.State.{ready, wait, Task, Group, SleepingTask, sleeping_gt, Manager}
use xp_os.Common.PriorityQueue.Order.{IsDescending}
use xp_os.Prelude.Chain.{◌>>=◌}
use xp_os.Tasks.Scheduler.{enqueue}
use xp_os.Tasks.Manager.{about_to_block, block, unblock, wake_sleepers}
use xp_os.Tasks.Manager.Wake.{block_then_wake}
use xp_os.Tasks.Manager.Sleep.{late_sleeper_holds_all}

abbrev task : Task
task = record { tid = 3; priority = 512; state = ready; group_id = 2; block_flag = false }

abbrev group : Group
group = record { group_id = 2; priority = 512; scheduled = true; ready_tasks = 5 ∷ 3 ∷ 8 ∷ [] }

abbrev sleepers : List SleepingTask
sleepers = record { tid = 6; wake_time = 1000 } ∷ record { tid = 5; wake_time = 10 } ∷ []

abbrev manager : Manager
manager = record {
  scheduler_changing_task = false;
  task_count = 9;
  group_count = 2;
  current_task = 3;
  tasks = λ t. if t == 3 then some task else none;
  groups = λ g. if g == 2 then some group else none;
  sleeping_tasks = sleepers;
  scheduler = record {
    queue0 = [];
    queue1 = [];
    queue2 = record { buffer = []; current_list = 0; size = 0 };
    group_slice_start_time = 0;
    group_slice_end_time = 15;
  };
}

sleepers-IsDescending : IsDescending sleeping_gt sleepers
unfolding sleeping_gt
sleepers-IsDescending = ((refl, tt), (tt, tt))

block_then_wake_example :
    (m1 : Manager) × (m2 : Manager) × ((about_to_block manager >>= block) ≡ some (true, m1))
    × (m1.tasks 3 ≡ some (record task { block_flag = true; state = wait }))
    × (m1.groups 2 ≡ some (record group { ready_tasks = 5 ∷ 8 ∷ [] }))
    × (unblock 3 m1 ≡ some m2)
    × (m2.tasks 3 ≡ some (record task { block_flag = false; state = ready }))
    × (m2.groups 2 ≡ some (record group { scheduled = true; ready_tasks = 5 ∷ 8 ∷ 3 ∷ [] }))
    × ((t : ℕ) → t ≢ 3 → m2.tasks t ≡ manager.tasks t)
    × ((g : ℕ) → g ≢ 2 → m2.groups g ≡ manager.groups g)
    × (m2.scheduler
        ≡ (if group.scheduled then manager.scheduler else enqueue 2 512 manager.scheduler))
block_then_wake_example =
    block_then_wake manager task (omega arith) refl group (5 ∷ []) (8 ∷ []) refl refl refl
      (λ e. absurd (omega (arith, e)), (λ e. absurd (omega (arith, e)), tt))

late_sleeper_holds_all_example :
    wake_sleepers 500 sleepers manager ≡ some (record manager { sleeping_tasks = sleepers })
late_sleeper_holds_all_example =
    late_sleeper_holds_all 500 (record { tid = 6; wake_time = 1000 }) sleepers manager
      sleepers-IsDescending (Memᴰ.head refl) (omega arith)

abbrev low : Group
low = record group { priority = 800; scheduled = false }

abbrev with_low : Manager
with_low = record manager { groups = λ g. if g == 2 then some low else none }
