-- ===== src/Tasks/WaitQueue/Tests.antt =====
-- Task 3 of group 2 waits in a queue, and so does task 8 of group 4, which was woken by another event.
use xp_os.Prelude.{ℕ, true, false, some, none, [], ◌∷◌, ◌==◌, if◌then◌else◌}
use mathlib.Core.List.Memᴰ
use xp_os.Prelude.All.{All}
use xp_os.Tasks.State.{ready, wait, Task, Group, Manager}
use xp_os.Tasks.WaitQueue.{WaitQueue}

abbrev waiting : ℕ → Task
waiting tid = record { tid = tid; priority = 512; state = wait; group_id = 2; block_flag = true }

abbrev group : Group
group = record { group_id = 2; priority = 512; scheduled = false; ready_tasks = [] }

abbrev ready_8 : Task
ready_8 = record { tid = 8; priority = 512; state = ready; group_id = 4; block_flag = true }

abbrev group_4 : Group
group_4 = record { group_id = 4; priority = 512; scheduled = true; ready_tasks = 8 ∷ [] }

abbrev manager : Manager
manager = record {
  scheduler_changing_task = false;
  task_count = 9;
  group_count = 4;
  current_task = 0;
  tasks = λ t. if t == 3 then some (waiting 3) else (if t == 8 then some ready_8 else none);
  groups = λ g. if g == 2 then some group else (if g == 4 then some group_4 else none);
  sleeping_tasks = [];
  scheduler = record {
    queue0 = [];
    queue1 = [];
    queue2 = record { buffer = []; current_list = 0; size = 0 };
    group_slice_start_time = 0;
    group_slice_end_time = 15;
  };
}

abbrev two_tasks : WaitQueue
two_tasks = record { next_item = 2; queue = (0, 3) ∷ (1, 8) ∷ [] }
