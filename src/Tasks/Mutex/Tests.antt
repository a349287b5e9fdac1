-- ===== src/Tasks/Mutex/Tests.antt =====
-- Task 4 holds a mutex that task 3, which runs, enters.
use xp_os.Prelude.{ℕ, refl, false, some, none, [], ◌∷◌, ◌==◌, if◌then◌else◌}
use xp_os.Tasks.State.{ready, Task, Manager}
use xp_os.Tasks.Mutex.{enter}
use xp_os.Tasks.Mutex.Fifo.{Run, start, enters, mutex_of, Behaves, mutex_serves_in_order}

abbrev task : Task
task = record { tid = 3; priority = 512; state = ready; group_id = 2; block_flag = false }

abbrev manager : ℕ → Manager
manager current = record {
  scheduler_changing_task = false;
  task_count = 9;
  group_count = 2;
  current_task = current;
  tasks = λ t. if t == 3 then some task else none;
  groups = λ g. none;
  sleeping_tasks = [];
  scheduler = record {
    queue0 = [];
    queue1 = [];
    queue2 = record { buffer = []; current_list = 0; size = 0 };
    group_slice_start_time = 0;
    group_slice_end_time = 15;
  };
}

Run-of_holder : Run (4 ∷ []) (mutex_of (4 ∷ []))
unfolding enter
Run-of_holder = enters (manager 4) (mutex_of (4 ∷ [])) false (manager 4) start refl

mutex_serves_in_order_example : Behaves (4 ∷ []) (mutex_of (4 ∷ [])) (manager 3)
mutex_serves_in_order_example =
    mutex_serves_in_order (4 ∷ []) (mutex_of (4 ∷ [])) (manager 3) Run-of_holder
