-- ===== src/Tasks/Scheduler.antt =====
-- `MasterScheduler` of Kernel/Tasks/MasterScheduler.cpp. It works on the manager's state, since it
-- reaches the groups through the manager. A step that would follow a missing map entry or read the
-- first element of an empty list returns `none`.
--
-- `now` is the timer's `time_since_boot()`; the scheduler runs with interrupts off, so its reads of
-- the timer give one value. A priority is an `int` in the source; it is a natural number here.
pub mod Slice
pub mod Order
mod Tests
use xp_os.Prelude.{
  ℕ, zero, suc, ◌+◌, ◌-◌, ◌*◌, ◌/◌, ◌%◌, ◌^◌, Bool, true, false, Option, none, some, List, [], ◌∷◌,
  ◌==◌, ltb, if◌then◌else◌, length, get_elem?,
}
use xp_os.Prelude.Map.{update}
use xp_os.Prelude.Word.{u32, u64, sub64}
use xp_os.Prelude.Chain.{◌>>=◌}
use xp_os.Common.PriorityQueue.{push, top, pop, size}
use xp_os.Tasks.VariableFrequencyBuffer as Varfreq
use xp_os.Tasks.State.{
  Task, Group, TaskPriorityItem, item_gt, MasterScheduler, Manager, varfreq_circular_buffer_size,
  fixed_timeslice,
}

-- The `switch` on `priority / 256`.
unfoldable pub enqueue : ℕ → ℕ → MasterScheduler → MasterScheduler
enqueue gid priority s =
    let queue = priority / 256 in
    let queue_priority = priority % 256 in
    let item : TaskPriorityItem = record { group_id = gid; priority = queue_priority } in
    if queue == 0
    then record s { queue0 = push item_gt item s.queue0 }
    else if queue == 1
    then record s { queue1 = push item_gt item s.queue1 }
    else if queue == 2
    then record s { queue2 = Varfreq.add varfreq_circular_buffer_size gid queue_priority s.queue2 }
    else s

unfoldable pub add_group_to_queue : ℕ → Manager → Option Manager
add_group_to_queue gid m = do
  group ← m.groups gid
  some (record m {
    groups = update m.groups gid (record group { scheduled = true });
    scheduler = enqueue gid group.priority m.scheduler;
  })

unfoldable pub schedule_group : ℕ → Manager → Option Manager
unfolding add_group_to_queue
schedule_group gid m = add_group_to_queue gid m

-- The group that the queues hand out, 0 if they are empty: each queue pre-empts the next.
unfoldable pub next_group : MasterScheduler → Option (ℕ × MasterScheduler)
next_group s =
    if ltb 0 (size s.queue0)
    then (do item ← top s.queue0; some (item.group_id, record s { queue0 = pop s.queue0 }))
    else if ltb 0 (size s.queue1)
    then (do item ← top s.queue1; some (item.group_id, record s { queue1 = pop s.queue1 }))
    else if s.queue2.size == 0
    then some (0, s)
    else (do
      next ← Varfreq.get_next varfreq_circular_buffer_size s.queue2
      some (next.0, record s { queue2 = next.1 }))

-- `*group->readyTasks.begin()` of the group chosen.
unfoldable pub first_task : ℕ → Manager → Option (ℕ × Manager)
first_task gid m =
    if gid == 0
    then some (0, m)
    else (do group ← m.groups gid; tid ← get_elem? group.ready_tasks 0; some (tid, m))

-- The second half of `get_next_task`: a new slice for the group that the queues hand out.
unfoldable pub pick_group : ℕ → Manager → Option (ℕ × Manager)
pick_group now m =
    let s = record m.scheduler {
      group_slice_start_time = now;
      group_slice_end_time = u64 (now + fixed_timeslice);
    } in
    do next ← next_group s; first_task next.0 (record m { scheduler = next.1 })

-- `int taskNum`, from the time since the slice began and the slice's length: the low 32 bits of the
-- quotient, read as a signed number. A negative one takes no step along the list, so it counts as
-- 0 here.
unfoldable pub share : ℕ → ℕ → ℕ → ℕ
share elapsed ready slice_time =
    let n = u32 (u64 (elapsed * ready) / slice_time) in if ltb n (2 ^ 31) then n else 0

unfoldable pub task_num : ℕ → ℕ → MasterScheduler → ℕ
task_num now ready s =
    share (sub64 now s.group_slice_start_time) ready
      (sub64 s.group_slice_end_time s.group_slice_start_time)

-- The next thread of the current group, by how much of its time slice is over.
unfoldable pub thread_of_slice : ℕ → Group → Manager → Option (ℕ × Manager)
thread_of_slice now group m = do
  tid ← get_elem? group.ready_tasks (task_num now (length group.ready_tasks) m.scheduler)
  some (tid, m)

-- What `get_next_task` does with the current task's group.
unfoldable pub leave_or_stay : ℕ → ℕ → Group → Manager → Option (ℕ × Manager)
leave_or_stay now gid group m =
    if ltb 0 (length group.ready_tasks)
    then if ltb now m.scheduler.group_slice_end_time
      then thread_of_slice now group m
      else (add_group_to_queue gid m >>= pick_group now)
    else pick_group now
        (record m { groups = update m.groups gid (record group { scheduled = false }) })

-- The scheduler's `get_next_task`: the task id, 0 if none can run.
unfoldable pub get_next_task : ℕ → Manager → Option (ℕ × Manager)
get_next_task now m = if m.current_task == 0 then pick_group now m else (do
  task ← m.tasks m.current_task
  group ← m.groups task.group_id
  leave_or_stay now task.group_id group m)
