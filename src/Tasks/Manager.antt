-- ===== src/Tasks/Manager.antt =====
-- `Task::Manager` of Kernel/Tasks/TaskManager.cpp: launching, blocking, waking, sleeping and the
-- choice of the next task. A step that follows a null pointer or a missing map entry returns
-- `none`. Page allocation and the switch of stacks in `launch_task` and `refresh` are left out.
pub mod Wake
pub mod Sleep
pub mod Lost
mod Tests
use xp_os.Prelude.{
  ℕ, zero, suc, ◌+◌, ◌^◌, Bool, true, false, not, Option, none, some, List, [], ◌∷◌, ◌++◌, ◌==◌,
  ltb, leb, if◌then◌else◌, length,
}
use xp_os.Prelude.Map.{update}
use xp_os.Prelude.Word.{u64}
use xp_os.Common.PriorityQueue.{push}
use xp_os.Tasks.State.{
  State, not_started, ready, wait, Task, Group, SleepingTask, sleeping_gt, Manager,
}
use xp_os.Prelude.Chain.{◌>>=◌}
use xp_os.Tasks.Scheduler.{schedule_group, get_next_task}

-- `get_current_task`, which is a null pointer where no task runs.
unfoldable pub get_current_task : Manager → Option Task
get_current_task m = if m.current_task == 0 then none else m.tasks m.current_task

unfoldable pub about_to_block : Manager → Option Manager
unfolding get_current_task
about_to_block m = do
  task ← get_current_task m
  some (record m { tasks = update m.tasks m.current_task (record task { block_flag = true }) })

-- The loop of `block` that erases the task from its group's ready list: the first one only.
unfoldable pub erase_first : ℕ → List ℕ → List ℕ
erase_first tid [] = []
erase_first tid (t ∷ ts) = let rest = t ∷ erase_first tid ts in if t == tid then ts else rest

-- `block` up to its call of `refresh`, and whether it makes that call. A task that was woken since
-- `about_to_block` goes on at once.
unfoldable pub block : Manager → Option (Bool × Manager)
unfolding get_current_task erase_first
block m = do
  task ← get_current_task m
  if task.block_flag
      then (do
        group ← m.groups task.group_id
        some (
          true,
          record m {
            tasks = update m.tasks m.current_task (record task { state = wait });
            groups =
                update m.groups task.group_id
                  (record group { ready_tasks = erase_first task.tid group.ready_tasks });
          },
        ))
      else some (false, m)

unfoldable pub schedule_if_needed : ℕ → Group → Manager → Option Manager
schedule_if_needed gid group m = if group.scheduled then some m else schedule_group gid m

abbrev pub new_task : ℕ → ℕ → Task
new_task tid priority = record {
  tid = tid;
  priority = priority;
  state = not_started;
  group_id = 0;
  block_flag = false;
}

abbrev pub new_group : ℕ → ℕ → Group
new_group gid priority = record {
  group_id = gid;
  priority = priority;
  scheduled = false;
  ready_tasks = [];
}

unfoldable pub is_ready : State → Bool
is_ready ready = true
is_ready _ = false

-- `unblock` and `lockless_unblock`, which differ in the lock that they take.
unfoldable pub unblock : ℕ → Manager → Option Manager
unfolding schedule_if_needed is_ready
unblock tid m = do
  task ← m.tasks tid
  if is_ready task.state
      then some (record m { tasks = update m.tasks tid (record task { block_flag = false }) })
      else (do
        group ← m.groups task.group_id
        schedule_if_needed task.group_id group (record m {
          tasks = update m.tasks tid (record task { block_flag = false; state = ready });
          groups =
              update m.groups task.group_id
                (record group { ready_tasks = group.ready_tasks ++ (tid ∷ []) });
        }))

-- The scheduling half of `launch_task`: the new task's id, and the state with the task in its
-- group's ready list. Group id 0 asks for a new group.
unfoldable pub add_task : Task → ℕ → Group → Manager → Option Manager
unfolding schedule_if_needed
add_task task gid group m = schedule_if_needed gid group (record m {
  tasks = update m.tasks task.tid (record task { group_id = gid });
  groups =
      update m.groups gid (record group { ready_tasks = group.ready_tasks ++ (task.tid ∷ []) });
})

unfoldable pub launch_task : ℕ → ℕ → Manager → Option (ℕ × Manager)
launch_task priority gid m =
    let tid = u64 (m.task_count + 1) in
    let task = new_task tid priority in
    if gid == 0
    then (do
      let new_gid = u64 (m.group_count + 1)
      m' ←
          add_task task new_gid (new_group new_gid priority)
            (record m { task_count = tid; group_count = new_gid })
      some (tid, m'))
    else (do
      group ← m.groups gid
      m' ← add_task task gid group (record m { task_count = tid })
      some (tid, m'))

-- `sleep_until` up to its call of `block`'s `refresh`, and whether that is made.
unfoldable pub sleep_until : ℕ → ℕ → Manager → Option (Bool × Manager)
sleep_until now time m = if leb time now then some (false, m) else (do
  m' ← about_to_block m
  block (record m' {
    sleeping_tasks =
        push sleeping_gt (record { tid = m.current_task; wake_time = time }) m'.sleeping_tasks;
  }))

unfoldable pub sleep_for : ℕ → ℕ → Manager → Option (Bool × Manager)
sleep_for now duration m = sleep_until now (u64 (now + duration)) m

-- The loop of `refresh` over the sleeping tasks, on those that are left in the queue.
unfoldable pub wake_sleepers : ℕ → List SleepingTask → Manager → Option Manager
wake_sleepers now [] m = some (record m { sleeping_tasks = [] })
wake_sleepers now (s ∷ rest) m = elim (leb s.wake_time now) [
  | true ↦ unblock s.tid (record m { sleeping_tasks = rest }) >>= wake_sleepers now rest
  | false ↦ some (record m { sleeping_tasks = s ∷ rest })
]

-- What can happen while `refresh` halts the processor with no task to run: a timer interrupt,
-- whose own `refresh` wakes sleepers and returns, or a wake-up by a device.
pub data Interrupt : Type 0 where
  tick : ℕ → Interrupt
  device : ℕ → ℕ → Interrupt

unfoldable pub interrupt_time : Interrupt → ℕ
interrupt_time (tick now) = now
interrupt_time (device now tid) = now

unfoldable pub interrupt : Interrupt → Manager → Option Manager
interrupt (tick now) m = wake_sleepers now m.sleeping_tasks m
interrupt (device now tid) m = unblock tid m

-- `while (!m_currentTask)`, over the interrupts that come in.
unfoldable pub idle : List Interrupt → Manager → Option Manager
idle [] m = some m
idle (i ∷ is) m = elim (m.current_task == 0) [
  | true ↦ do
    m' ← interrupt i m
    next ← get_next_task (interrupt_time i) m'
    idle is (record next.1 { current_task = next.0 })
  | false ↦ some m
]

-- The state of a task as it is switched to: one that never ran is marked ready.
unfoldable pub started : State → State
started not_started = ready
started state = state

-- The end of `refresh`, where a task was chosen.
unfoldable pub start_task : Manager → Option Manager
unfolding started
start_task m = if m.current_task == 0 then some m else (do
  task ← m.tasks m.current_task
  some (record m {
    scheduler_changing_task = false;
    tasks = update m.tasks m.current_task (record task { state = started task.state });
  }))

-- `refresh` up to the switch of stacks. The task in `current_task` is the one that runs next; 0
-- says that the interrupts given have left the processor halted.
unfoldable pub refresh : ℕ → List Interrupt → Manager → Option Manager
unfolding start_task
refresh now is m = do
  woken ← wake_sleepers now m.sleeping_tasks m
  if woken.scheduler_changing_task then some woken else (do
    next ← get_next_task now (record woken { scheduler_changing_task = true })
    m' ← idle is (record next.1 { current_task = next.0 })
    start_task m')
