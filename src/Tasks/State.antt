-- ===== src/Tasks/State.antt =====
-- The data of Kernel/Tasks/Task.h, TaskManager.h and MasterScheduler.h that the schedulers and the
-- task manager work on. Address spaces, pipe tables, stacks, entry points and locks are left out.
--
-- A `Hashmap` from ids to objects is a partial map; the `Task*` and `Group*` that it holds are the
-- objects themselves, since every access goes through the map.
use xp_os.Prelude.{ℕ, Bool, Option, List, ltb}
use xp_os.Tasks.VariableFrequencyBuffer.{VariableFrequencyBuffer}

-- `Task::State`
pub data State : Type 0 where
  not_started ready wait : State

pub record Task : Type 0 where
  pub tid : ℕ
  pub priority : ℕ
  pub state : State
  pub group_id : ℕ
  pub block_flag : Bool

pub record Group : Type 0 where
  pub group_id : ℕ
  pub priority : ℕ
  pub scheduled : Bool
  pub ready_tasks : List ℕ

pub record TaskPriorityItem : Type 0 where
  pub group_id : ℕ
  pub priority : ℕ

-- `operator>` of `TaskPriorityItem`: a lower number is a greater item.
unfoldable pub item_gt : TaskPriorityItem → TaskPriorityItem → Bool
item_gt lhs rhs = ltb lhs.priority rhs.priority

pub record SleepingTask : Type 0 where
  pub tid : ℕ
  pub wake_time : ℕ

-- `operator>` of `SleepingTask`: a later time is a greater task.
unfoldable pub sleeping_gt : SleepingTask → SleepingTask → Bool
sleeping_gt lhs rhs = ltb rhs.wake_time lhs.wake_time

pub record MasterScheduler : Type 0 where
  pub queue0 : List TaskPriorityItem
  pub queue1 : List TaskPriorityItem
  pub queue2 : VariableFrequencyBuffer
  pub group_slice_start_time : ℕ
  pub group_slice_end_time : ℕ

-- The task manager, with the scheduler that it drives.
pub record Manager : Type 0 where
  pub scheduler_changing_task : Bool
  pub task_count : ℕ
  pub group_count : ℕ
  pub current_task : ℕ
  pub tasks : ℕ → Option Task
  pub groups : ℕ → Option Group
  pub sleeping_tasks : List SleepingTask
  pub scheduler : MasterScheduler

-- VARFREQ_CIRCULAR_BUFFER_SIZE
abbrev pub varfreq_circular_buffer_size : ℕ
varfreq_circular_buffer_size = 256

abbrev pub fixed_timeslice : ℕ
fixed_timeslice = 15
