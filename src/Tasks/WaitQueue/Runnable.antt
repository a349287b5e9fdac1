-- ===== src/Tasks/WaitQueue/Runnable.antt =====
-- A task that is woken can be chosen: it is on the ready list of a group that is scheduled.
use xp_os.Prelude.{ℕ, ◌≡◌, true, false, some, List, [], ◌∷◌, ◌++◌}
use xp_os.Prelude.All.{All}
use xp_os.Prelude.Map.{update}
use xp_os.Tasks.State.{ready, Task, Group, Manager}
use xp_os.Tasks.Scheduler.{enqueue}
use xp_os.Tasks.Manager.{unblock, is_ready}
use xp_os.Tasks.WaitQueue.{WaitQueue, unblock_all}
use xp_os.Tasks.WaitQueue.Grown.{IsListed, IsConsistent, IsRunnable, AllGrown}

-- What `unblock` does: it writes one task, which is runnable then, and the groups grow.
record Woken (m : Manager) (tid : ℕ) : Type 0 where
  after : Manager
  done : unblock tid m ≡ some after
  task : Task
  written : after.tasks ≡ update m.tasks tid task
  flag : task.block_flag ≡ false
  runs : is_ready task.state ≡ true
  home : IsListed after tid task.group_id
  grown : AllGrown m.groups after.groups

module _ (tid : ℕ) (m : Manager) (k : IsConsistent m tid) where
  abbrev as_it_was : Manager
  as_it_was = record m { tasks = update m.tasks tid (record k.task { block_flag = false }) }

  abbrev joined : Group
  joined = record k.group { ready_tasks = k.group.ready_tasks ++ (tid ∷ []) }

  abbrev new_ready : Task
  new_ready = record k.task { block_flag = false; state = ready }

  abbrev joins : Manager
  joins = record m {
    tasks = update m.tasks tid new_ready;
    groups = update m.groups k.task.group_id joined;
  }

  abbrev queued : Manager
  queued = record joins {
    groups = update joins.groups k.task.group_id (record joined { scheduled = true });
    scheduler = enqueue k.task.group_id k.group.priority m.scheduler;
  }

-- All entries unblocked, one after the other.
record AllWoken (m : Manager) (entries : List (ℕ × ℕ)) : Type 0 where
  after : Manager
  done : unblock_all entries m ≡ some after
  runnable : All (λ entry. IsRunnable after entry.1) entries
  keeps : (t : ℕ) → IsRunnable m t → IsRunnable after t
