-- ===== src/Tasks/Manager/Lost.antt =====
-- A group of a priority that no queue of the scheduler takes: 768 or more.
use xp_os.Prelude.{ℕ, ◌≤◌, ◌≡◌, refl, true, some, arith}
use xp_os.Prelude.Map.{update, update_self}
use xp_os.Tasks.State.{Group, Manager}
use xp_os.Tasks.Scheduler.{enqueue, add_group_to_queue}
use xp_os.Tasks.Manager.{schedule_if_needed}

enqueue-eq_self :
    (gid priority : ℕ) (s : Manager)
    → 768 ≤ priority
    → enqueue gid priority s.scheduler ≡ s.scheduler
unfolding enqueue
enqueue-eq_self gid priority s h = ground arith

-- Scheduling a group of a priority from 768 on changes no queue and yet marks the group as
-- scheduled, so that what wakes or launches a task of it later never schedules it again.
pub group_is_lost :
    (gid : ℕ) (group : Group) (m : Manager)
    → m.groups gid ≡ some group
    → 768 ≤ group.priority
    → (m' : Manager) × (group' : Group) × (add_group_to_queue gid m ≡ some m')
      × (m'.scheduler ≡ m.scheduler)
      × (m'.groups gid ≡ some group')
      × (schedule_if_needed gid group' m' ≡ some m')
unfolding add_group_to_queue schedule_if_needed
group_is_lost gid group m found h = (
  record m { groups = update m.groups gid (record group { scheduled = true }) },
  record group { scheduled = true },
  rw (found, enqueue-eq_self gid group.priority m h) refl,
  refl,
  update_self m.groups gid (record group { scheduled = true }),
  refl,
)
