-- ===== src/Tasks/Manager/Wake.antt =====
-- Blocking and waking a task: no wake-up is lost, and a woken task can be chosen again.
use xp_os.Prelude.{
  ℕ, ◌≡◌, ◌≢◌, refl, ap, ap₂, ◌∙◌, true, false, some, List, [], ◌∷◌, ◌++◌, arith, Bool-cases, inl,
  inr, ne→==, eq→==, if◌then◌else◌,
}
use xp_os.Prelude.All.{All}
use xp_os.Prelude.Map.{update}
use xp_os.Tasks.State.{ready, wait, Task, Group, Manager}
use xp_os.Prelude.Chain.{◌>>=◌}
use xp_os.Tasks.Scheduler.{enqueue, schedule_group, add_group_to_queue}
use xp_os.Tasks.Manager.{about_to_block, block, unblock, erase_first, schedule_if_needed}

All-front {ℓ κ} : {A : Type ℓ} → (P : A → Type κ) (xs ys : List A) → All P (xs ++ ys) → All P xs
All-front P [] ys h = tt
All-front P (x ∷ xs) ys h = (h.0, All-front P xs ys h.1)

-- The task is erased where it stands first.
erase_first-append :
    (tid : ℕ) (front back : List ℕ)
    → All (λ t. t ≢ tid) front
    → erase_first tid (front ++ (tid ∷ back)) ≡ front ++ back
unfolding erase_first
erase_first-append tid [] back h = rw (eq→== tid tid refl) refl
erase_first-append tid (t ∷ front) back h =
    rw (ne→== t tid h.0) (ap (λ l. t ∷ l) (erase_first-append tid front back h.1))

module _ (m : Manager) (task : Task) (running : m.current_task ≢ 0)
    (found : m.tasks m.current_task ≡ some task) where
  -- A running task that is woken between `about_to_block` and `block` does not go to sleep: `block`
  -- returns at once, and only the task's block flag was written, to false.
  pub wake_before_block :
      task.state ≡ ready
      → (about_to_block m >>= λ m1. unblock m.current_task m1 >>= block)
        ≡ some (
          false,
          record m {
            tasks =
                update
                  (update m.tasks m.current_task (record task { block_flag = true }))
                  m.current_task
                  (record task { block_flag = false });
          },
        )
  unfolding about_to_block unblock block
  wake_before_block h = ground (arith, found)

  -- The states that `block_then_wake` goes through. The task stands between `front` and `back` on the
  -- ready list of its group.
  module _ (group : Group) (front back : List ℕ) (own : task.tid ≡ m.current_task)
      (member : m.groups task.group_id ≡ some group)
      (listed : group.ready_tasks ≡ front ++ (m.current_task ∷ back))
      (once : All (λ t. t ≢ m.current_task) (front ++ back)) where
    abbrev asleep : Manager
    asleep = record m {
      tasks =
          update (update m.tasks m.current_task (record task { block_flag = true })) m.current_task
            (record task { block_flag = true; state = wait });
      groups = update m.groups task.group_id (record group { ready_tasks = front ++ back });
    }

    abbrev home : Group
    home = record group { ready_tasks = (front ++ back) ++ (m.current_task ∷ []) }

    abbrev awake : Manager
    awake = record m {
      tasks =
          update asleep.tasks m.current_task (record task { block_flag = false; state = ready });
      groups = update asleep.groups task.group_id home;
    }

    abbrev queued : Manager
    queued = record awake {
      groups = update awake.groups task.group_id (record home { scheduled = true });
      scheduler = enqueue task.group_id group.priority m.scheduler;
    }

    erased : erase_first task.tid group.ready_tasks ≡ front ++ back
    erased =
        ap₂ erase_first own listed
        ∙ erase_first-append m.current_task front back
            (All-front (λ t. t ≢ m.current_task) front back once)

    block-asleep : (about_to_block m >>= block) ≡ some (true, asleep)
    unfolding about_to_block block
    block-asleep = ground (arith, found, member, erased)

    unblock-awake : group.scheduled ≡ true → unblock m.current_task asleep ≡ some awake
    unfolding unblock
    unblock-awake hs = ground arith

    unblock-queued : group.scheduled ≡ false → unblock m.current_task asleep ≡ some queued
    unfolding unblock schedule_if_needed schedule_group add_group_to_queue
    unblock-queued hs = ground arith

    -- A running task that stands once on the ready list of its group blocks: it waits, and the list
    -- is the one from before without it. Waking it makes it ready, at the end of that list, and its
    -- group is scheduled: if it was before, the scheduler is as it was, and if not it is enqueued.
    -- The other groups and tasks are as they were.
    pub block_then_wake :
        (m1 : Manager) × (m2 : Manager) × ((about_to_block m >>= block) ≡ some (true, m1))
        × (m1.tasks m.current_task ≡ some (record task { block_flag = true; state = wait }))
        × (m1.groups task.group_id ≡ some (record group { ready_tasks = front ++ back }))
        × (unblock m.current_task m1 ≡ some m2)
        × (m2.tasks m.current_task ≡ some (record task { block_flag = false; state = ready }))
        × (m2.groups task.group_id
            ≡ some (record group {
              scheduled = true;
              ready_tasks = (front ++ back) ++ (m.current_task ∷ []);
            }))
        × ((t : ℕ) → t ≢ m.current_task → m2.tasks t ≡ m.tasks t)
        × ((g : ℕ) → g ≢ task.group_id → m2.groups g ≡ m.groups g)
        × (m2.scheduler ≡ (
            if group.scheduled
            then m.scheduler
            else enqueue task.group_id group.priority m.scheduler))
    block_then_wake = elim (Bool-cases group.scheduled) [
      | inl hs ↦ (
        asleep,
        awake,
        block-asleep,
        ground arith,
        ground arith,
        unblock-awake hs,
        ground arith,
        ground arith,
        λ t ne. ground arith,
        λ g ne. ground arith,
        ground arith,
      )
      | inr hs ↦ (
        asleep,
        queued,
        block-asleep,
        ground arith,
        ground arith,
        unblock-queued hs,
        ground arith,
        ground arith,
        λ t ne. ground arith,
        λ g ne. ground arith,
        ground arith,
      )
    ]
