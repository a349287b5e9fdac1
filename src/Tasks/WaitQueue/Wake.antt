-- ===== src/Tasks/WaitQueue/Wake.antt =====
-- Waking a queue wakes every task in it.
use xp_os.Prelude.{
  if_true, if_false, ℕ, ◌≡◌, refl, ap, sym, ◌∙◌, true, false, Option, none, some, List, [], ◌∷◌,
  ◌++◌, ◌==◌, if◌then◌else◌, Bool-cases, inl, inr, ==→eq, ==→ne,
}
use mathlib.Core.Path.{subst}
use xp_os.Prelude.All.{All}
use xp_os.Prelude.Map.{update, update_self, update_ne}
use xp_os.Tasks.State.{ready, Task, Group, Manager}
use xp_os.Prelude.Chain.{◌>>=◌, bind_some}
use xp_os.Tasks.Scheduler.{enqueue, schedule_group, add_group_to_queue}
use xp_os.Tasks.Manager.{unblock, schedule_if_needed, is_ready}
use xp_os.Tasks.WaitQueue.{unblock_all}

-- The task is ready, and a call of `block` that it is about to make will return at once.
pub record IsAwake (m : Manager) (tid : ℕ) : Type 0 where
  pub task : Task
  pub found : m.tasks tid ≡ some task
  pub flag : task.block_flag ≡ false
  pub runs : is_ready task.state ≡ true

schedule_group-tasks :
    (gid : ℕ) (m m' : Manager) → schedule_group gid m ≡ some m' → m'.tasks ≡ m.tasks
unfolding schedule_group add_group_to_queue
schedule_group-tasks gid m m' h =
    let (group, _, e) = bind_some (m.groups gid) (λ group. some (scheduled group)) m' h in
    sym (ap tasks_of e)
  where
    tasks_of : Option Manager → ℕ → Option Task
    tasks_of none = m.tasks
    tasks_of (some n) = n.tasks

    scheduled : Group → Manager
    scheduled group = record m {
      groups = update m.groups gid (record group { scheduled = true });
      scheduler = enqueue gid group.priority m.scheduler;
    }

schedule_if_needed-tasks :
    (gid : ℕ) (group : Group) (m m' : Manager)
    → schedule_if_needed gid group m ≡ some m'
    → m'.tasks ≡ m.tasks
unfolding schedule_if_needed
schedule_if_needed-tasks gid group m m' h = elim (Bool-cases group.scheduled) [
  | inl e ↦ cc (h, if_true group.scheduled (some m) (schedule_group gid m) e)
  | inr e ↦
      schedule_group-tasks gid m m'
        (sym (if_false group.scheduled (some m) (schedule_group gid m) e) ∙ h)
]

-- Unblocking a task writes its entry, ready and with no block flag, and no other task's.
pub record Unblocks (tid : ℕ) (m m' : Manager) : Type 0 where
  pub task : Task
  pub flag : task.block_flag ≡ false
  pub runs : is_ready task.state ≡ true
  pub written : m'.tasks ≡ update m.tasks tid task

module _ (tid : ℕ) (m : Manager) where
  abbrev stays : Task → Manager
  stays task = record m { tasks = update m.tasks tid (record task { block_flag = false }) }

  abbrev joins : Task → Group → Manager
  joins task group = record m {
    tasks = update m.tasks tid (record task { block_flag = false; state = ready });
    groups =
        update m.groups task.group_id
          (record group { ready_tasks = group.ready_tasks ++ (tid ∷ []) });
  }

  abbrev wakes : Task → Option Manager
  wakes task =
      m.groups task.group_id >>= λ group. schedule_if_needed task.group_id group (joins task group)

  pub unblock-Unblocks : (m' : Manager) → unblock tid m ≡ some m' → Unblocks tid m m'
  unfolding unblock is_ready
  unblock-Unblocks m' h =
      let (task, _, e) =
        bind_some (m.tasks tid)
          (λ task. if is_ready task.state then some (stays task) else wakes task) m' h in
      elim (Bool-cases (is_ready task.state)) [
        | inl r ↦ record {
          task = record task { block_flag = false };
          flag = refl;
          runs = r;
          written = sym (
              ap tasks_of
                (sym (if_true (is_ready task.state) (some (stays task)) (wakes task) r) ∙ e));
        }
        | inr r ↦
            let (group, _, k) =
              bind_some (m.groups task.group_id)
                (λ group. schedule_if_needed task.group_id group (joins task group)) m'
                (sym (if_false (is_ready task.state) (some (stays task)) (wakes task) r) ∙ e) in
            record {
              task = record task { block_flag = false; state = ready };
              flag = refl;
              runs = refl;
              written = schedule_if_needed-tasks task.group_id group (joins task group) m' k;
            }
      ]
    where
      tasks_of : Option Manager → ℕ → Option Task
      tasks_of none = m.tasks
      tasks_of (some n) = n.tasks

-- Waking a task keeps those awake that are.
pub Unblocks-IsAwake : (tid : ℕ) (m m' : Manager) → Unblocks tid m m' → IsAwake m' tid
Unblocks-IsAwake tid m m' u = record {
  task = u.task;
  found = ap (λ f. f tid) u.written ∙ update_self m.tasks tid u.task;
  flag = u.flag;
  runs = u.runs;
}

Unblocks-keeps : (tid t : ℕ) (m m' : Manager) → Unblocks tid m m' → IsAwake m t → IsAwake m' t
Unblocks-keeps tid t m m' u w = elim (Bool-cases (t == tid)) [
  | inl e ↦ subst (IsAwake m') (sym (==→eq t tid e)) (Unblocks-IsAwake tid m m' u)
  | inr e ↦ record {
    task = w.task;
    found = ap (λ f. f t) u.written ∙ update_ne m.tasks tid u.task t (==→ne t tid e) ∙ w.found;
    flag = w.flag;
    runs = w.runs;
  }
]

unblock_all-keeps :
    (entries : List (ℕ × ℕ)) (t : ℕ) (m m' : Manager)
    → unblock_all entries m ≡ some m'
    → IsAwake m t
    → IsAwake m' t
unfolding unblock_all
unblock_all-keeps [] t m m' h w = subst (λ n. IsAwake n t) (cc h) w
unblock_all-keeps (entry ∷ entries) t m m' h w =
    let (m1, e, k) = bind_some (unblock entry.1 m) (unblock_all entries) m' h in
    unblock_all-keeps entries t m1 m' k
      (Unblocks-keeps entry.1 t m m1 (unblock-Unblocks entry.1 m m1 e) w)

pub unblock_all-IsAwake :
    (entries : List (ℕ × ℕ)) (m m' : Manager)
    → unblock_all entries m ≡ some m'
    → All (λ entry. IsAwake m' entry.1) entries
unfolding unblock_all
unblock_all-IsAwake [] m m' h = tt
unblock_all-IsAwake (entry ∷ entries) m m' h =
    let (m1, e, k) = bind_some (unblock entry.1 m) (unblock_all entries) m' h in
    (
      unblock_all-keeps entries entry.1 m1 m' k
          (Unblocks-IsAwake entry.1 m m1 (unblock-Unblocks entry.1 m m1 e)),
      unblock_all-IsAwake entries m1 m' k,
    )
