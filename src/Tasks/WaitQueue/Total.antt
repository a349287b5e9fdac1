-- ===== src/Tasks/WaitQueue/Total.antt =====
-- Waking a queue succeeds where its tasks and their groups are known to the task manager.
use xp_os.Prelude.{
  ℕ, ◌≡◌, refl, ap, ◌∙◌, true, false, Option, some, List, [], ◌∷◌, ◌++◌, ◌==◌, length, Bool-cases,
  inl, inr, ==→eq, ==→ne, eq→==,
}
use xp_os.Prelude.All.{All, All-mono}
use xp_os.Prelude.Map.{update, update_self, update_ne}
use xp_os.Tasks.State.{ready, Task, Group, Manager}
use xp_os.Prelude.Chain.{◌>>=◌}
use xp_os.Tasks.Scheduler.{enqueue, schedule_group, add_group_to_queue}
use xp_os.Tasks.Manager.{unblock, schedule_if_needed, is_ready}
use xp_os.Tasks.WaitQueue.{WaitQueue, unblock_all, wake_queue}
use xp_os.Tasks.WaitQueue.Wake.{IsAwake, Unblocks-IsAwake, unblock-Unblocks, unblock_all-IsAwake}

record IsPresent (groups : ℕ → Option Group) (g : ℕ) : Type 0 where
  group : Group
  there : groups g ≡ some group

-- The manager has the task and its group.
pub record IsKnown (m : Manager) (tid : ℕ) : Type 0 where
  pub task : Task
  pub found : m.tasks tid ≡ some task
  pub group : Group
  pub member : m.groups task.group_id ≡ some group

update-IsPresent :
    (groups : ℕ → Option Group) (g : ℕ) (new : Group) (h : ℕ)
    → IsPresent groups h
    → IsPresent (update groups g new) h
update-IsPresent groups g new h p = elim (Bool-cases (h == g)) [
  | inl e ↦ record {
    group = new;
    there = ap (update groups g new) (==→eq h g e) ∙ update_self groups g new;
  }
  | inr e ↦ record { group = p.group; there = update_ne groups g new h (==→ne h g e) ∙ p.there }
]

-- A step that writes one task, in the same group, and keeps all groups, keeps what is known.
IsKnown-written :
    (m m' : Manager) (tid : ℕ) (task new : Task)
    → m.tasks tid ≡ some task
    → new.group_id ≡ task.group_id
    → m'.tasks ≡ update m.tasks tid new
    → ((g : ℕ) → IsPresent m.groups g → IsPresent m'.groups g)
    → (t : ℕ) → IsKnown m t
    → IsKnown m' t
IsKnown-written m m' tid task new found same written groups t k = elim (Bool-cases (t == tid)) [
  | inl e ↦
      let old = groups k.task.group_id (record { group = k.group; there = k.member }) in
      record {
        task = new;
        found =
            ap (λ f. f t) written
            ∙ ap (update m.tasks tid new) (==→eq t tid e)
            ∙ update_self m.tasks tid new;
        group = old.group;
        member = ap m'.groups (same ∙ group_of e) ∙ old.there;
      }
  | inr e ↦
      let old = groups k.task.group_id (record { group = k.group; there = k.member }) in
      record {
        task = k.task;
        found = ap (λ f. f t) written ∙ update_ne m.tasks tid new t (==→ne t tid e) ∙ k.found;
        group = old.group;
        member = old.there;
      }
]
  where
    tasks_equal : (s u : Task) (o : Option Task) → o ≡ some s → o ≡ some u → s ≡ u
    tasks_equal s u o h l = cc (h, l)

    group_of : (t == tid) ≡ true → task.group_id ≡ k.task.group_id
    group_of e =
        ap (λ s. s.group_id)
          (tasks_equal task k.task (m.tasks t) (ap m.tasks (==→eq t tid e) ∙ found) k.found)

record Unblocked (m : Manager) (tid : ℕ) : Type 0 where
  after : Manager
  done : unblock tid m ≡ some after
  known : (t : ℕ) → IsKnown m t → IsKnown after t

module _ (tid : ℕ) (m : Manager) (k : IsKnown m tid) where
  abbrev stays : Manager
  stays = record m { tasks = update m.tasks tid (record k.task { block_flag = false }) }

  abbrev joined : Group
  joined = record k.group { ready_tasks = k.group.ready_tasks ++ (tid ∷ []) }

  abbrev joins : Manager
  joins = record m {
    tasks = update m.tasks tid (record k.task { block_flag = false; state = ready });
    groups = update m.groups k.task.group_id joined;
  }

  abbrev queued : Manager
  queued = record joins {
    groups = update joins.groups k.task.group_id (record joined { scheduled = true });
    scheduler = enqueue k.task.group_id k.group.priority m.scheduler;
  }

  stays_done : is_ready k.task.state ≡ true → unblock tid m ≡ some stays
  unfolding unblock
  stays_done r = rw (k.found, r) refl

  joins_done : is_ready k.task.state ≡ false → k.group.scheduled ≡ true → unblock tid m ≡ some joins
  unfolding unblock schedule_if_needed
  joins_done r s = rw (k.found, r, k.member, s) refl

  queued_done :
      is_ready k.task.state ≡ false → k.group.scheduled ≡ false → unblock tid m ≡ some queued
  unfolding unblock schedule_if_needed schedule_group add_group_to_queue
  queued_done r s = rw (k.found, r, k.member, s, eq→== k.task.group_id k.task.group_id refl) refl

  unblock-Unblocked : Unblocked m tid
  unblock-Unblocked = elim (Bool-cases (is_ready k.task.state)) [
    | inl r ↦ record {
      after = stays;
      done = stays_done r;
      known =
          IsKnown-written m stays tid k.task (record k.task { block_flag = false }) k.found refl
            refl (λ g p. p);
    }
    | inr r ↦ elim (Bool-cases k.group.scheduled) [
      | inl s ↦ record {
        after = joins;
        done = joins_done r s;
        known =
            IsKnown-written m joins tid k.task (record k.task { block_flag = false; state = ready })
              k.found refl refl (λ g p. update-IsPresent m.groups k.task.group_id joined g p);
      }
      | inr s ↦ record {
        after = queued;
        done = queued_done r s;
        known =
            IsKnown-written m queued tid k.task
              (record k.task { block_flag = false; state = ready }) k.found refl refl
              (λ g p.
                update-IsPresent joins.groups k.task.group_id (record joined { scheduled = true }) g
                  (update-IsPresent m.groups k.task.group_id joined g p));
      }
    ]
  ]

-- One task of which that is known is unblocked.
pub unblock_total :
    (tid : ℕ) (m : Manager)
    → IsKnown m tid
    → (m' : Manager) × (unblock tid m ≡ some m') × IsAwake m' tid
unblock_total tid m k =
    let u = unblock-Unblocked tid m k in
    (u.after, u.done, Unblocks-IsAwake tid m u.after (unblock-Unblocks tid m u.after u.done))

unblock_all_total :
    (entries : List (ℕ × ℕ)) (m : Manager)
    → All (λ entry. IsKnown m entry.1) entries
    → (m' : Manager) × (unblock_all entries m ≡ some m')
unfolding unblock_all
unblock_all_total [] m h = (m, refl)
unblock_all_total (entry ∷ entries) m h =
    let u = unblock-Unblocked entry.1 m h.0 in
    let (m', e) = unblock_all_total entries u.after (
      All-mono (λ entry. IsKnown m entry.1) (λ entry. IsKnown u.after entry.1) entries
        (λ entry k. u.known entry.1 k) h.1) in
    (m', ap (λ o. o >>= unblock_all entries) u.done ∙ e)

-- Waking a queue of tasks that the manager knows, with their groups, succeeds, says how many they
-- are, and leaves each of them awake.
pub wake_queue_total :
    (w : WaitQueue) (m : Manager)
    → All (λ entry. IsKnown m entry.1) w.queue
    → (m' : Manager) × (wake_queue w m ≡ some (length w.queue, m'))
      × All (λ entry. IsAwake m' entry.1) w.queue
unfolding wake_queue
wake_queue_total w m h =
    let (m', e) = unblock_all_total w.queue m h in
    (
      m',
      ap (λ o. o >>= λ after. some (length w.queue, after)) e,
      unblock_all-IsAwake w.queue m m' e,
    )
