-- ===== src/Pipes/LocalSocket/Missed.antt =====
-- A request that is accepted before the task that made it waits.
use xp_os.Prelude.{ℕ, ◌≡◌, ◌≢◌, refl, true, some, ne→==, eq→==}
use xp_os.Prelude.Map.{update, update_self}
use xp_os.Tasks.State.{wait, Task, Group, Manager}
use xp_os.Tasks.Manager.{get_current_task, about_to_block, erase_first, block}
use xp_os.Pipes.LocalSocket.{
  LocalSocket, Sockets, set_socket, waits, wait_in_block, wake_listener, connect_wait,
}

marked_then_blocked :
    (m : Manager) (task : Task) (group : Group)
    → m.current_task ≢ 0
    → m.tasks m.current_task ≡ some task
    → m.groups task.group_id ≡ some group
    → (m1 : Manager) × (m2 : Manager) × (about_to_block m ≡ some m1)
      × (block m1 ≡ some (true, m2))
      × (m2.groups task.group_id
          ≡ some (record group { ready_tasks = erase_first task.tid group.ready_tasks }))
      × (m2.tasks m.current_task ≡ some (record task { block_flag = true; state = wait }))
unfolding about_to_block block get_current_task
marked_then_blocked m task group runs found member =
    let marked : Task = record task { block_flag = true } in
    let off : Group = record group { ready_tasks = erase_first task.tid group.ready_tasks } in
    let m1 : Manager = record m { tasks = update m.tasks m.current_task marked } in
    let m2 : Manager = record m1 {
      tasks = update m1.tasks m.current_task (record marked { state = wait });
      groups = update m.groups task.group_id off;
    } in
    (
      m1,
      m2,
      rw (ne→== m.current_task 0 runs) (rw found refl),
      rw (ne→== m.current_task 0 runs, eq→== m.current_task m.current_task refl) (rw member refl),
      update_self m.groups task.group_id off,
      update_self m1.tasks m.current_task (record marked { state = wait }),
    )

-- A task has put its request in the list of a listening socket that no task waited at, and goes on
-- with the lock released, in any state: also in one where the request has been accepted. Then it
-- blocks: it is waiting, and off the ready list of its group.
pub connect_wait-blocks :
    (s remote : ℕ) (w : Sockets) (socket : LocalSocket) (task : Task) (group : Group)
    → w.socket s ≡ some socket
    → w.manager.current_task ≢ 0
    → w.manager.tasks w.manager.current_task ≡ some task
    → w.manager.groups task.group_id ≡ some group
    → (after : Sockets) × (connect_wait s remote 0 w ≡ some (waits true after))
      × (after.manager.groups task.group_id
          ≡ some (record group { ready_tasks = erase_first task.tid group.ready_tasks }))
      × (after.manager.tasks w.manager.current_task
          ≡ some (record task { block_flag = true; state = wait }))
unfolding connect_wait wake_listener wait_in_block
connect_wait-blocks s remote w socket task group found runs current member =
    let (m1, m2, marks, blocks, off, waiting) =
      marked_then_blocked w.manager task group runs current member in
    (
      record (set_socket s (record socket { connected = true }) w) { manager = m2 },
      rw found (rw marks (rw blocks refl)),
      off,
      waiting,
    )
