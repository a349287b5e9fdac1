-- ===== src/Pipes/LocalSocket/Tests.antt =====
-- Socket 100 is connected to socket 200. Tasks 3 and 8 use them.
use xp_os.Prelude.{
  ◌<◌, ℕ, min, ◌≡◌, refl, Bool, true, false, List, [], ◌∷◌, ◌++◌, Option, none, some, ◌==◌,
  if◌then◌else◌, length, take, arith,
}
use xp_os.Prelude.All.{All}
use xp_os.Common.CircularBuffer.{FixedCircularBuffer, is_queue_empty, is_queue_full}
use xp_os.Common.CircularBuffer.Copies.{contents}
use xp_os.Tasks.State.{ready, Task, Group, Manager}
use xp_os.Tasks.Manager.{get_current_task}
use xp_os.Tasks.WaitQueue.{WaitQueue, erase_item}
use xp_os.Tasks.WaitQueue.Wake.{IsAwake}
use xp_os.Pipes.LocalSocket.{LocalSocket, Sockets, set_socket, returns, close, accept_end}
use xp_os.Pipes.LocalSocket.Accepts.{accept_end-links}
use xp_os.Pipes.LocalSocket.Stream.{read_round, read, write_round, write}
use xp_os.Pipes.LocalSocket.Stream.Received.{write_then_read}
use xp_os.Pipes.LocalSocket.Stream.Waits.{marked, read_leaves_entry, write-close}

abbrev empty_buffer : FixedCircularBuffer
empty_buffer = record { queue_front = 0; queue_back = 0; queue = 0 ∷ 0 ∷ 0 ∷ 0 ∷ [] }

abbrev no_tasks : WaitQueue
no_tasks = record { next_item = 0; queue = [] }

abbrev end_point : Option ℕ → Bool → LocalSocket
end_point endpoint should_not_block = record {
  identifier = [];
  queue = empty_buffer;
  endpoint = endpoint;
  binded = false;
  connected = true;
  listening = false;
  should_not_block = should_not_block;
  tid = 8;
  read_wait_queue = record { next_item = 1; queue = (0, 3) ∷ [] };
  write_wait_queue = no_tasks;
  connection_queue = [];
}

abbrev listener : LocalSocket
listener = record (end_point none false) { listening = true; connection_queue = 200 ∷ [] }

abbrev task_of : ℕ → Task
task_of tid = record { tid = tid; priority = 512; state = ready; group_id = 2; block_flag = false }

abbrev group : Group
group = record { group_id = 2; priority = 512; scheduled = true; ready_tasks = 3 ∷ 8 ∷ [] }

abbrev manager : Manager
manager = record {
  scheduler_changing_task = false;
  task_count = 9;
  group_count = 2;
  current_task = 3;
  tasks = λ t. if t == 3 then some (task_of 3) else (if t == 8 then some (task_of 8) else none);
  groups = λ g. if g == 2 then some group else none;
  sleeping_tasks = [];
  scheduler = record {
    queue0 = [];
    queue1 = [];
    queue2 = record { buffer = []; current_list = 0; size = 0 };
    group_slice_start_time = 0;
    group_slice_end_time = 15;
  };
}

abbrev sockets : LocalSocket → LocalSocket → Sockets
sockets first second = record {
  socket = λ s.
      if s == 100
      then some first
      else (if s == 200
          then some second
          else (if s == 300 then some (end_point none false) else none));
  bind_map = [];
  manager = manager;
  events = [];
}

abbrev connected_pair : Sockets
connected_pair = sockets (end_point (some 200) false) (end_point (some 100) false)

write_then_read_example :
    (n : ℕ) × (mid : Sockets) × (k : ℕ) × (bytes : List ℕ) × (after : Sockets) × (write_round 4
        false 100 2
        (7 ∷ 8 ∷ [])
        0
        connected_pair
      ≡ some (returns n mid))
    × (0 < n)
    × All (λ entry. IsAwake mid.manager entry.1) (end_point (some 200) false).read_wait_queue.queue
    × (read_round 4 100 5 0 mid ≡ some (returns (k, bytes) after))
    × (k ≡ min 5 (length (contents 4 empty_buffer ++ take n (7 ∷ 8 ∷ []))))
    × (bytes ≡ take k (contents 4 empty_buffer ++ take n (7 ∷ 8 ∷ [])))
unfolding is_queue_full erase_item
write_then_read_example =
    write_then_read 4 false 100 2 5 (7 ∷ 8 ∷ []) 0 0 connected_pair (end_point (some 200) false)
      refl refl refl (record { storage = refl; front_in = omega arith; back_in = omega arith })
      (omega arith) (omega arith) (omega arith)
      (record { task = task_of 3; found = refl; group = group; member = refl }, tt) refl

abbrev no_wait_pair : Sockets
no_wait_pair = sockets (end_point (some 200) true) (end_point (some 100) true)

read_leaves_entry_example :
    read 4 100 5 no_wait_pair
    ≡ some (
        returns
          (0, [])
          (record (set_socket 100
            (record (end_point (some 200) true) {
              read_wait_queue = record { next_item = 2; queue = (0, 3) ∷ (1, 3) ∷ [] };
            })
            no_wait_pair) { manager = marked 4 manager (task_of 3) }))
unfolding is_queue_empty get_current_task
read_leaves_entry_example =
    read_leaves_entry 4 100 5 no_wait_pair (end_point (some 200) true) (task_of 3) refl refl refl
      refl refl

write-close_example :
    (after : Sockets) × (close 200 connected_pair ≡ some after)
    × (write 4 100 1 (7 ∷ []) after ≡ none)
write-close_example =
    write-close 4 100 200 1 (7 ∷ []) connected_pair (end_point (some 200) false)
      (end_point (some 100) false) (omega arith) refl refl refl

abbrev requested : Sockets
requested = sockets listener (end_point none false)

accept_end-links_example :
    (after : Sockets) × (accept_end 100 300 requested ≡ some (true, after))
    × (after.socket 100 ≡ some (record listener { connection_queue = [] }))
    × (after.socket 300
        ≡ some (record (end_point none false) { endpoint = some 200; connected = true }))
    × (after.socket 200 ≡ some (record (end_point none false) { endpoint = some 300 }))
    × IsAwake after.manager 8
accept_end-links_example =
    accept_end-links 100 300 200 requested listener (end_point none false) (end_point none false) []
      refl refl refl (omega arith) (omega arith) (omega arith) refl
      (record { task = task_of 8; found = refl; group = group; member = refl })
