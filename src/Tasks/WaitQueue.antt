-- ===== src/Tasks/WaitQueue.antt =====
-- `WaitQueue` of Kernel/Tasks/WaitQueue.h and WaitQueue.cpp. An item, which is an iterator in the
-- code, is the number that an entry was given when it was added.
pub mod Wake
pub mod Total
pub mod Grown
pub mod Runnable
mod Tests
use xp_os.Prelude.{
  ℕ, ◌+◌, ◌==◌, Bool, Option, none, some, List, [], ◌∷◌, ◌++◌, length, if◌then◌else◌,
}
use xp_os.Tasks.State.{Manager}
use xp_os.Prelude.Chain.{◌>>=◌}
use xp_os.Tasks.Manager.{about_to_block, unblock}

pub record WaitQueue : Type 0 where
  pub next_item : ℕ
  pub queue : List (ℕ × ℕ)

unfoldable pub add_to_queue : WaitQueue → Manager → Option (ℕ × WaitQueue × Manager)
add_to_queue w m = do
  m' ← about_to_block m
  some (
    w.next_item,
    record { next_item = w.next_item + 1; queue = w.queue ++ ((w.next_item, m.current_task) ∷ []) },
    m',
  )

-- The loop of `wake_queue`.
unfoldable pub unblock_all : List (ℕ × ℕ) → Manager → Option Manager
unblock_all [] m = some m
unblock_all (entry ∷ entries) m = unblock entry.1 m >>= unblock_all entries

unfoldable pub wake_queue : WaitQueue → Manager → Option (ℕ × Manager)
wake_queue w m = do m' ← unblock_all w.queue m; some (length w.queue, m')

unfoldable pub wake_one : WaitQueue → Manager → Option (ℕ × Manager)
wake_one w m = elim w.queue [
  | [] ↦ some (0, m)
  | entry ∷ _ ↦ (do m' ← unblock entry.1 m; some (1, m'))
]

unfoldable pub erase_item : ℕ → List (ℕ × ℕ) → List (ℕ × ℕ)
erase_item item [] = []
erase_item item (entry ∷ entries) =
    let rest = entry ∷ erase_item item entries in if entry.0 == item then entries else rest

abbrev pub remove_from_queue : ℕ → WaitQueue → WaitQueue
remove_from_queue item w = record w { queue = erase_item item w.queue }
