-- ===== src/Tasks/Mutex.antt =====
-- `Mutex` of Kernel/Tasks/Mutex.h and Mutex.cpp. Its own spinlock makes each half of `acquire`, and
-- the whole of `release`, one step.
pub mod Fifo
mod Tests
use xp_os.Prelude.{ℕ, Bool, true, false, Option, none, some, List, [], ◌∷◌, ◌++◌, if◌then◌else◌}
use xp_os.Tasks.State.{Manager}
use xp_os.Prelude.Chain.{◌>>=◌}
use xp_os.Tasks.Manager.{about_to_block, block, unblock}

pub record Mutex : Type 0 where
  pub acquired : Bool
  pub waiting_tasks : List ℕ

-- The constructor.
abbrev pub new_mutex : Mutex
new_mutex = record { acquired = false; waiting_tasks = [] }

-- `acquire` up to where it gives its spinlock back, and whether it calls `block` then.
unfoldable pub enter : Mutex → Manager → Option (Bool × Mutex × Manager)
enter x m =
    if x.acquired
    then (do
      m' ← about_to_block m
      some (true, record x { waiting_tasks = x.waiting_tasks ++ (m.current_task ∷ []) }, m'))
    else some (false, record x { acquired = true }, m)

-- `acquire` up to the `refresh` that `block` ends with, and whether that call is made. Before the
-- first task runs (`is_executing`) a mutex does nothing.
unfoldable pub acquire : Bool → Mutex → Manager → Option (Bool × Mutex × Manager)
acquire is_executing x m =
    if is_executing
    then (do
      entered ← enter x m
      if entered.0
          then (do blocked ← block entered.2; some (blocked.0, entered.1, blocked.1))
          else some (false, entered.1, entered.2))
    else some (false, x, m)

-- The body of `release` by the list of waiting tasks: the first of them is woken.
unfoldable pub hand_over : List ℕ → Mutex → Manager → Option (Bool × Mutex × Manager)
hand_over [] x m = some (false, record x { acquired = false }, m)
hand_over (tid ∷ rest) x m = do
  m' ← unblock tid m
  some (true, record x { waiting_tasks = rest }, m')

-- `release` up to its `refresh`, and whether that call is made.
unfoldable pub release : Bool → Mutex → Manager → Option (Bool × Mutex × Manager)
unfolding hand_over
release is_executing x m =
    if is_executing then hand_over x.waiting_tasks x m else some (false, x, m)
