-- ===== src/Tasks/Mutex/Fifo.antt =====
-- A mutex is a queue of tasks, the first of which holds it.
use mathlib.Core.Path.{subst}
use xp_os.Prelude.{
  ℕ, ◌≡◌, ◌≢◌, refl, sym, ap, ◌∙◌, Bool, true, false, Option, none, some, List, [], ◌∷◌, ◌++◌,
  arith,
}
use xp_os.Prelude.Map.{update}
use xp_os.Tasks.State.{ready, Task, Manager}
use xp_os.Prelude.Chain.{◌>>=◌}
use xp_os.Tasks.Manager.{about_to_block, block, unblock}
use xp_os.Tasks.Mutex.{Mutex, new_mutex, enter, hand_over, release}

-- What a mutex goes through, whatever the task manager does in between: the tasks that entered it
-- and have not been released, oldest first, and the mutex.
pub data Run : List ℕ → Mutex → Type 0 where
  start : Run [] new_mutex
  enters :
      {q : List ℕ} {x : Mutex} (m : Manager) (x' : Mutex) (must_block : Bool) (m' : Manager)
      → Run q x
      → enter x m ≡ some (must_block, x', m')
      → Run (q ++ (m.current_task ∷ [])) x'
  releases :
      {q : List ℕ} {x : Mutex} (holder : ℕ) (m : Manager) (x' : Mutex) (refreshes : Bool)
      (m' : Manager)
      → Run (holder ∷ q) x
      → release true x m ≡ some (refreshes, x', m')
      → Run q x'

-- The mutex that stands for a queue.
abbrev pub mutex_of : List ℕ → Mutex
mutex_of [] = new_mutex
mutex_of (holder ∷ waiting) = record { acquired = true; waiting_tasks = waiting }

result_of :
    (b c : Bool) (x x' : Mutex) (m' : Manager) (o : Option Manager)
    → ◌>>=◌ {B = Bool × Mutex × Manager} o (λ a. some (c, x, a)) ≡ some (b, x', m')
    → x' ≡ x
result_of b c x x' m' none e = cc
result_of b c x x' m' (some v) e = cc

enter-mutex_of :
    (q : List ℕ) (m : Manager) (b : Bool) (x' : Mutex) (m' : Manager)
    → enter (mutex_of q) m ≡ some (b, x', m')
    → x' ≡ mutex_of (q ++ (m.current_task ∷ []))
unfolding enter
enter-mutex_of [] m b x' m' e = cc
enter-mutex_of (h ∷ q) m b x' m' e = result_of b true _ x' m' (about_to_block m) e

release-mutex_of :
    (h : ℕ) (q : List ℕ) (m : Manager) (b : Bool) (x' : Mutex) (m' : Manager)
    → release true (mutex_of (h ∷ q)) m ≡ some (b, x', m')
    → x' ≡ mutex_of q
unfolding release hand_over
release-mutex_of h [] m b x' m' e = cc
release-mutex_of h (t ∷ q) m b x' m' e = result_of b true _ x' m' (unblock t m) e

Run-mutex_of : {q : List ℕ} {x : Mutex} → Run q x → x ≡ mutex_of q
Run-mutex_of start = refl
Run-mutex_of (enters {q} m x' b m' r e) =
    enter-mutex_of q m b x' m' (ap (λ y. enter y m) (sym (Run-mutex_of r)) ∙ e)
Run-mutex_of (releases {q} h m x' b m' r e) =
    release-mutex_of h q m b x' m' (ap (λ y. release true y m) (sym (Run-mutex_of r)) ∙ e)

-- What a mutex with the queue `q` does next. With an empty queue, a task that enters holds the mutex
-- and goes on. Otherwise it joins the end of the queue and must block, and a release frees the mutex
-- if there is only a holder, or wakes the next task and keeps the mutex acquired for it.
abbrev pub Behaves : List ℕ → Mutex → Manager → Type 0
Behaves [] x m = enter x m ≡ some (false, mutex_of (m.current_task ∷ []), m)
Behaves (holder ∷ []) x m =
    (enter x m
      ≡ ◌>>=◌ {B = Bool × Mutex × Manager} (about_to_block m)
          (λ m'. some (true, mutex_of (holder ∷ m.current_task ∷ []), m')))
    × (release true x m ≡ some (false, new_mutex, m))
Behaves (holder ∷ next ∷ rest) x m =
    (enter x m
      ≡ ◌>>=◌ {B = Bool × Mutex × Manager} (about_to_block m)
          (λ m'. some (true, mutex_of (holder ∷ next ∷ rest ++ (m.current_task ∷ [])), m')))
    × (release true x m
        ≡ ◌>>=◌ {B = Bool × Mutex × Manager} (unblock next m)
            (λ m'. some (true, mutex_of (next ∷ rest), m')))

Behaves-mutex_of : (q : List ℕ) (m : Manager) → Behaves q (mutex_of q) m
unfolding enter release hand_over
Behaves-mutex_of [] m = refl
Behaves-mutex_of (holder ∷ []) m = (refl, refl)
Behaves-mutex_of (holder ∷ next ∷ rest) m = (refl, refl)

-- After any sequence of entries and releases, the tasks that entered and were not released form a
-- queue, oldest first, that the mutex serves in this order: the holder is the first, a task that
-- enters goes on at once only where the queue is empty and is last otherwise, and a release wakes
-- the second, for whom the mutex stays acquired, or frees the mutex if there is none.
pub mutex_serves_in_order : (q : List ℕ) (x : Mutex) (m : Manager) → Run q x → Behaves q x m
mutex_serves_in_order q x m r =
    subst (λ y. Behaves q y m) (sym (Run-mutex_of r)) (Behaves-mutex_of q m)

-- The task enters, the holder releases, the task calls `block`: it goes on, and holds the mutex.
abbrev pub GoesOn : Mutex → Manager → Type 0
GoesOn x m =
    (m1 : Manager) × (x1 : Mutex) × (m2 : Manager) × (enter x m ≡ some (true, x1, m1))
    × (release true x1 m1 ≡ some (true, mutex_of (m.current_task ∷ []), m2))
    × (block m2 ≡ some (false, m2))

GoesOn-mutex_of :
    (holder : ℕ) (m : Manager) (task : Task)
    → m.current_task ≢ 0
    → m.tasks m.current_task ≡ some task
    → task.state ≡ ready
    → GoesOn (mutex_of (holder ∷ [])) m
unfolding enter release hand_over about_to_block unblock block
GoesOn-mutex_of holder m task running found now_ready = (
  marked,
  record { acquired = true; waiting_tasks = m.current_task ∷ [] },
  record marked { tasks = update marked.tasks m.current_task (record task { block_flag = false }) },
  ground (arith, found),
  ground arith,
  ground arith,
)
  where
    marked : Manager
    marked = record m { tasks = update m.tasks m.current_task (record task { block_flag = true }) }

-- No wake-up is lost: where a mutex has a holder and nobody waits, and a running task enters it and
-- is overtaken by the release before it calls `block`, the task does not block and holds the mutex.
pub released_before_block :
    (holder : ℕ) (x : Mutex) (m : Manager) (task : Task)
    → Run (holder ∷ []) x
    → m.current_task ≢ 0
    → m.tasks m.current_task ≡ some task
    → task.state ≡ ready
    → GoesOn x m
released_before_block holder x m task r running found now_ready =
    subst (λ y. GoesOn y m) (sym (Run-mutex_of r))
      (GoesOn-mutex_of holder m task running found now_ready)
