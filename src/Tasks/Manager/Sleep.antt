-- ===== src/Tasks/Manager/Sleep.antt =====
-- The queue of sleeping tasks: its head is the one that wakes last.
use xp_os.Prelude.{
  ℕ, ◌≤◌, ◌<◌, ◌≡◌, refl, ap, ◌∙◌, true, false, Option, some, List, [], ◌∷◌, arith, leb, Bool-cases,
  inl, inr, ◌⊎◌,
}
use mathlib.Core.Path.{fun_ext}
use mathlib.Core.List.{Memᴰ}
use mathlib.Core.List.Memᴰ
use xp_os.Prelude.All.{All, All-mono, All_of_mem}
use xp_os.Common.PriorityQueue.Order.{IsDescending}
use xp_os.Tasks.State.{SleepingTask, sleeping_gt, Manager}
use xp_os.Prelude.Chain.{◌>>=◌}
use xp_os.Tasks.Manager.{wake_sleepers, unblock}

-- The tasks of `q` woken one after the other.
unfoldable pub wake_all : List SleepingTask → Manager → Option Manager
wake_all [] m = some (record m { sleeping_tasks = [] })
wake_all (s ∷ rest) m = unblock s.tid (record m { sleeping_tasks = rest }) >>= wake_all rest

wake_due :
    (now : ℕ) (s : SleepingTask) (rest : List SleepingTask) (m : Manager)
    → s.wake_time ≤ now
    → wake_sleepers now (s ∷ rest) m
      ≡ (unblock s.tid (record m { sleeping_tasks = rest }) >>= wake_sleepers now rest)
unfolding wake_sleepers
wake_due now s rest m h =
    let due : leb s.wake_time now ≡ true = ground arith in rw (due, wake_sleepers)

wake_late :
    (now : ℕ) (s : SleepingTask) (rest : List SleepingTask) (m : Manager)
    → now < s.wake_time
    → wake_sleepers now (s ∷ rest) m ≡ some (record m { sleeping_tasks = s ∷ rest })
unfolding wake_sleepers
wake_late now s rest m h =
    let late : leb s.wake_time now ≡ false = ground arith in rw (late, wake_sleepers)

wake_sleepers_expired :
    (now : ℕ) (q : List SleepingTask) (m : Manager)
    → All (λ s. s.wake_time ≤ now) q
    → wake_sleepers now q m ≡ wake_all q m
unfolding wake_sleepers wake_all
wake_sleepers_expired now [] m h = refl
wake_sleepers_expired now (s ∷ rest) m h =
    wake_due now s rest m h.0
    ∙ ap (λ k. unblock s.tid (record m { sleeping_tasks = rest }) >>= k)
        (fun_ext (λ m'. wake_sleepers_expired now rest m' h.1))

before_head :
    (now : ℕ) (s : SleepingTask) (rest : List SleepingTask)
    → IsDescending sleeping_gt (s ∷ rest)
    → s.wake_time ≤ now
    → All (λ t. t.wake_time ≤ now) (s ∷ rest)
unfolding sleeping_gt
before_head now s rest h le = (
  le,
  All-mono (λ t. sleeping_gt t s ≡ false) (λ t. t.wake_time ≤ now) rest (λ t k. ground arith) h.0,
)

-- The loop of `refresh` over the sleeping tasks wakes all tasks of a queue of sleepers in descending order, or none: nothing changes
-- unless the head, which wakes last, is due.
pub wake_sleepers_all_or_none :
    (now : ℕ) (q : List SleepingTask) (m : Manager)
    → IsDescending sleeping_gt q
    → (wake_sleepers now q m ≡ wake_all q m)
      ⊎ (wake_sleepers now q m ≡ some (record m { sleeping_tasks = q }))
wake_sleepers_all_or_none now [] m h = inl (wake_sleepers_expired now [] m tt)
wake_sleepers_all_or_none now (s ∷ rest) m h = elim (Bool-cases (leb s.wake_time now)) [
  | inl due ↦ inl (wake_sleepers_expired now (s ∷ rest) m (before_head now s rest h (ground arith)))
  | inr late ↦ inr (wake_late now s rest m (ground arith))
]

late_head :
    (now : ℕ) (s late : SleepingTask) (rest : List SleepingTask)
    → IsDescending sleeping_gt (s ∷ rest)
    → Memᴰ late (s ∷ rest)
    → now < late.wake_time
    → now < s.wake_time
unfolding sleeping_gt
late_head now s late rest h (Memᴰ.head e) lt = omega (arith, ap (λ t. t.wake_time) e)
late_head now s late rest h (Memᴰ.tail i) lt =
    ground (arith, All_of_mem (λ t. sleeping_gt t s ≡ false) i h.0)

-- Where the queue of sleeping tasks is in the order that its pushes give it, the latest first, one
-- task in it whose time has not come keeps every other asleep, those included that are due: the loop
-- of `refresh` over the sleeping tasks wakes none, and leaves the manager as it is, with that queue.
pub late_sleeper_holds_all :
    (now : ℕ) (late : SleepingTask) (q : List SleepingTask) (m : Manager)
    → IsDescending sleeping_gt q
    → Memᴰ late q
    → now < late.wake_time
    → wake_sleepers now q m ≡ some (record m { sleeping_tasks = q })
late_sleeper_holds_all now late [] m h i lt = absurd (Memᴰ.not-nil i)
late_sleeper_holds_all now late (s ∷ rest) m h i lt =
    wake_late now s rest m (late_head now s late rest h i lt)
