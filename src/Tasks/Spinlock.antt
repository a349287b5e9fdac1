-- ===== src/Tasks/Spinlock.antt =====
-- `Spinlock` of Kernel/Tasks/Spinlock.h and Spinlock.cpp, on one processor: its interrupt flag, the two
-- static variables, and the locks by their addresses. `none` is a spin that never ends.
pub mod Held
pub mod Restore
mod Tests
use xp_os.Prelude.{
  ℕ, ◌+◌, ◌-◌, ◌^◌, Bool, true, false, ◌||◌, ◌&&◌, Option, none, some, ◌==◌, if◌then◌else◌,
}
use xp_os.Prelude.Word.{u64}

pub record Processor : Type 0 where
  pub interrupt_flag : Bool
  pub cli : ℕ
  pub should_restore : Bool
  pub locked : ℕ → Bool

unfoldable pub push_cli : Processor → Processor
push_cli p = record p {
  interrupt_flag = false;
  cli = u64 (p.cli + 1);
  should_restore = if p.cli == 0 then p.interrupt_flag else p.should_restore;
}

unfoldable pub pop_cli : Processor → Processor
pop_cli p =
    let left = u64 (p.cli + (2 ^ 64 - 1)) in
    record p { cli = left; interrupt_flag = (left == 0 && p.should_restore) || p.interrupt_flag }

abbrev pub set_locked : ℕ → Bool → Processor → Processor
set_locked l value p = record p { locked = λ k. if k == l then value else p.locked k }

unfoldable pub acquire : ℕ → Processor → Option Processor
unfolding push_cli
acquire l p = if p.locked l then none else some (set_locked l true (push_cli p))

unfoldable pub try_acquire : ℕ → Processor → Bool × Processor
unfolding push_cli pop_cli
try_acquire l p =
    if p.locked l then (false, pop_cli (push_cli p)) else (true, set_locked l true (push_cli p))

unfoldable pub release : ℕ → Processor → Processor
unfolding pop_cli
release l p = pop_cli (set_locked l false p)
