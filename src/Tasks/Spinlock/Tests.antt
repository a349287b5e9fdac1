-- ===== src/Tasks/Spinlock/Tests.antt =====
-- A lock is taken, tried again, and released.
use xp_os.Prelude.{ℕ, List, [], length, ◌≡◌, ◌≢◌, refl, true, false, arith}
use xp_os.Tasks.Spinlock.{Processor, push_cli, pop_cli, acquire, try_acquire, release, set_locked}
use xp_os.Tasks.Spinlock.Held.{Runs, start, acquires, fails, releases, is_in}
use xp_os.Tasks.Spinlock.Restore.{Runs-restores}

abbrev idle : Processor
idle = record { interrupt_flag = true; cli = 0; should_restore = false; locked = λ _. false }

abbrev holding : Processor
holding = set_locked 1 true (push_cli idle)

abbrev refused : Processor
refused = (try_acquire 1 holding).1

abbrev released : Processor
released = release 1 refused

abbrev none_held : List ℕ
none_held = []

calls : Runs idle 3 [] released
unfolding acquire try_acquire push_cli pop_cli
calls = releases [] [] 1 (fails (acquires start 1 refl) 1 refl)

Runs-restores_example :
    ((k : ℕ) → released.locked k ≡ is_in k none_held)
    × (released.cli ≡ length none_held)
    × (none_held ≡ [] → released.interrupt_flag ≡ idle.interrupt_flag)
    × (none_held ≢ [] → released.interrupt_flag ≡ false)
Runs-restores_example = Runs-restores idle 3 none_held released refl (λ k. refl) calls (omega arith)

none_left : released.cli ≡ 0
unfolding release try_acquire push_cli pop_cli
none_left = refl
