-- ===== src/Tasks/Spinlock/Restore.antt =====
-- Interrupts are off while a lock is held, and as before once none is.
use xp_os.Prelude.{
  ne→==, eq→==, ==→eq, ==→ne, ◌≤◌, ℕ, suc, ◌+◌, ◌-◌, ◌<◌, ◌^◌, ◌≡◌, ◌≢◌, refl, arith, Bool, true,
  false, none, some, ◌==◌, ◌||◌, ◌&&◌, Bool-cases, inl, inr, if_true, if_false, ◌∙◌, ap, sym, List,
  [], ◌∷◌, ◌++◌, length, if◌then◌else◌,
}
use mathlib.Core.Path.{subst}
use xp_os.Prelude.Word.{u64}
use xp_os.Tasks.Spinlock.Held.{Runs, start, acquires, takes, fails, releases, is_in, Runs-locked}
use xp_os.Tasks.Spinlock.{Processor, push_cli, pop_cli, set_locked, acquire, try_acquire, release}

-- The flag is `flag` where no lock is held; where one is, it is off, and `flag` is to be restored.
pub record IsGuarded (flag : Bool) (p : Processor) : Type 0 where
  pub idle : p.cli ≡ 0 → p.interrupt_flag ≡ flag
  pub busy : p.cli ≢ 0 → (p.interrupt_flag ≡ false) × (p.should_restore ≡ flag)

push_cli-IsGuarded :
    (flag : Bool) (p : Processor)
    → p.cli + 1 < 2 ^ 64
    → IsGuarded flag p
    → IsGuarded flag (push_cli p) × ((push_cli p).cli ≡ p.cli + 1)
unfolding push_cli
push_cli-IsGuarded flag p room g =
    let counted : u64 (p.cli + 1) ≡ p.cli + 1 = omega (arith, room) in
    (
      record {
        idle = λ e. absurd (omega (arith, e, counted));
        busy = λ _. (
          refl,
          elim (Bool-cases (p.cli == 0)) [
            | inl t ↦
                if_true (p.cli == 0) p.interrupt_flag p.should_restore t ∙ g.idle (==→eq p.cli 0 t)
            | inr f ↦
                if_false (p.cli == 0) p.interrupt_flag p.should_restore f
                ∙ (g.busy (==→ne p.cli 0 f)).1
          ],
        );
      },
      counted,
    )

restored : (a b c : Bool) → a ≡ true → c ≡ false → ((a && b) || c) ≡ b
restored a b c h k = ground arith

still_off : (a b c : Bool) → a ≡ false → c ≡ false → ((a && b) || c) ≡ false
still_off a b c h k = ground arith

pop_cli-IsGuarded :
    (flag : Bool) (p : Processor)
    → p.cli < 2 ^ 64
    → 0 < p.cli
    → IsGuarded flag p
    → IsGuarded flag (pop_cli p) × ((pop_cli p).cli ≡ p.cli - 1)
unfolding pop_cli
pop_cli-IsGuarded flag p room held g =
    let left : ℕ = u64 (p.cli + (2 ^ 64 - 1)) in
    let counted : left ≡ p.cli - 1 = omega (arith, room, held) in
    let (off, kept) = g.busy (λ e. absurd (omega (arith, e, held))) in
    (
      record {
        idle =
            λ e. restored (left == 0) p.should_restore p.interrupt_flag (eq→== left 0 e) off ∙ kept;
        busy = λ e.
            (still_off (left == 0) p.should_restore p.interrupt_flag (ne→== left 0 e) off, kept);
      },
      counted,
    )

-- What the calls keep: the two flags are guarded, and the locks that are held are counted.
record Kept (flag : Bool) (n held : ℕ) (p : Processor) : Type 0 where
  guarded : IsGuarded flag p
  counted : p.cli ≡ held
  few : held ≤ n

set_locked-Kept :
    (flag : Bool) (n held l : ℕ) (value : Bool) (p : Processor)
    → Kept flag n held p
    → Kept flag n held (set_locked l value p)
set_locked-Kept flag n held l value p k = record {
  guarded = record { idle = k.guarded.idle; busy = k.guarded.busy };
  counted = k.counted;
  few = k.few;
}

push_cli-Kept :
    (flag : Bool) (n held : ℕ) (p : Processor)
    → n + 1 < 2 ^ 64
    → Kept flag n held p
    → Kept flag (suc n) (suc held) (push_cli p)
push_cli-Kept flag n held p room k =
    let (guarded, counted) =
      push_cli-IsGuarded flag p (omega (arith, room, k.few, k.counted)) k.guarded in
    record {
      guarded = guarded;
      counted = omega (arith, counted, k.counted);
      few = omega (arith, k.few);
    }

pop_cli-Kept :
    (flag : Bool) (n held : ℕ) (p : Processor)
    → suc n < 2 ^ 64
    → suc held ≤ suc n
    → Kept flag (suc n) (suc held) p
    → Kept flag (suc n) held (pop_cli p)
pop_cli-Kept flag n held p room few k =
    let (guarded, counted) =
      pop_cli-IsGuarded flag p (omega (arith, room, k.few, k.counted)) (omega (arith, k.counted))
        k.guarded in
    record {
      guarded = guarded;
      counted = omega (arith, counted, k.counted);
      few = omega (arith, few);
    }

acquire-Kept :
    (flag : Bool) (n held l : ℕ) (p q : Processor)
    → n + 1 < 2 ^ 64
    → Kept flag n held p
    → acquire l p ≡ some q
    → Kept flag (suc n) (suc held) q
unfolding acquire
acquire-Kept flag n held l p q room k h = elim (Bool-cases (p.locked l)) [
  | inl t ↦ cc (h, if_true (p.locked l) none (some (set_locked l true (push_cli p))) t)
  | inr f ↦
      let e : set_locked l true (push_cli p) ≡ q =
        cc (h, if_false (p.locked l) none (some (set_locked l true (push_cli p))) f) in
      subst (Kept flag (suc n) (suc held)) e (
        set_locked-Kept flag (suc n) (suc held) l true (push_cli p)
          (push_cli-Kept flag n held p room k))
]

-- A try that takes the lock counts one more, and one that fails as many as before.
KeptTry : Bool → ℕ → ℕ → Bool × Processor → Type 0
KeptTry flag n held (taken, q) = Kept flag (suc n) (if taken then suc held else held) q

try_acquire-Kept :
    (flag : Bool) (n held l : ℕ) (p : Processor)
    → n + 1 < 2 ^ 64
    → Kept flag n held p
    → KeptTry flag n held (try_acquire l p)
unfolding try_acquire KeptTry
try_acquire-Kept flag n held l p room k =
    let pushed = push_cli-Kept flag n held p room k in
    elim (Bool-cases (p.locked l)) [
      | inl t ↦ rw t (
          pop_cli-Kept flag n held (push_cli p) (omega (arith, room)) (omega (arith, k.few)) pushed)
      | inr f ↦ rw f (set_locked-Kept flag (suc n) (suc held) l true (push_cli p) pushed)
    ]

release-Kept :
    (flag : Bool) (n held l : ℕ) (p : Processor)
    → suc n < 2 ^ 64
    → Kept flag n (suc held) p
    → Kept flag (suc n) held (release l p)
unfolding release
release-Kept flag n held l p room k =
    let freed = set_locked-Kept flag n (suc held) l false p k in
    pop_cli-Kept flag n held (set_locked l false p) room (omega (arith, k.few))
      (record { guarded = freed.guarded; counted = freed.counted; few = omega (arith, freed.few) })

length-released :
    (newer older : List ℕ) (l : ℕ) → length (newer ++ (l ∷ older)) ≡ suc (length (newer ++ older))
length-released [] older l = refl
length-released (k ∷ newer) older l = ap suc (length-released newer older l)

Runs-Kept :
    (flag : Bool) (p : Processor) (n : ℕ) (held : List ℕ) (q : Processor)
    → Runs p n held q
    → IsGuarded flag p
    → p.cli ≡ 0
    → n < 2 ^ 64
    → Kept flag n (length held) q
unfolding release KeptTry
Runs-Kept flag p _ _ _ start g z room = record { guarded = g; counted = z; few = omega arith }
Runs-Kept flag p _ _ r (acquires {n} {held} {q} run l e) g z room =
    acquire-Kept flag n (length held) l q r (omega (arith, room))
      (Runs-Kept flag p n held q run g z (omega (arith, room))) e
Runs-Kept flag p _ _ r (takes {n} {held} {q} run l e) g z room =
    subst (KeptTry flag n (length held)) e (
      try_acquire-Kept flag n (length held) l q (omega (arith, room))
        (Runs-Kept flag p n held q run g z (omega (arith, room))))
Runs-Kept flag p _ _ r (fails {n} {held} {q} run l e) g z room =
    subst (KeptTry flag n (length held)) e (
      try_acquire-Kept flag n (length held) l q (omega (arith, room))
        (Runs-Kept flag p n held q run g z (omega (arith, room))))
Runs-Kept flag p _ _ _ (releases {n} {q} newer older l run) g z room =
    let k = Runs-Kept flag p n (newer ++ (l ∷ older)) q run g z (omega (arith, room)) in
    release-Kept flag n (length (newer ++ older)) l q room
      (subst (λ m. Kept flag n m q) (length-released newer older l) k)

-- No lock is held, by the count and by the locks. After any calls of `acquire`, `try_acquire` and
-- `release`, fewer than 2 ^ 64, each `release` made of a lock that is held: the locks that are held
-- are locked and no others, the processor counts them, if there are none the interrupt flag is what
-- it was, and if there are some it is off.
pub Runs-restores :
    (p : Processor) (n : ℕ) (held : List ℕ) (q : Processor)
    → p.cli ≡ 0
    → ((k : ℕ) → p.locked k ≡ false)
    → Runs p n held q
    → n < 2 ^ 64
    → ((k : ℕ) → q.locked k ≡ is_in k held)
      × (q.cli ≡ length held)
      × (held ≡ [] → q.interrupt_flag ≡ p.interrupt_flag)
      × (held ≢ [] → q.interrupt_flag ≡ false)
Runs-restores p n held q none_held free run few =
    let k =
      Runs-Kept p.interrupt_flag p n held q run
        (record { idle = λ _. refl; busy = λ e. absurd (e none_held) }) none_held few in
    (
      Runs-locked p n held q run free,
      k.counted,
      λ e. k.guarded.idle (k.counted ∙ ap length e),
      λ ne. (k.guarded.busy (λ z. ne (no_length held (sym k.counted ∙ z)))).0,
    )
  where
    no_length : (held : List ℕ) → length held ≡ 0 → held ≡ []
    no_length [] e = refl
    no_length (l ∷ held) e = absurd (omega (arith, e))
