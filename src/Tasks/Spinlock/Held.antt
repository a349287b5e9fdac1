-- ===== src/Tasks/Spinlock/Held.antt =====
-- Calls of the spinlocks one after the other, and which locks are held after them.
use xp_os.Prelude.{
  ℕ, suc, ◌≡◌, refl, ap, sym, ◌∙◌, Bool, true, false, none, some, List, [], ◌∷◌, ◌++◌, ◌==◌, ◌||◌,
  if◌then◌else◌, Bool-cases, inl, inr, if_true, if_false, ==→eq, eq→==,
}
use mathlib.Core.Path.{subst}
use xp_os.Tasks.Spinlock.{Processor, push_cli, pop_cli, set_locked, acquire, try_acquire, release}

-- Some calls one after the other, with their number and the locks that are held after them, those
-- that were taken by `acquire` or by a `try_acquire` that returned `true` and not released since.
-- Only a lock that is held is released.
pub data Runs (p : Processor) : ℕ → List ℕ → Processor → Type 0 where
  start : Runs p 0 [] p
  acquires :
      {n : ℕ} {held : List ℕ} {q r : Processor}
      → Runs p n held q
      → (l : ℕ) → acquire l q ≡ some r
      → Runs p (suc n) (l ∷ held) r
  takes :
      {n : ℕ} {held : List ℕ} {q r : Processor}
      → Runs p n held q
      → (l : ℕ) → try_acquire l q ≡ (true, r)
      → Runs p (suc n) (l ∷ held) r
  fails :
      {n : ℕ} {held : List ℕ} {q r : Processor}
      → Runs p n held q
      → (l : ℕ) → try_acquire l q ≡ (false, r)
      → Runs p (suc n) held r
  releases :
      {n : ℕ} {q : Processor} (newer older : List ℕ) (l : ℕ)
      → Runs p n (newer ++ (l ∷ older)) q
      → Runs p (suc n) (newer ++ older) (release l q)

-- Whether a lock is in a list.
unfoldable pub is_in : ℕ → List ℕ → Bool
is_in k [] = false
is_in k (l ∷ held) = (k == l) || is_in k held

abbrev IsDistinct : List ℕ → Type 0
IsDistinct [] = Unit
IsDistinct (l ∷ held) = (is_in l held ≡ false) × IsDistinct held

-- The locked locks are those in the list, each once.
record Agrees (held : List ℕ) (p : Processor) : Type 0 where
  agrees : (k : ℕ) → p.locked k ≡ is_in k held
  distinct : IsDistinct held

locks :
    (held : List ℕ) (l : ℕ) (p : Processor)
    → p.locked l ≡ false
    → Agrees held p
    → Agrees (l ∷ held) (set_locked l true p)
unfolding is_in
locks held l p free a = record {
  agrees = λ k. elim (Bool-cases (k == l)) [ inl t ↦ rw t refl | inr f ↦ rw f (a.agrees k) ];
  distinct = (sym (a.agrees l) ∙ free, a.distinct);
}

is_in-middle : (newer older : List ℕ) (l : ℕ) → is_in l (newer ++ (l ∷ older)) ≡ true
unfolding is_in
is_in-middle [] older l = rw (eq→== l l refl) refl
is_in-middle (x ∷ newer) older l = elim (Bool-cases (l == x)) [
  | inl t ↦ rw t refl
  | inr f ↦ rw f (is_in-middle newer older l)
]

not_again :
    (newer older : List ℕ) (x l : ℕ)
    → is_in x (newer ++ (l ∷ older)) ≡ false
    → (l == x) ≡ true
    → true ≡ false
not_again newer older x l out t =
    sym (is_in-middle newer older l) ∙ ap (λ y. is_in y (newer ++ (l ∷ older))) (==→eq l x t) ∙ out

is_in-released :
    (newer older : List ℕ) (l k : ℕ)
    → IsDistinct (newer ++ (l ∷ older))
    → is_in k (newer ++ older) ≡ (if k == l then false else is_in k (newer ++ (l ∷ older)))
unfolding is_in
is_in-released [] older l k d = elim (Bool-cases (k == l)) [
  | inl t ↦ rw t (ap (λ y. is_in y older) (==→eq k l t) ∙ d.0)
  | inr f ↦ rw f refl
]
is_in-released (x ∷ newer) older l k d =
    let further = is_in-released newer older l k d.1 in
    elim (Bool-cases (k == l)) [
      | inl t ↦ elim (Bool-cases (k == x)) [
        | inl u ↦
            rw (t, u) (not_again newer older x l d.0 (eq→== l x (sym (==→eq k l t) ∙ ==→eq k x u)))
        | inr g ↦ rw (t, g) (further ∙ if_true (k == l) false (is_in k (newer ++ (l ∷ older))) t)
      ]
      | inr f ↦ rw f (
          ap (λ z. (k == x) || z)
            (further ∙ if_false (k == l) false (is_in k (newer ++ (l ∷ older))) f))
    ]

out_of_both :
    (newer older : List ℕ) (l x : ℕ)
    → IsDistinct (newer ++ (l ∷ older))
    → is_in x (newer ++ (l ∷ older)) ≡ false
    → is_in x (newer ++ older) ≡ false
out_of_both newer older l x d out =
    is_in-released newer older l x d
    ∙ (elim (Bool-cases (x == l)) [ inl t ↦ rw t refl | inr f ↦ rw f out ])

released-IsDistinct :
    (newer older : List ℕ) (l : ℕ) → IsDistinct (newer ++ (l ∷ older)) → IsDistinct (newer ++ older)
released-IsDistinct [] older l d = d.1
released-IsDistinct (x ∷ newer) older l d =
    (out_of_both newer older l x d.1 d.0, released-IsDistinct newer older l d.1)

unlocks :
    (newer older : List ℕ) (l : ℕ) (p : Processor)
    → Agrees (newer ++ (l ∷ older)) p
    → Agrees (newer ++ older) (set_locked l false p)
unlocks newer older l p a = record {
  agrees = λ k.
      ap (λ z. if k == l then false else z) (a.agrees k)
      ∙ sym (is_in-released newer older l k a.distinct);
  distinct = released-IsDistinct newer older l a.distinct;
}

-- The flag, the count and the value to be restored have no part in which locks are held.
same_locks : (held : List ℕ) (p q : Processor) → q.locked ≡ p.locked → Agrees held p → Agrees held q
same_locks held p q e a = record {
  agrees = λ k. ap (λ f. f k) e ∙ a.agrees k;
  distinct = a.distinct;
}

acquire-Agrees :
    (held : List ℕ) (l : ℕ) (p q : Processor)
    → acquire l p ≡ some q
    → Agrees held p
    → Agrees (l ∷ held) q
unfolding acquire push_cli
acquire-Agrees held l p q h a = elim (Bool-cases (p.locked l)) [
  | inl t ↦ cc (h, if_true (p.locked l) none (some (set_locked l true (push_cli p))) t)
  | inr f ↦
      let e : set_locked l true (push_cli p) ≡ q =
        cc (h, if_false (p.locked l) none (some (set_locked l true (push_cli p))) f) in
      subst (Agrees (l ∷ held)) e
        (locks held l (push_cli p) f (same_locks held p (push_cli p) refl a))
]

-- A try that takes the lock holds it.
AgreesTry : ℕ → List ℕ → Bool × Processor → Type 0
AgreesTry l held (taken, q) = Agrees (if taken then l ∷ held else held) q

try_acquire-Agrees :
    (held : List ℕ) (l : ℕ) (p : Processor) → Agrees held p → AgreesTry l held (try_acquire l p)
unfolding try_acquire push_cli pop_cli AgreesTry
try_acquire-Agrees held l p a = elim (Bool-cases (p.locked l)) [
  | inl t ↦ rw t (same_locks held p (pop_cli (push_cli p)) refl a)
  | inr f ↦ rw f (locks held l (push_cli p) f (same_locks held p (push_cli p) refl a))
]

-- The locks that are held are locked, each held once, and no others are.
Runs-Agrees :
    (p : Processor) (n : ℕ) (held : List ℕ) (q : Processor)
    → Runs p n held q
    → ((k : ℕ) → p.locked k ≡ false)
    → Agrees held q
unfolding release pop_cli is_in AgreesTry
Runs-Agrees p _ _ _ start free = record { agrees = free; distinct = tt }
Runs-Agrees p _ _ r (acquires {n} {held} {q} run l e) free =
    acquire-Agrees held l q r e (Runs-Agrees p n held q run free)
Runs-Agrees p _ _ r (takes {n} {held} {q} run l e) free =
    subst (AgreesTry l held) e (try_acquire-Agrees held l q (Runs-Agrees p n held q run free))
Runs-Agrees p _ _ r (fails {n} {held} {q} run l e) free =
    subst (AgreesTry l held) e (try_acquire-Agrees held l q (Runs-Agrees p n held q run free))
Runs-Agrees p _ _ _ (releases {n} {q} newer older l run) free =
    let freed = unlocks newer older l q (Runs-Agrees p n (newer ++ (l ∷ older)) q run free) in
    same_locks (newer ++ older) (set_locked l false q) (pop_cli (set_locked l false q)) refl freed

pub Runs-locked :
    (p : Processor) (n : ℕ) (held : List ℕ) (q : Processor)
    → Runs p n held q
    → ((k : ℕ) → p.locked k ≡ false)
    → (k : ℕ) → q.locked k ≡ is_in k held
Runs-locked p n held q run free k = (Runs-Agrees p n held q run free).agrees k
