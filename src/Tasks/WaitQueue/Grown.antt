-- ===== src/Tasks/WaitQueue/Grown.antt =====
-- What waking a task does to the groups: they keep their tasks, and get more.
use xp_os.Prelude.{
  ℕ, ◌≡◌, refl, ap, sym, ◌∙◌, true, false, Option, some, List, [], ◌∷◌, ◌++◌, ◌==◌, Bool-cases, inl,
  inr, ==→eq, ==→ne,
}
use mathlib.Core.Path.{subst}
use mathlib.Core.List.{Memᴰ}
use mathlib.Core.List.Memᴰ
use xp_os.Prelude.Map.{update, update_self, update_ne}
use xp_os.Tasks.State.{Task, Group, Manager}
use xp_os.Tasks.Manager.{is_ready}

-- The group of a task has it on its ready list, and is scheduled.
pub record IsListed (m : Manager) (tid group_id : ℕ) : Type 0 where
  pub group : Group
  pub member : m.groups group_id ≡ some group
  pub listed : Memᴰ tid group.ready_tasks
  pub scheduled : group.scheduled ≡ true

-- The manager has the task and its group, and if the task is ready it is listed there.
pub record IsConsistent (m : Manager) (tid : ℕ) : Type 0 where
  pub task : Task
  pub found : m.tasks tid ≡ some task
  pub group : Group
  pub member : m.groups task.group_id ≡ some group
  pub if_ready : is_ready task.state ≡ true → IsListed m tid task.group_id

-- The task is ready, will not block at once, and is listed in its group.
pub record IsRunnable (m : Manager) (tid : ℕ) : Type 0 where
  pub task : Task
  pub found : m.tasks tid ≡ some task
  pub flag : task.block_flag ≡ false
  pub runs : is_ready task.state ≡ true
  pub home : IsListed m tid task.group_id

-- A group that was there is there, with the tasks that it had, and scheduled if it was.
pub record Grown (groups : ℕ → Option Group) (g : ℕ) (old : Group) : Type 0 where
  pub group : Group
  pub there : groups g ≡ some group
  pub keeps : (t : ℕ) → Memᴰ t old.ready_tasks → Memᴰ t group.ready_tasks
  pub stays : old.scheduled ≡ true → group.scheduled ≡ true

unfoldable pub AllGrown : (ℕ → Option Group) → (ℕ → Option Group) → Type 0
AllGrown before after = (g : ℕ) (old : Group) → before g ≡ some old → Grown after g old

pub unchanged : (groups : ℕ → Option Group) → AllGrown groups groups
unfolding AllGrown
unchanged groups g old e = record { group = old; there = e; keeps = λ t i. i; stays = λ s. s }

same_some {ℓ} : {A : Type ℓ} → (o : Option A) (x y : A) → o ≡ some x → o ≡ some y → x ≡ y
same_some o x y h k = cc (h, k)

-- One group is replaced by one that has grown.
pub update-AllGrown :
    (groups : ℕ → Option Group) (g : ℕ) (was new : Group)
    → groups g ≡ some was
    → ((t : ℕ) → Memᴰ t was.ready_tasks → Memᴰ t new.ready_tasks)
    → (was.scheduled ≡ true → new.scheduled ≡ true)
    → AllGrown groups (update groups g new)
unfolding AllGrown
update-AllGrown groups g was new there keeps stays h old e = elim (Bool-cases (h == g)) [
  | inl t ↦
      let is_was : was ≡ old =
        same_some (groups g) was old there (ap groups (sym (==→eq h g t)) ∙ e) in
      record {
        group = new;
        there = ap (update groups g new) (==→eq h g t) ∙ update_self groups g new;
        keeps = λ u i. keeps u (subst (λ w. Memᴰ u w.ready_tasks) (sym is_was) i);
        stays = λ s. stays (ap (λ w. w.scheduled) is_was ∙ s);
      }
  | inr n ↦ record {
    group = old;
    there = update_ne groups g new h (==→ne h g n) ∙ e;
    keeps = λ u i. i;
    stays = λ s. s;
  }
]

pub grown-IsListed :
    (m m' : Manager) (tid g : ℕ)
    → AllGrown m.groups m'.groups
    → IsListed m tid g
    → IsListed m' tid g
unfolding AllGrown
grown-IsListed m m' tid g grown l =
    let new = grown g l.group l.member in
    record {
      group = new.group;
      member = new.there;
      listed = new.keeps tid l.listed;
      scheduled = new.stays l.scheduled;
    }

pub mem_last {ℓ} : {A : Type ℓ} → (x : A) (xs : List A) → Memᴰ x (xs ++ (x ∷ []))
mem_last x [] = Memᴰ.head refl
mem_last x (y ∷ xs) = Memᴰ.tail (mem_last x xs)

pub mem_before {ℓ} : {A : Type ℓ} → (t x : A) (xs : List A) → Memᴰ t xs → Memᴰ t (xs ++ (x ∷ []))
mem_before t x [] i = absurd (Memᴰ.not-nil i)
mem_before t x (y ∷ xs) (Memᴰ.head e) = Memᴰ.head e
mem_before t x (y ∷ xs) (Memᴰ.tail i) = Memᴰ.tail (mem_before t x xs i)
