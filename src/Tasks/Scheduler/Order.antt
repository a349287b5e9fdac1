-- ===== src/Tasks/Scheduler/Order.antt =====
-- The three queues of the scheduler against one: the groups in the order in which they are handed
-- out.
use mathlib.Core.List.{map-append, append_assoc}
use xp_os.Prelude.{
  ℕ, ◌/◌, ◌%◌, ◌<◌, ◌≡◌, refl, sym, ap, ◌∙◌, true, some, List, [], ◌∷◌, ◌++◌, map, arith, ◌==◌,
  take, drop, take-append-drop, ◌⊎◌, inl, inr, Bool-cases, ==→eq, ==→ne,
}
use xp_os.Common.PriorityQueue.{push, top, pop, size, get_insert_iterator}
use xp_os.Common.PriorityQueue.Order.{StrictOrder, IsDescending, push_stable, push-IsDescending}
use xp_os.Tasks.VariableFrequencyBuffer.{VariableFrequencyBuffer}
use xp_os.Tasks.VariableFrequencyBuffer as Varfreq
use xp_os.Tasks.VariableFrequencyBuffer.Scan.{IsValid}
use xp_os.Tasks.VariableFrequencyBuffer.Row.{pending}
use xp_os.Tasks.VariableFrequencyBuffer.Refine.{get_next_refines, add_refines, pending_empty}
use xp_os.Tasks.State.{TaskPriorityItem, item_gt, sleeping_gt, MasterScheduler}
use xp_os.Tasks.Scheduler.{enqueue, next_group}

pub item_gt-StrictOrder : StrictOrder item_gt
unfolding item_gt
item_gt-StrictOrder = record {
  asymmetric = λ a b h. ground arith;
  not_trans = λ a b c h k. ground arith;
}

pub sleeping_gt-StrictOrder : StrictOrder sleeping_gt
unfolding sleeping_gt
sleeping_gt-StrictOrder = record {
  asymmetric = λ a b h. ground arith;
  not_trans = λ a b c h k. ground arith;
}

pub record IsOrderly (s : MasterScheduler) : Type 0 where
  pub descending0 : IsDescending item_gt s.queue0
  pub descending1 : IsDescending item_gt s.queue1
  pub ring_valid : IsValid 256 s.queue2

abbrev pub group_ids : List TaskPriorityItem → List ℕ
group_ids = map (λ item. item.group_id)

-- The groups in the order in which `next_group` hands them out.
unfoldable pub runnable : MasterScheduler → List ℕ
runnable s = group_ids s.queue0 ++ (group_ids s.queue1 ++ pending 256 s.queue2)

-- What a call of `next_group` does: it hands out the first runnable group and keeps the others in
-- order, or, where none is runnable, returns 0 with nothing changed.
abbrev pub HandsOut : MasterScheduler → Type 0
HandsOut s =
    ((runnable s ≡ []) × (next_group s ≡ some (0, s)))
    ⊎ ((gid : ℕ) × (s' : MasterScheduler) × (next_group s ≡ some (gid, s'))
        × (runnable s ≡ gid ∷ runnable s')
        × IsOrderly s')

-- `s` with its queues given anew.
abbrev with_queues :
    MasterScheduler
    → List TaskPriorityItem
    → List TaskPriorityItem
    → VariableFrequencyBuffer
    → MasterScheduler
with_queues s q0 q1 q2 = record s { queue0 = q0; queue1 = q1; queue2 = q2 }

HandsOut-ring :
    (s : MasterScheduler) (q2 : VariableFrequencyBuffer)
    → IsValid 256 q2
    → HandsOut (with_queues s [] [] q2)
unfolding next_group runnable size
HandsOut-ring s q2 v = elim (Bool-cases (q2.size == 0)) [
  | inl e ↦ inl (pending_empty 256 q2 v (==→eq q2.size 0 e), rw e refl)
  | inr e ↦
      let (gid, q2', got, order, valid) = get_next_refines 256 q2 v (==→ne q2.size 0 e) in
      inr (
        gid,
        with_queues s [] [] q2',
        rw (e, got) refl,
        order,
        record { descending0 = tt; descending1 = tt; ring_valid = valid },
      )
]

HandsOut-queues :
    (s : MasterScheduler) (q0 q1 : List TaskPriorityItem) (q2 : VariableFrequencyBuffer)
    → IsDescending item_gt q0
    → IsDescending item_gt q1
    → IsValid 256 q2
    → HandsOut (with_queues s q0 q1 q2)
unfolding next_group runnable top pop size
HandsOut-queues s (i ∷ q0) q1 q2 h0 h1 h2 = inr (
  i.group_id,
  with_queues s q0 q1 q2,
  ground arith,
  refl,
  record { descending0 = h0.1; descending1 = h1; ring_valid = h2 },
)
HandsOut-queues s [] (i ∷ q1) q2 h0 h1 h2 = inr (
  i.group_id,
  with_queues s [] q1 q2,
  ground arith,
  refl,
  record { descending0 = tt; descending1 = h1.1; ring_valid = h2 },
)
HandsOut-queues s [] [] q2 h0 h1 h2 = HandsOut-ring s q2 h2

-- The scheduler, its queues in order, hands out the first runnable group and keeps the others in
-- order; group id 0 stands for none, and is returned with nothing changed when none is runnable.
pub next_group_refines : (s : MasterScheduler) → IsOrderly s → HandsOut s
next_group_refines s v =
    HandsOut-queues s s.queue0 s.queue1 s.queue2 v.descending0 v.descending1 v.ring_valid

-- A list with one element more, at some place.
abbrev pub Inserted : List ℕ → ℕ → List ℕ → Type 0
Inserted old gid new =
    (before : List ℕ) × (after : List ℕ) × (old ≡ before ++ after) × (new ≡ before ++ (gid ∷ after))

push-group_ids :
    (item : TaskPriorityItem) (q : List TaskPriorityItem)
    → IsDescending item_gt q
    → Inserted (group_ids q) item.group_id (group_ids (push item_gt item q))
push-group_ids item q h =
    let i = get_insert_iterator item_gt item q in
    (
      group_ids (take i q),
      group_ids (drop i q),
      ap group_ids (sym (take-append-drop i q)) ∙ simp map-append,
      ap group_ids (push_stable item_gt item_gt-StrictOrder item q h).0 ∙ simp map-append,
    )

Inserted-append_left :
    (xs : List ℕ) {old new : List ℕ} {gid : ℕ}
    → Inserted old gid new
    → Inserted (xs ++ old) gid (xs ++ new)
Inserted-append_left xs (before, after, e, f) =
    (xs ++ before, after, rw e (sym (append_assoc xs before after)), rw f simp (append_assoc))

Inserted-append_right :
    (ys : List ℕ) {old new : List ℕ} {gid : ℕ}
    → Inserted old gid new
    → Inserted (old ++ ys) gid (new ++ ys)
Inserted-append_right ys (before, after, e, f) =
    (before, after ++ ys, rw e simp (append_assoc), rw f simp (append_assoc))

module _ (gid priority : ℕ) (s : MasterScheduler) (v : IsOrderly s) where
  item : TaskPriorityItem
  item = record { group_id = gid; priority = priority % 256 }

  -- The three queues that the `switch` of `enqueue` can choose.
  joins0 :
      let s' = record s { queue0 = push item_gt item s.queue0 } in
      Inserted (runnable s) gid (runnable s') × IsOrderly s'
  unfolding runnable item
  joins0 = (
    Inserted-append_right (group_ids s.queue1 ++ pending 256 s.queue2)
        (push-group_ids item s.queue0 v.descending0),
    record {
      descending0 = push-IsDescending item_gt item_gt-StrictOrder item s.queue0 v.descending0;
      descending1 = v.descending1;
      ring_valid = v.ring_valid;
    },
  )

  joins1 :
      let s' = record s { queue1 = push item_gt item s.queue1 } in
      Inserted (runnable s) gid (runnable s') × IsOrderly s'
  unfolding runnable item
  joins1 = (
    Inserted-append_left (group_ids s.queue0)
        (Inserted-append_right (pending 256 s.queue2) (push-group_ids item s.queue1 v.descending1)),
    record {
      descending0 = v.descending0;
      descending1 = push-IsDescending item_gt item_gt-StrictOrder item s.queue1 v.descending1;
      ring_valid = v.ring_valid;
    },
  )

  joins2 :
      let s' = record s { queue2 = Varfreq.add 256 gid (priority % 256) s.queue2 } in
      Inserted (runnable s) gid (runnable s') × IsOrderly s'
  unfolding runnable
  joins2 =
      let (old, new, valid) =
        add_refines 256 s.queue2 v.ring_valid gid (priority % 256) (omega arith) in
      (
        Inserted-append_left (group_ids s.queue0)
            (Inserted-append_left (group_ids s.queue1) (_, _, old, new)),
        record { descending0 = v.descending0; descending1 = v.descending1; ring_valid = valid },
      )

  -- With the queues in order, a group of a priority below 768 joins the runnable ones, at one
  -- place, while the others keep their order; the queues stay in order.
  pub enqueue_refines :
      priority < 768
      → Inserted (runnable s) gid (runnable (enqueue gid priority s))
        × IsOrderly (enqueue gid priority s)
  unfolding enqueue item
  enqueue_refines h = elim (Bool-cases (priority / 256 == 0)) [
    | inl e0 ↦ rw e0 joins0
    | inr n0 ↦ elim (Bool-cases (priority / 256 == 1)) [
      | inl e1 ↦ rw (n0, e1) joins1
      | inr n1 ↦ let e2 : (priority / 256 == 2) ≡ true = ground arith in rw (n0, n1, e2) joins2
    ]
  ]
