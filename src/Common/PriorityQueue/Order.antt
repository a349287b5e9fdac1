-- ===== src/Common/PriorityQueue/Order.antt =====
-- What a priority queue promises: the list stays in descending order, and `push` is a stable
-- insertion into it.
use xp_os.Prelude.{
  suc, ◌≡◌, refl, ap, Bool, true, false, some, List, [], ◌∷◌, ◌++◌, length, take, drop, Bool-cases,
  inl, inr,
}
use mathlib.Core.Path.{subst}
use mathlib.Core.Option.{some-injective}
use xp_os.Prelude.All.{All, All-mono, IsOrdered}
use xp_os.Common.PriorityQueue.{get_insert_iterator, push, top, pop}

-- What `operator>` has to satisfy: it is asymmetric, and "not greater" is transitive.
pub record StrictOrder {ℓ} {T : Type ℓ} (gt : T → T → Bool) : Type ℓ where
  pub asymmetric : (a b : T) → gt a b ≡ true → gt b a ≡ false
  pub not_trans : (a b c : T) → gt b a ≡ false → gt c b ≡ false → gt c a ≡ false

module _ {ℓ} {T : Type ℓ} (gt : T → T → Bool) where
  -- The queue in descending order: nothing exceeds what stands before it.
  abbrev pub IsDescending : List T → Type 0
  IsDescending = IsOrdered (λ x y. gt y x ≡ false)

  pub push-cons_above : (e x : T) (xs : List T) → gt e x ≡ true → push gt e (x ∷ xs) ≡ e ∷ x ∷ xs
  unfolding push
  push-cons_above e x xs h = rw h

  pub push-cons_below :
      (e x : T) (xs : List T) → gt e x ≡ false → push gt e (x ∷ xs) ≡ x ∷ push gt e xs
  unfolding push
  push-cons_below e x xs h = rw h

  pub All-push : (P : T → Type 0) (e : T) (xs : List T) → P e → All P xs → All P (push gt e xs)
  All-push P e [] he h = unfold push in (he, tt)
  All-push P e (x ∷ xs) he h = elim (Bool-cases (gt e x)) [
    | inl above ↦ rw (push-cons_above e x xs above) (he, h)
    | inr below ↦ rw (push-cons_below e x xs below) (h.0, All-push P e xs he h.1)
  ]

  pub length-push : (e : T) (xs : List T) → length (push gt e xs) ≡ suc (length xs)
  length-push e [] = unfold push in refl
  length-push e (x ∷ xs) = elim (Bool-cases (gt e x)) [
    | inl above ↦ rw (push-cons_above e x xs above)
    | inr below ↦ rw (push-cons_below e x xs below) (ap suc (length-push e xs))
  ]

  module _ (o : StrictOrder gt) where
    -- Pushing into a queue in descending order leaves it so.
    pub push-IsDescending : (e : T) (xs : List T) → IsDescending xs → IsDescending (push gt e xs)
    push-IsDescending e [] h = unfold push in (tt, tt)
    push-IsDescending e (x ∷ xs) h = elim (Bool-cases (gt e x)) [
      | inl above ↦ rw (push-cons_above e x xs above) (
        (
          o.asymmetric e x above,
          All-mono (λ y. gt y x ≡ false) (λ y. gt y e ≡ false) xs
              (λ y q. o.not_trans e x y (o.asymmetric e x above) q) h.0,
        ),
        h,
      )
      | inr below ↦
          rw (push-cons_below e x xs below)
            (All-push (λ y. gt y x ≡ false) e xs below h.0, push-IsDescending e xs h.1)
    ]

    above-All :
        (e x : T) (xs : List T)
        → gt e x ≡ true
        → All (λ y. gt y x ≡ false) xs
        → All (λ y. gt e y ≡ true) xs
    above-All e x xs above =
        All-mono (λ y. gt y x ≡ false) (λ y. gt e y ≡ true) xs
          λ y q. elim (Bool-cases (gt e y)) [ inl p ↦ p | inr n ↦ cc (o.not_trans x y e q n) ]

    -- In a queue in descending order, `push` puts the element behind all that it does not exceed,
    -- those it equals included, and before all that it exceeds; the others keep their order.
    pub push_stable :
        (e : T) (xs : List T)
        → IsDescending xs
        → let i = get_insert_iterator gt e xs in
          (push gt e xs ≡ take i xs ++ (e ∷ drop i xs))
          × All (λ y. gt e y ≡ false) (take i xs)
          × All (λ y. gt e y ≡ true) (drop i xs)
    push_stable e [] h = unfold push in (refl, tt, tt)
    push_stable e (x ∷ xs) h = elim (Bool-cases (gt e x)) [
      | inl above ↦
          rw (at_above above, push-cons_above e x xs above)
            (refl, tt, (above, above-All e x xs above h.0))
      | inr below ↦
          rw (at_below below, push-cons_below e x xs below)
            (
              ap (λ l. x ∷ l) (push_stable e xs h.1).0,
              (below, (push_stable e xs h.1).1),
              (push_stable e xs h.1).2,
            )
    ]
      where
        at_above : gt e x ≡ true → get_insert_iterator gt e (x ∷ xs) ≡ 0
        at_above q = unfold get_insert_iterator in rw q

        at_below :
            gt e x ≡ false → get_insert_iterator gt e (x ∷ xs) ≡ suc (get_insert_iterator gt e xs)
        at_below q = unfold get_insert_iterator in rw q

  -- Nothing behind the top of a queue in descending order exceeds it, and what `pop` leaves is in
  -- order too.
  pub top_greatest :
      (xs : List T) (t : T)
      → IsDescending xs
      → top xs ≡ some t
      → All (λ y. gt y t ≡ false) (pop xs) × IsDescending (pop xs)
  unfolding top pop
  top_greatest [] t h e = cc
  top_greatest (x ∷ xs) t h e =
      (subst (λ u. All (λ y. gt y u ≡ false) xs) (some-injective x t e) h.0, h.1)
