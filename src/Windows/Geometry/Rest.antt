-- ===== src/Windows/Geometry/Rest.antt =====
-- What the cuts of `subtract` leave of the base, and `subtract` as a whole.
use xp_os.Prelude.{
  ℕ, ◌+◌, ◌≡◌, refl, ap, ap₂, ◌∙◌, sym, ◌&&◌, Bool, true, false, not, List, [], ◌∷◌, ◌++◌, arith,
  if◌then◌else◌, Bool-cases, inl, inr,
}
use mathlib.Core.Path.{subst}
use xp_os.Prelude.Int.{ℤ, ltb_ℤ, leb_ℤ, ◌<ℤ◌}
use xp_os.Windows.Geometry.{
  WorldCoord, Rect, left, top, right, bottom, contains, intersects, cut_left, cut_top, cut_right,
  cut_bottom, subtract, strictly_in,
}
use xp_os.Windows.Geometry.Cut.{
  hits, moved, stays, shrinks, cut_left-hit, cut_top-hit, cut_right-hit, cut_bottom-hit,
}

-- A low edge moved up to `m` tests like both edges, and so does a high edge moved down.
raised :
    (a m h v : ℤ) → m <ℤ h → leb_ℤ (if strictly_in m a h then m else a) v ≡ (leb_ℤ a v && leb_ℤ m v)
raised a m h v l = ground arith

lowered :
    (a m h v : ℤ) → a <ℤ m → ltb_ℤ v (if strictly_in m a h then m else h) ≡ (ltb_ℤ v h && ltb_ℤ v m)
lowered a m h v l = ground arith

module _ (c base : Rect) where
  edges_left :
      let rest = (cut_left c base).1 in
      (left rest ≡ (if strictly_in (left c) (left base) (right base) then left c else left base))
      × (right rest ≡ right base)
      × (top rest ≡ top base)
      × (bottom rest ≡ bottom base)
  unfolding cut_left
  edges_left = elim (Bool-cases (strictly_in (left c) (left base) (right base))) [
    | inr e ↦ rw e (refl, refl, refl, refl)
    | inl e ↦ rw e (
      moved (left base) (left c),
      rw (moved (left base) (left c)) (stays (left base) base.width (left c)),
      refl,
      refl,
    )
  ]

  edges_top :
      let rest = (cut_top c base).1 in
      (top rest ≡ (if strictly_in (top c) (top base) (bottom base) then top c else top base))
      × (bottom rest ≡ bottom base)
      × (left rest ≡ left base)
      × (right rest ≡ right base)
  unfolding cut_top
  edges_top = elim (Bool-cases (strictly_in (top c) (top base) (bottom base))) [
    | inr e ↦ rw e (refl, refl, refl, refl)
    | inl e ↦ rw e (
      moved (top base) (top c),
      rw (moved (top base) (top c)) (stays (top base) base.height (top c)),
      refl,
      refl,
    )
  ]

  edges_right :
      let rest = (cut_right c base).1 in
      (right rest
        ≡ (if strictly_in (right c) (left base) (right base) then right c else right base))
      × (left rest ≡ left base)
      × (top rest ≡ top base)
      × (bottom rest ≡ bottom base)
  unfolding cut_right
  edges_right = elim (Bool-cases (strictly_in (right c) (left base) (right base))) [
    | inr e ↦ rw e (refl, refl, refl, refl)
    | inl e ↦ rw e (shrinks (left base) base.width (right c), refl, refl, refl)
  ]

  edges_bottom :
      let rest = (cut_bottom c base).1 in
      (bottom rest
        ≡ (if strictly_in (bottom c) (top base) (bottom base) then bottom c else bottom base))
      × (top rest ≡ top base)
      × (left rest ≡ left base)
      × (right rest ≡ right base)
  unfolding cut_bottom
  edges_bottom = elim (Bool-cases (strictly_in (bottom c) (top base) (bottom base))) [
    | inr e ↦ rw e (refl, refl, refl, refl)
    | inl e ↦ rw e (shrinks (top base) base.height (bottom c), refl, refl, refl)
  ]

-- A rectangle with an inside.
pub record IsProper (r : Rect) : Type 0 where
  pub wide : left r <ℤ right r
  pub high : top r <ℤ bottom r

both_tests :
    (a b c d a' b' c' d' : Bool)
    → ((a && a') && (b && b') && (c && c') && (d && d'))
      ≡ ((a && b && c && d) && (a' && b' && c' && d'))
both_tests a b c d a' b' c' d' = ground arith

abbrev the_hit : Bool → ℕ
the_hit b = if b then 1 else 0

pub hits-append : (p : WorldCoord) (a b : List Rect) → hits p (a ++ b) ≡ hits p a + hits p b
hits-append p [] b = omega arith
hits-append p (r ∷ a) b = omega (arith, hits-append p a b)

without :
    (a b : Bool) (n : ℕ)
    → n + (if a && b then 1 else 0) ≡ (if a then 1 else 0)
    → n ≡ (if a && not b then 1 else 0)
without true true n h = omega arith
without true false n h = omega arith
without false b n h = omega arith

-- The tests of `intersects` as orders.
met :
    (s r : Rect)
    → intersects s r ≡ true
    → (left s <ℤ right r) × (left r <ℤ right s) × (top s <ℤ bottom r) × (top r <ℤ bottom s)
unfolding intersects
met s r e = (ground arith, ground arith, ground arith, ground arith)

-- The low edge left by a cut lies below the high edge of the cutting rectangle.
below : (a m h k : ℤ) → a <ℤ k → m <ℤ k → (if strictly_in m a h then m else a) <ℤ k
below a m h k l l' = ground arith

module _ (p : WorldCoord) (base c : Rect) (meets : intersects base c ≡ true)
    (proper : IsProper c) where
  unfoldable pub after_left : Rect
  after_left = (cut_left c base).1

  unfoldable pub after_top : Rect
  after_top = (cut_top c after_left).1

  unfoldable pub after_right : Rect
  after_right = (cut_right c after_top).1

  unfoldable pub after_bottom : Rect
  after_bottom = (cut_bottom c after_right).1

  left-after_top :
      left after_top ≡ (if strictly_in (left c) (left base) (right base) then left c else left base)
  unfolding after_top after_left
  left-after_top = (edges_top c after_left).2 ∙ (edges_left c base).0

  top-after_top :
      top after_top ≡ (if strictly_in (top c) (top base) (bottom base) then top c else top base)
  unfolding after_top after_left
  top-after_top =
      (edges_top c after_left).0
      ∙ ap₂ (λ t b. if strictly_in (top c) t b then top c else t) (edges_left c base).2
          (edges_left c base).3

  test_left : leb_ℤ (left after_bottom) p.x ≡ (leb_ℤ (left base) p.x && leb_ℤ (left c) p.x)
  unfolding after_bottom after_right
  test_left =
      ap (λ z. leb_ℤ z p.x)
        ((edges_bottom c after_right).2 ∙ (edges_right c after_top).1 ∙ left-after_top)
      ∙ raised (left base) (left c) (right base) p.x (met base c meets).1

  test_top : leb_ℤ (top after_bottom) p.y ≡ (leb_ℤ (top base) p.y && leb_ℤ (top c) p.y)
  unfolding after_bottom after_right
  test_top =
      ap (λ z. leb_ℤ z p.y)
        ((edges_bottom c after_right).1 ∙ (edges_right c after_top).2 ∙ top-after_top)
      ∙ raised (top base) (top c) (bottom base) p.y (met base c meets).3

  test_right : ltb_ℤ p.x (right after_bottom) ≡ (ltb_ℤ p.x (right base) && ltb_ℤ p.x (right c))
  unfolding after_bottom after_right after_top after_left
  test_right =
      ap (ltb_ℤ p.x) ((edges_bottom c after_right).3 ∙ (edges_right c after_top).0)
      ∙ lowered (left after_top) (right c) (right after_top) p.x (
          subst (λ z. z <ℤ right c) (sym left-after_top)
            (below (left base) (left c) (right base) (right c) (met base c meets).0 proper.wide))
      ∙ ap (λ z. ltb_ℤ p.x z && ltb_ℤ p.x (right c))
          ((edges_top c after_left).3 ∙ (edges_left c base).1)

  test_bottom : ltb_ℤ p.y (bottom after_bottom) ≡ (ltb_ℤ p.y (bottom base) && ltb_ℤ p.y (bottom c))
  unfolding after_bottom after_right after_top after_left
  test_bottom =
      ap (ltb_ℤ p.y) (edges_bottom c after_right).0
      ∙ lowered (top after_right) (bottom c) (bottom after_right) p.y (
          subst (λ z. z <ℤ bottom c) (sym ((edges_right c after_top).2 ∙ top-after_top))
            (below (top base) (top c) (bottom base) (bottom c) (met base c meets).2 proper.high))
      ∙ ap (λ z. ltb_ℤ p.y z && ltb_ℤ p.y (bottom c))
          ((edges_right c after_top).3 ∙ (edges_top c after_left).1 ∙ (edges_left c base).3)

  pub contains-after_bottom : contains after_bottom p ≡ (contains base p && contains c p)
  unfolding contains
  contains-after_bottom =
      ap
        (λ z.
          z
          && leb_ℤ (top after_bottom) p.y
          && ltb_ℤ p.x (right after_bottom)
          && ltb_ℤ p.y (bottom after_bottom))
        test_left
      ∙ ap
          (λ z.
            (leb_ℤ (left base) p.x && leb_ℤ (left c) p.x)
            && z
            && ltb_ℤ p.x (right after_bottom)
            && ltb_ℤ p.y (bottom after_bottom))
          test_top
      ∙ ap₂
          (λ y z.
            (leb_ℤ (left base) p.x && leb_ℤ (left c) p.x)
            && (leb_ℤ (top base) p.y && leb_ℤ (top c) p.y)
            && y
            && z)
          test_right test_bottom
      ∙ both_tests (leb_ℤ (left base) p.x) (leb_ℤ (top base) p.y) (ltb_ℤ p.x (right base))
          (ltb_ℤ p.y (bottom base)) (leb_ℤ (left c) p.x) (leb_ℤ (top c) p.y) (ltb_ℤ p.x (right c))
          (ltb_ℤ p.y (bottom c))

  -- The rectangles that `subtract` returns are disjoint and together are the base without the
  -- cutting rectangle: a point of the base that is not in the cutting rectangle lies in one of them
  -- and only one, and any other point in none. The two rectangles intersect, and the cutting one
  -- has an inside.
  pub subtract-hits :
      hits p (subtract base c) ≡ (if contains base p && not (contains c p) then 1 else 0)
  unfolding subtract after_left after_top after_right after_bottom
  subtract-hits =
      let p1 = (cut_left c base).0 in
      let p2 = (cut_top c after_left).0 in
      let p3 = (cut_right c after_top).0 in
      let p4 = (cut_bottom c after_right).0 in
      without (contains base p) (contains c p) (hits p (p1 ++ (p2 ++ (p3 ++ p4)))) (
        omega (
          arith,
          hits-append p p1 (p2 ++ (p3 ++ p4)),
          hits-append p p2 (p3 ++ p4),
          hits-append p p3 p4,
          cut_left-hit p c base,
          cut_top-hit p c after_left,
          cut_right-hit p c after_top,
          cut_bottom-hit p c after_right,
          ap (λ b. the_hit b) contains-after_bottom,
        ))
