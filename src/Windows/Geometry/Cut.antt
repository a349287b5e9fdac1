-- ===== src/Windows/Geometry/Cut.antt =====
-- How often a point is covered by rectangles, and by the pieces that a cut makes.
use xp_os.Prelude.{
  ℕ, ◌+◌, ◌≡◌, ◌&&◌, Bool, true, false, not, List, [], ◌∷◌, arith, if◌then◌else◌, Bool-cases, inl,
  inr,
}
use xp_os.Prelude.Int.{ℤ, ◌+ℤ◌, ◌-ℤ◌, ltb_ℤ, leb_ℤ, ◌≤ℤ◌, int_laws}
use xp_os.Windows.Geometry.{
  WorldCoord, Rect, left, top, right, bottom, contains, cut_left, cut_top, cut_right, cut_bottom,
  strictly_in,
}

-- 1 if the rectangle contains the point.
abbrev pub hit : WorldCoord → Rect → ℕ
hit p r = if contains r p then 1 else 0

-- How many rectangles of a list contain the point.
abbrev pub hits : WorldCoord → List Rect → ℕ
hits p [] = 0
hits p (r ∷ rs) = hit p r + hits p rs

-- A test `b` for one of two halves: those before it pass `a`, those behind it pass `d`.
split_x_test :
    (a b d y1 y2 : Bool)
    → (b ≡ true → a ≡ true)
    → (b ≡ false → d ≡ true)
    → (if a && y1 && not b && y2 then 1 else 0) + (if b && y1 && d && y2 then 1 else 0)
      ≡ (if a && y1 && d && y2 then 1 else 0)
split_x_test a b d y1 y2 h k = ground (arith, h, k)

split_y_test :
    (a b d x1 x2 : Bool)
    → (b ≡ true → a ≡ true)
    → (b ≡ false → d ≡ true)
    → (if x1 && a && x2 && not b then 1 else 0) + (if x1 && b && x2 && d then 1 else 0)
      ≡ (if x1 && a && x2 && d then 1 else 0)
split_y_test a b d x1 x2 h k = ground (arith, h, k)

ltb-eq-not_leb : (a b : ℤ) → ltb_ℤ a b ≡ not (leb_ℤ b a)
ltb-eq-not_leb a b = ground arith

before : (low at_ v : ℤ) → low ≤ℤ at_ → leb_ℤ at_ v ≡ true → leb_ℤ low v ≡ true
before low at_ v h e = ground arith

behind : (at_ high v : ℤ) → at_ ≤ℤ high → leb_ℤ at_ v ≡ false → ltb_ℤ v high ≡ true
behind at_ high v h e = ground arith

-- 1 if the point lies between the four edges, in the order of the tests of `contains`.
abbrev between : ℤ → ℤ → ℤ → ℤ → WorldCoord → ℕ
between l t r b p = if leb_ℤ l p.x && leb_ℤ t p.y && ltb_ℤ p.x r && ltb_ℤ p.y b then 1 else 0

split_x :
    (p : WorldCoord) (l at_ r t b : ℤ)
    → l ≤ℤ at_
    → at_ ≤ℤ r
    → between l t at_ b p + between at_ t r b p ≡ between l t r b p
split_x p l at_ r t b h k = rw (ltb-eq-not_leb p.x at_) (
    split_x_test (leb_ℤ l p.x) (leb_ℤ at_ p.x) (ltb_ℤ p.x r) (leb_ℤ t p.y) (ltb_ℤ p.y b)
      (before l at_ p.x h) (behind at_ r p.x k))

split_y :
    (p : WorldCoord) (t at_ b l r : ℤ)
    → t ≤ℤ at_
    → at_ ≤ℤ b
    → between l t r at_ p + between l at_ r b p ≡ between l t r b p
split_y p t at_ b l r h k = rw (ltb-eq-not_leb p.y at_) (
    split_y_test (leb_ℤ t p.y) (leb_ℤ at_ p.y) (ltb_ℤ p.y b) (leb_ℤ l p.x) (ltb_ℤ p.x r)
      (before t at_ p.y h) (behind at_ b p.y k))

-- An edge that moves to `m`, and the far edge that stays.
pub moved : (a m : ℤ) → a +ℤ (m -ℤ a) ≡ m
moved a m = omega int_laws

pub stays : (a w m : ℤ) → m +ℤ (w -ℤ (m -ℤ a)) ≡ a +ℤ w
stays a w m = omega int_laws

pub reaches : (a w m : ℤ) → m +ℤ (a +ℤ w -ℤ m) ≡ a +ℤ w
reaches a w m = omega int_laws

pub shrinks : (a w m : ℤ) → a +ℤ (w -ℤ (a +ℤ w -ℤ m)) ≡ m
shrinks a w m = omega int_laws

within : (v low high : ℤ) → strictly_in v low high ≡ true → (low ≤ℤ v) × (v ≤ℤ high)
within v low high e = (ground arith, ground arith)

-- The two parts that a cut at `m` makes of a span of `w` from `a`, as the code writes their edges.
module _ (p : WorldCoord) (a w m b1 b2 : ℤ) (e : strictly_in m a (a +ℤ w) ≡ true) where
  low_x :
      between a b1 (a +ℤ (m -ℤ a)) b2 p
        + 0
        + between (a +ℤ (m -ℤ a)) b1 (a +ℤ (m -ℤ a) +ℤ (w -ℤ (m -ℤ a))) b2 p
      ≡ between a b1 (a +ℤ w) b2 p
  low_x =
      let (h, k) = within m a (a +ℤ w) e in
      rw (moved a m, stays a w m) (omega (arith, split_x p a m (a +ℤ w) b1 b2 h k))

  low_y :
      between b1 a b2 (a +ℤ (m -ℤ a)) p
        + 0
        + between b1 (a +ℤ (m -ℤ a)) b2 (a +ℤ (m -ℤ a) +ℤ (w -ℤ (m -ℤ a))) p
      ≡ between b1 a b2 (a +ℤ w) p
  low_y =
      let (h, k) = within m a (a +ℤ w) e in
      rw (moved a m, stays a w m) (omega (arith, split_y p a m (a +ℤ w) b1 b2 h k))

  high_x :
      between (a +ℤ (m -ℤ a)) b1 (a +ℤ (m -ℤ a) +ℤ (a +ℤ w -ℤ m)) b2 p
        + 0
        + between a b1 (a +ℤ (w -ℤ (a +ℤ w -ℤ m))) b2 p
      ≡ between a b1 (a +ℤ w) b2 p
  high_x =
      let (h, k) = within m a (a +ℤ w) e in
      rw (moved a m, reaches a w m, shrinks a w m) (omega (arith, split_x p a m (a +ℤ w) b1 b2 h k))

  high_y :
      between b1 (a +ℤ (m -ℤ a)) b2 (a +ℤ (m -ℤ a) +ℤ (a +ℤ w -ℤ m)) p
        + 0
        + between b1 a b2 (a +ℤ (w -ℤ (a +ℤ w -ℤ m))) p
      ≡ between b1 a b2 (a +ℤ w) p
  high_y =
      let (h, k) = within m a (a +ℤ w) e in
      rw (moved a m, reaches a w m, shrinks a w m) (omega (arith, split_y p a m (a +ℤ w) b1 b2 h k))

module _ (p : WorldCoord) (cutting base : Rect) where
  pub cut_left-hit :
      let (pieces, rest) = cut_left cutting base in hits p pieces + hit p rest ≡ hit p base
  unfolding cut_left contains
  cut_left-hit = elim (Bool-cases (strictly_in (left cutting) (left base) (right base))) [
    | inr e ↦ rw e (omega arith)
    | inl e ↦ rw e (low_x p (left base) base.width (left cutting) (top base) (bottom base) e)
  ]

  pub cut_top-hit :
      let (pieces, rest) = cut_top cutting base in hits p pieces + hit p rest ≡ hit p base
  unfolding cut_top contains
  cut_top-hit = elim (Bool-cases (strictly_in (top cutting) (top base) (bottom base))) [
    | inr e ↦ rw e (omega arith)
    | inl e ↦ rw e (low_y p (top base) base.height (top cutting) (left base) (right base) e)
  ]

  pub cut_right-hit :
      let (pieces, rest) = cut_right cutting base in hits p pieces + hit p rest ≡ hit p base
  unfolding cut_right contains
  cut_right-hit = elim (Bool-cases (strictly_in (right cutting) (left base) (right base))) [
    | inr e ↦ rw e (omega arith)
    | inl e ↦ rw e (high_x p (left base) base.width (right cutting) (top base) (bottom base) e)
  ]

  pub cut_bottom-hit :
      let (pieces, rest) = cut_bottom cutting base in hits p pieces + hit p rest ≡ hit p base
  unfolding cut_bottom contains
  cut_bottom-hit = elim (Bool-cases (strictly_in (bottom cutting) (top base) (bottom base))) [
    | inr e ↦ rw e (omega arith)
    | inl e ↦ rw e (high_y p (top base) base.height (bottom cutting) (left base) (right base) e)
  ]
