-- ===== src/Windows/Clip/Pieces.antt =====
-- What the pieces of a rectangle have to do with the rectangle that was cut out.
use xp_os.Prelude.{◌≡◌, true, false, List, arith, Bool-cases, inl, inr}
use xp_os.Prelude.All.{All, All-append}
use xp_os.Prelude.Int.{ℤ, ◌+ℤ◌, ◌-ℤ◌, ltb_ℤ, ◌<ℤ◌}
use xp_os.Windows.Geometry.{
  Rect, left, top, right, bottom, intersects, cut_left, cut_top, cut_right, cut_bottom, subtract,
  strictly_in,
}
use xp_os.Windows.Geometry.Cut.{moved, stays, shrinks, reaches}
use xp_os.Windows.Geometry.Rest.{IsProper}

-- A piece has an inside and does not intersect `c`.
pub record IsPiece (c r : Rect) : Type 0 where
  pub proper : IsProper r
  pub apart : intersects r c ≡ false

-- The parts of a span that is cut at `m` have an inside.
module _ (a w m : ℤ) (e : strictly_in m a (a +ℤ w) ≡ true) where
  low_part : a <ℤ a +ℤ (m -ℤ a)
  low_part = rw (moved a m) (ground arith)

  low_rest : a +ℤ (m -ℤ a) <ℤ a +ℤ (m -ℤ a) +ℤ (w -ℤ (m -ℤ a))
  low_rest = rw (moved a m, stays a w m) (ground arith)

  high_part : a +ℤ (m -ℤ a) <ℤ a +ℤ (m -ℤ a) +ℤ (a +ℤ w -ℤ m)
  high_part = rw (moved a m, reaches a w m) (ground arith)

  high_rest : a <ℤ a +ℤ (w -ℤ (a +ℤ w -ℤ m))
  high_rest = rw (shrinks a w m) (ground arith)

-- An edge at `m` is not strictly beyond `m`.
not_beyond : (a m : ℤ) → ltb_ℤ m (a +ℤ (m -ℤ a)) ≡ false
not_beyond a m = rw (moved a m) (ground arith)

not_before : (a m : ℤ) → ltb_ℤ (a +ℤ (m -ℤ a)) m ≡ false
not_before a m = rw (moved a m) (ground arith)

-- One failed test of `intersects` is enough.
module _ (r c : Rect) where
  apart_left : ltb_ℤ (left r) (right c) ≡ false → intersects r c ≡ false
  unfolding intersects
  apart_left h = ground arith

  apart_right : ltb_ℤ (left c) (right r) ≡ false → intersects r c ≡ false
  unfolding intersects
  apart_right h = ground arith

  apart_top : ltb_ℤ (top r) (bottom c) ≡ false → intersects r c ≡ false
  unfolding intersects
  apart_top h = ground arith

  apart_bottom : ltb_ℤ (top c) (bottom r) ≡ false → intersects r c ≡ false
  unfolding intersects
  apart_bottom h = ground arith

module _ (c base : Rect) (v : IsProper base) where
  abbrev Cut : (List Rect × Rect) → Type 0
  Cut cut = All (IsPiece c) cut.0 × IsProper cut.1

  cut_left-IsPiece : Cut (cut_left c base)
  unfolding cut_left
  cut_left-IsPiece = elim (Bool-cases (strictly_in (left c) (left base) (right base))) [
    | inr e ↦ rw e (tt, v)
    | inl e ↦ rw e (
      (
        record {
          proper = record { wide = low_part (left base) base.width (left c) e; high = v.high };
          apart = apart_right _ c (not_beyond (left base) (left c));
        },
        tt,
      ),
      record { wide = low_rest (left base) base.width (left c) e; high = v.high },
    )
  ]

  cut_top-IsPiece : Cut (cut_top c base)
  unfolding cut_top
  cut_top-IsPiece = elim (Bool-cases (strictly_in (top c) (top base) (bottom base))) [
    | inr e ↦ rw e (tt, v)
    | inl e ↦ rw e (
      (
        record {
          proper = record { wide = v.wide; high = low_part (top base) base.height (top c) e };
          apart = apart_bottom _ c (not_beyond (top base) (top c));
        },
        tt,
      ),
      record { wide = v.wide; high = low_rest (top base) base.height (top c) e },
    )
  ]

  cut_right-IsPiece : Cut (cut_right c base)
  unfolding cut_right
  cut_right-IsPiece = elim (Bool-cases (strictly_in (right c) (left base) (right base))) [
    | inr e ↦ rw e (tt, v)
    | inl e ↦ rw e (
      (
        record {
          proper = record { wide = high_part (left base) base.width (right c) e; high = v.high };
          apart = apart_left _ c (not_before (left base) (right c));
        },
        tt,
      ),
      record { wide = high_rest (left base) base.width (right c) e; high = v.high },
    )
  ]

  cut_bottom-IsPiece : Cut (cut_bottom c base)
  unfolding cut_bottom
  cut_bottom-IsPiece = elim (Bool-cases (strictly_in (bottom c) (top base) (bottom base))) [
    | inr e ↦ rw e (tt, v)
    | inl e ↦ rw e (
      (
        record {
          proper = record { wide = v.wide; high = high_part (top base) base.height (bottom c) e };
          apart = apart_top _ c (not_before (top base) (bottom c));
        },
        tt,
      ),
      record { wide = v.wide; high = high_rest (top base) base.height (bottom c) e },
    )
  ]

pub subtract-IsPiece : (c base : Rect) → IsProper base → All (IsPiece c) (subtract base c)
unfolding subtract
subtract-IsPiece c base v =
    let (p1, v1) = cut_left-IsPiece c base v in
    let b1 = (cut_left c base).1 in
    let (p2, v2) = cut_top-IsPiece c b1 v1 in
    let b2 = (cut_top c b1).1 in
    let (p3, v3) = cut_right-IsPiece c b2 v2 in
    let (p4, v4) = cut_bottom-IsPiece c (cut_right c b2).1 v3 in
    All-append (IsPiece c) _ _ p1 (All-append (IsPiece c) _ _ p2 (All-append (IsPiece c) _ _ p3 p4))
