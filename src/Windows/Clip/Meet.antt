-- ===== src/Windows/Clip/Meet.antt =====
-- `Rect::intersect`, and `ClipRects::intersect`.
use xp_os.Prelude.{
  suc, length, ◌++◌, ◌+◌, ◌≡◌, refl, ap, ◌∙◌, ◌&&◌, Bool, true, some, List, [], ◌∷◌, arith,
  if◌then◌else◌, Bool-cases, inl, inr,
}
use xp_os.Prelude.All.{All}
use xp_os.Prelude.Int.{ltb_ℤ}
use xp_os.Windows.Geometry.{
  WorldCoord, Rect, left, top, right, bottom, contains, intersects, clip_left, clip_top, clip_right,
  clip_bottom, cut_left, cut_top, cut_right, cut_bottom, strictly_in,
}
use xp_os.Windows.Geometry
use xp_os.Windows.Geometry.Cut.{hits, moved}
use xp_os.Windows.Geometry.Rest.{
  IsProper, contains-after_bottom, after_left, after_top, after_right, after_bottom,
}
use xp_os.Windows.Clip.{intersect, subtract, subtract_loop, next_hit, restart}
use xp_os.Windows.Clip.Subtract.{first_stays}
use xp_os.Windows.Clip.Region.{contains_apart, subtract_region}

-- Each test of `intersect` does to a rectangle what the cut at the same edge leaves of it.
module _ (s r : Rect) where
  clip_left-eq : clip_left s r ≡ (cut_left s r).1
  unfolding clip_left cut_left
  clip_left-eq = elim (Bool-cases (strictly_in (left s) (left r) (right r))) [
    | inl e ↦ rw (e, moved (left r) (left s)) refl
    | inr e ↦ rw e refl
  ]

  clip_top-eq : clip_top s r ≡ (cut_top s r).1
  unfolding clip_top cut_top
  clip_top-eq = elim (Bool-cases (strictly_in (top s) (top r) (bottom r))) [
    | inl e ↦ rw (e, moved (top r) (top s)) refl
    | inr e ↦ rw e refl
  ]

  clip_right-eq : clip_right s r ≡ (cut_right s r).1
  unfolding clip_right cut_right
  clip_right-eq = elim (Bool-cases (strictly_in (right s) (left r) (right r))) [
    | inl e ↦ rw e refl
    | inr e ↦ rw e refl
  ]

  clip_bottom-eq : clip_bottom s r ≡ (cut_bottom s r).1
  unfolding clip_bottom cut_bottom
  clip_bottom-eq = elim (Bool-cases (strictly_in (bottom s) (top r) (bottom r))) [
    | inl e ↦ rw e refl
    | inr e ↦ rw e refl
  ]

intersects_comm : (s r : Rect) → intersects s r ≡ true → intersects r s ≡ true
unfolding intersects
intersects_comm s r h =
    swapped (ltb_ℤ (left s) (right r)) (ltb_ℤ (left r) (right s)) (ltb_ℤ (top s) (bottom r))
      (ltb_ℤ (top r) (bottom s)) h
  where
    swapped : (a b c d : Bool) → (a && b && c && d) ≡ true → (b && a && d && c) ≡ true
    swapped a b c d h = ground arith

contains-intersect :
    (p : WorldCoord) (s r : Rect)
    → intersects s r ≡ true
    → IsProper s
    → contains (Geometry.intersect s r) p ≡ (contains r p && contains s p)
unfolding Geometry.intersect after_left after_top after_right after_bottom
contains-intersect p s r meets proper =
    rw
      (
        meets,
        clip_left-eq s r,
        clip_top-eq s (cut_left s r).1,
        clip_right-eq s (cut_top s (cut_left s r).1).1,
        clip_bottom-eq s (cut_right s (cut_top s (cut_left s r).1).1).1,
      )
      (contains-after_bottom p r s (intersects_comm s r meets) proper)

-- Intersecting a region with a rectangle leaves the coverage of the points in the rectangle as it is
-- and covers no other point, where the rectangles of the region have an inside.
pub intersect_region :
    (rect : Rect) (rects : List Rect) (p : WorldCoord)
    → All IsProper rects
    → hits p (intersect rect rects) ≡ (if contains rect p then hits p rects else 0)
unfolding intersect
intersect_region rect [] p h = ground arith
intersect_region rect (r ∷ rects) p h = elim (Bool-cases (intersects r rect)) [
  | inl e ↦ ground (arith, intersect_region rect rects p h.1, contains-intersect p r rect e h.0, e)
  | inr e ↦ elim (Bool-cases (contains rect p)) [
    | inl k ↦ ground (arith, intersect_region rect rects p h.1, contains_apart r rect p e k, e, k)
    | inr k ↦ ground (arith, intersect_region rect rects p h.1, e, k)
  ]
]

stays_second :
    (rect a b : Rect) (rects : List Rect) (out : List Rect)
    → intersects a rect ≡ true
    → subtract rect (a ∷ b ∷ rects) ≡ some out
    → (rest : List Rect) × (out ≡ b ∷ rest)
unfolding subtract subtract_loop next_hit restart
stays_second rect a b rects out h e =
    first_stays rect (length rects + 2) b [] (rects ++ Geometry.subtract a rect) out (unroll ∙ e)
  where
    unroll :
        subtract_loop (length rects + 2) rect (b ∷ []) (rects ++ Geometry.subtract a rect)
        ≡ subtract_loop (length (a ∷ b ∷ rects) + 1) rect [] (a ∷ b ∷ rects)
    unroll =
        let more : suc (suc (length rects)) + 1 ≡ suc (length rects + 2) = omega arith in
        rw (more, subtract_loop, next_hit, h) refl

-- A rectangle that stands second is passed over where the first one is split, on rectangles that
-- have an inside: `subtract` ends, and the second rectangle stays whole in the region, first of all,
-- whether it intersects the rectangle that is cut out or not.
pub second_survives :
    (rect a b : Rect) (rects : List Rect)
    → IsProper rect
    → All IsProper (a ∷ b ∷ rects)
    → intersects a rect ≡ true
    → (rest : List Rect) × (subtract rect (a ∷ b ∷ rects) ≡ some (b ∷ rest))
second_survives rect a b rects solid sound h =
    let (out, returned, _, _, _) = subtract_region rect (a ∷ b ∷ rects) solid sound in
    let (rest, e) = stays_second rect a b rects out h returned in (rest, returned ∙ ap some e)
