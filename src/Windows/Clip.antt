-- ===== src/Windows/Clip.antt =====
-- `ClipRects` of Userspace/System/WindowServer/Geometry.h: a region as a list of rectangles.
pub mod Pieces
pub mod Subtract
pub mod Region
pub mod Meet
mod Tests
use xp_os.Prelude.{
  ℕ, zero, suc, ◌+◌, Bool, Option, none, some, List, [], ◌∷◌, ◌++◌, if◌then◌else◌, length,
}
use xp_os.Windows.Geometry.{Rect, intersects}
use xp_os.Windows.Geometry

-- The iterator's way from one rectangle to the next that intersects `rect`: those before it, the
-- rectangle, and those behind it. `front` has the rectangles before the iterator.
unfoldable pub next_hit : Rect → List Rect → List Rect → Option (List Rect × Rect × List Rect)
next_hit rect front [] = none
next_hit rect front (r ∷ rs) =
    let further = next_hit rect (front ++ (r ∷ [])) rs in
    if intersects r rect then some (front, r, rs) else further

-- `it = rects.begin()` and then the loop's `it++`: the first rectangle is passed over. (In an empty
-- list the iterator stays at the end.)
unfoldable pub restart : List Rect → List Rect × List Rect
restart [] = ([], [])
restart (r ∷ rs) = (r ∷ [], rs)

-- The loop of `subtract`, with fuel for the rectangles that it splits; `none` if that runs out.
unfoldable pub subtract_loop : ℕ → Rect → List Rect → List Rect → Option (List Rect)
unfolding restart
subtract_loop zero rect front rest = none
subtract_loop (suc fuel) rect front rest = elim (next_hit rect front rest) [
  | none ↦ some (front ++ rest)
  | some (f, r, rs) ↦
      let (front', rest') = restart (f ++ (rs ++ Geometry.subtract r rect)) in
      subtract_loop fuel rect front' rest'
]

-- Each round splits one of the rectangles that intersect `rect`, and one round more ends the loop.
unfoldable pub subtract : Rect → List Rect → Option (List Rect)
unfolding subtract_loop
subtract rect rects = subtract_loop (length rects + 1) rect [] rects

unfoldable pub add : Rect → List Rect → Option (List Rect)
add rect rects = elim (subtract rect rects) [ none ↦ none | some rs ↦ some (rs ++ (rect ∷ [])) ]

unfoldable pub intersect : Rect → List Rect → List Rect
intersect rect [] = []
intersect rect (r ∷ rs) =
    let rest = intersect rect rs in
    if intersects r rect then Geometry.intersect r rect ∷ rest else rest

abbrev pub clear : List Rect → List Rect
clear rects = []
