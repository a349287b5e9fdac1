-- ===== src/Windows/Clip/Region.antt =====
-- The region that a list of rectangles stands for: how often it covers each point.
use xp_os.Prelude.{
  ℕ, ◌+◌, ◌≤◌, ◌≡◌, refl, ◌&&◌, Bool, true, false, some, List, [], ◌∷◌, arith, if◌then◌else◌,
  Bool-cases, inl, inr, take, drop, length,
}
use xp_os.Prelude.All.{All}
use xp_os.Prelude.Int.{ℤ, ltb_ℤ, ◌≤ℤ◌, ◌<ℤ◌}
use xp_os.Windows.Geometry.{WorldCoord, Rect, left, top, right, bottom, contains, intersects}
use xp_os.Windows.Geometry.Cut.{hits}
use xp_os.Windows.Geometry.Rest.{IsProper}
use xp_os.Windows.Clip.{subtract}
use xp_os.Windows.Clip.Subtract.{Apart, meets-le-length, loop-Outcome}

orders :
    (r : Rect) (p : WorldCoord)
    → contains r p ≡ true
    → (left r ≤ℤ p.x) × (top r ≤ℤ p.y) × (p.x <ℤ right r) × (p.y <ℤ bottom r)
unfolding contains
orders r p h = (ground arith, ground arith, ground arith, ground arith)

through : (l v r : ℤ) → l ≤ℤ v → v <ℤ r → ltb_ℤ l r ≡ true
through l v r h k = ground arith

all_four : (a b c d : Bool) → a ≡ true → b ≡ true → c ≡ true → d ≡ true → (a && b && c && d) ≡ true
all_four a b c d h k l m = ground arith

-- Two rectangles that do not intersect share no point.
pub contains_apart :
    (r c : Rect) (p : WorldCoord)
    → intersects r c ≡ false
    → contains c p ≡ true
    → contains r p ≡ false
unfolding intersects
contains_apart r c p h k = elim (Bool-cases (contains r p)) [
  | inr e ↦ e
  | inl e ↦
      let (rl, rt, rr, rb) = orders r p e in
      let (cl, ct, cr, cb) = orders c p k in
      let meets : intersects r c ≡ true =
        all_four (ltb_ℤ (left r) (right c)) (ltb_ℤ (left c) (right r)) (ltb_ℤ (top r) (bottom c))
          (ltb_ℤ (top c) (bottom r)) (through (left r) p.x (right c) rl cr)
          (through (left c) p.x (right r) cl rr) (through (top r) p.y (bottom c) rt cb)
          (through (top c) p.y (bottom r) ct rb) in
      cc (h, meets)
]

no_common_point :
    (c : Rect) (rects : List Rect) (p : WorldCoord)
    → All (Apart c) rects
    → contains c p ≡ true
    → hits p rects ≡ 0
no_common_point c [] p h k = refl
no_common_point c (r ∷ rects) p h k =
    ground (arith, contains_apart r c p h.0 k, no_common_point c rects p h.1 k)

drop-take-All : (P : Rect → Type 0) (l : List Rect) → All P (take 1 l) → All P (drop 1 l) → All P l
drop-take-All P [] h k = tt
drop-take-All P (r ∷ l) h k = (h.0, k)

-- The count at a point after the subtraction and before: the same outside the rectangle, and not
-- more inside.
abbrev pub Leaves : Bool → ℕ → ℕ → Type 0
Leaves false after before = after ≡ before
Leaves true after before = after ≤ before

leaves : (b : Bool) (n m : ℕ) → (b ≡ false → n ≡ m) → n ≤ m → Leaves b n m
leaves false n m h k = h refl
leaves true n m h k = k

-- `subtract` ends, on rectangles that have an inside. It leaves every point outside the rectangle
-- covered as often as before, covers no point more often, and returns rectangles with an inside, of
-- which only the first can still intersect the rectangle that is cut out.
pub subtract_region :
    (rect : Rect) (rects : List Rect)
    → IsProper rect
    → All IsProper rects
    → (out : List Rect) × (subtract rect rects ≡ some out)
      × All IsProper out
      × ((p : WorldCoord) → Leaves (contains rect p) (hits p out) (hits p rects))
      × All (Apart rect) (drop 1 out)
unfolding subtract
subtract_region rect rects solid sound =
    let o =
      loop-Outcome rect (length rects + 1) solid [] rects sound
        (omega (arith, meets-le-length rect rects)) in
    (
      o.out,
      o.returned,
      o.proper,
      λ p. leaves (contains rect p) (hits p o.out) (hits p rects) (o.outside p) (o.inside p),
      o.others_apart tt,
    )

-- Where the first rectangle of the region does not intersect the one that is cut out, `subtract`
-- leaves exactly the points outside it, each covered as often as before.
pub subtract_exact :
    (rect : Rect) (rects : List Rect)
    → IsProper rect
    → All IsProper rects
    → All (Apart rect) (take 1 rects)
    → (out : List Rect) × (subtract rect rects ≡ some out)
      × ((p : WorldCoord) → hits p out ≡ (if contains rect p then 0 else hits p rects))
unfolding subtract
subtract_exact rect rects solid sound first =
    let o =
      loop-Outcome rect (length rects + 1) solid [] rects sound
        (omega (arith, meets-le-length rect rects)) in
    (
      o.out,
      o.returned,
      λ p. elim (Bool-cases (contains rect p)) [
        | inl e ↦ rw e (no_common_point rect o.out p (o.all_apart tt first) e)
        | inr e ↦ rw e (o.outside p e)
      ],
    )
