-- ===== src/Windows/Geometry.antt =====
-- `Rect` and the coordinates of Userspace/System/WindowServer/Geometry.h. Coordinates are `long long`
-- and sizes `int`; they are integers here, with no wrap-around: a screen's are far from the limits.
pub mod Cut
pub mod Rest
mod Tests
use xp_os.Prelude.{◌&&◌, Bool, not, List, [], ◌∷◌, ◌++◌, if◌then◌else◌}
use xp_os.Prelude.Int.{ℤ, pos, ◌+ℤ◌, ◌-ℤ◌, ltb_ℤ, leb_ℤ}

pub record WorldCoord : Type 0 where
  pub x : ℤ
  pub y : ℤ

pub record Rect : Type 0 where
  pub coord : WorldCoord
  pub width : ℤ
  pub height : ℤ

-- `Rect()`
abbrev pub empty_rect : Rect
empty_rect = record { coord = record { x = pos 0; y = pos 0 }; width = pos 0; height = pos 0 }

abbrev pub left : Rect → ℤ
left r = r.coord.x

abbrev pub top : Rect → ℤ
top r = r.coord.y

abbrev pub right : Rect → ℤ
right r = left r +ℤ r.width

abbrev pub bottom : Rect → ℤ
bottom r = top r +ℤ r.height

unfoldable pub contains : Rect → WorldCoord → Bool
contains r wc =
    leb_ℤ (left r) wc.x && leb_ℤ (top r) wc.y && ltb_ℤ wc.x (right r) && ltb_ℤ wc.y (bottom r)

unfoldable pub contains_rect : Rect → Rect → Bool
contains_rect s r =
    leb_ℤ (left s) (left r)
    && leb_ℤ (top s) (top r)
    && leb_ℤ (right r) (right s)
    && leb_ℤ (bottom r) (bottom s)

unfoldable pub intersects : Rect → Rect → Bool
intersects s r =
    ltb_ℤ (left s) (right r)
    && ltb_ℤ (left r) (right s)
    && ltb_ℤ (top s) (bottom r)
    && ltb_ℤ (top r) (bottom s)

-- `v > low && v < high`
abbrev pub strictly_in : ℤ → ℤ → ℤ → Bool
strictly_in v low high = ltb_ℤ low v && ltb_ℤ v high

-- The four tests of `intersect`, each of which moves one edge of `r` to that of `s`.
unfoldable pub clip_left : Rect → Rect → Rect
clip_left s r =
    if strictly_in (left s) (left r) (right r)
    then record r {
      width = r.width -ℤ (left s -ℤ left r);
      coord = record { x = left s; y = top r };
    }
    else r

unfoldable pub clip_top : Rect → Rect → Rect
clip_top s r =
    if strictly_in (top s) (top r) (bottom r)
    then record r {
      height = r.height -ℤ (top s -ℤ top r);
      coord = record { x = left r; y = top s };
    }
    else r

unfoldable pub clip_right : Rect → Rect → Rect
clip_right s r =
    if strictly_in (right s) (left r) (right r)
    then record r { width = r.width -ℤ (right r -ℤ right s) }
    else r

unfoldable pub clip_bottom : Rect → Rect → Rect
clip_bottom s r =
    if strictly_in (bottom s) (top r) (bottom r)
    then record r { height = r.height -ℤ (bottom r -ℤ bottom s) }
    else r

unfoldable pub intersect : Rect → Rect → Rect
intersect s r =
    if not (intersects s r)
    then empty_rect
    else clip_bottom s (clip_right s (clip_top s (clip_left s r)))

-- The four cuts of `subtract`: the piece that lies beyond one edge of `cutting`, if there is one,
-- and what is left of the base.
unfoldable pub cut_left : Rect → Rect → List Rect × Rect
cut_left cutting base =
    if strictly_in (left cutting) (left base) (right base)
    then (let overlap = left cutting -ℤ left base in
        let piece : Rect = record { coord = base.coord; width = overlap; height = base.height } in
        (
          piece ∷ [],
          record base {
            coord = record { x = left base +ℤ overlap; y = top base };
            width = base.width -ℤ overlap;
          },
        ))
    else ([], base)

unfoldable pub cut_top : Rect → Rect → List Rect × Rect
cut_top cutting base =
    if strictly_in (top cutting) (top base) (bottom base)
    then (let overlap = top cutting -ℤ top base in
        let piece : Rect = record { coord = base.coord; width = base.width; height = overlap } in
        (
          piece ∷ [],
          record base {
            coord = record { x = left base; y = top base +ℤ overlap };
            height = base.height -ℤ overlap;
          },
        ))
    else ([], base)

unfoldable pub cut_right : Rect → Rect → List Rect × Rect
cut_right cutting base =
    if strictly_in (right cutting) (left base) (right base)
    then (let overlap = right base -ℤ right cutting in
        let piece : Rect = record {
          coord = record { x = left base +ℤ (right cutting -ℤ left base); y = top base };
          width = overlap;
          height = base.height;
        } in
        (piece ∷ [], record base { width = base.width -ℤ overlap }))
    else ([], base)

unfoldable pub cut_bottom : Rect → Rect → List Rect × Rect
cut_bottom cutting base =
    if strictly_in (bottom cutting) (top base) (bottom base)
    then (let overlap = bottom base -ℤ bottom cutting in
        let piece : Rect = record {
          coord = record { x = left base; y = top base +ℤ (bottom cutting -ℤ top base) };
          width = base.width;
          height = overlap;
        } in
        (piece ∷ [], record base { height = base.height -ℤ overlap }))
    else ([], base)

unfoldable pub subtract : Rect → Rect → List Rect
subtract base cutting =
    let (p1, b1) = cut_left cutting base in
    let (p2, b2) = cut_top cutting b1 in
    let (p3, b3) = cut_right cutting b2 in
    let (p4, b4) = cut_bottom cutting b3 in p1 ++ (p2 ++ (p3 ++ p4))

pub record ViewportCoord : Type 0 where
  pub x : ℤ
  pub y : ℤ

unfoldable pub from_world : WorldCoord → Rect → ViewportCoord
from_world wc viewport = record { x = wc.x -ℤ left viewport; y = wc.y -ℤ top viewport }

unfoldable pub world_coord : ViewportCoord → Rect → WorldCoord
world_coord vc viewport = record { x = vc.x +ℤ left viewport; y = vc.y +ℤ top viewport }
