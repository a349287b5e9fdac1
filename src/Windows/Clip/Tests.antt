-- ===== src/Windows/Clip/Tests.antt =====
-- Two windows side by side, and a rectangle that covers a part of both.
use xp_os.Prelude.{ℕ, ◌≡◌, refl, some, List, [], ◌∷◌, arith, if◌then◌else◌, drop}
use xp_os.Prelude.All.{All}
use xp_os.Prelude.Int.{pos, ◌+ℤ◌}
use xp_os.Windows.Geometry.{WorldCoord, Rect, contains, intersects}
use xp_os.Windows.Geometry.Cut.{hits}
use xp_os.Windows.Geometry.Rest.{IsProper}
use xp_os.Windows.Clip.{subtract, intersect}
use xp_os.Windows.Clip.Subtract.{Apart}
use xp_os.Windows.Clip.Region.{Leaves, subtract_region}
use xp_os.Windows.Clip.Meet.{intersect_region, second_survives}

abbrev square : ℕ → ℕ → Rect
square x size = record {
  coord = record { x = pos x; y = pos 0 };
  width = pos size;
  height = pos size;
}

abbrev region : List Rect
region = square 0 10 ∷ square 10 10 ∷ []

abbrev between : Rect
between = square 5 10

square-IsProper : All IsProper (between ∷ square 40 10 ∷ region)
unfolding ◌+ℤ◌
square-IsProper = (
  record { wide = omega arith; high = omega arith },
  (
    record { wide = omega arith; high = omega arith },
    (
      record { wide = omega arith; high = omega arith },
      (record { wide = omega arith; high = omega arith }, tt),
    ),
  ),
)

abbrev point : WorldCoord
point = record { x = pos 2; y = pos 2 }

subtract_region_example :
    (out : List Rect) × (subtract between region ≡ some out)
    × All IsProper out
    × ((p : WorldCoord) → Leaves (contains between p) (hits p out) (hits p region))
    × All (Apart between) (drop 1 out)
subtract_region_example = subtract_region between region square-IsProper.0 square-IsProper.1.1

intersect_region_example :
    hits point (intersect between region)
    ≡ (if contains between point then hits point region else 0)
intersect_region_example = intersect_region between region point square-IsProper.1.1

second_survives_example :
    (rest : List Rect) × (subtract between region ≡ some (square 10 10 ∷ rest))
unfolding intersects ◌+ℤ◌
second_survives_example =
    second_survives between (square 0 10) (square 10 10) [] square-IsProper.0 square-IsProper.1.1
      refl
