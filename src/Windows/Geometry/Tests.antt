-- ===== src/Windows/Geometry/Tests.antt =====
-- A window of 10 by 10 with a hole in its middle.
use xp_os.Prelude.{◌≡◌, ◌&&◌, not, refl, arith, if◌then◌else◌}
use xp_os.Prelude.Int.{pos, ◌+ℤ◌}
use xp_os.Windows.Geometry.{WorldCoord, Rect, contains, subtract, intersects}
use xp_os.Windows.Geometry.Cut.{hits}
use xp_os.Windows.Geometry.Rest.{IsProper, subtract-hits}

abbrev window : Rect
window = record { coord = record { x = pos 0; y = pos 0 }; width = pos 10; height = pos 10 }

abbrev hole : Rect
hole = record { coord = record { x = pos 3; y = pos 4 }; width = pos 2; height = pos 2 }

hole-IsProper : IsProper hole
unfolding ◌+ℤ◌
hole-IsProper = record { wide = omega arith; high = omega arith }

abbrev point : WorldCoord
point = record { x = pos 4; y = pos 9 }

subtract-hits_example :
    hits point (subtract window hole)
    ≡ (if contains window point && not (contains hole point) then 1 else 0)
unfolding intersects ◌+ℤ◌
subtract-hits_example = subtract-hits point window hole refl hole-IsProper
