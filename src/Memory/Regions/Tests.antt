-- ===== src/Memory/Regions/Tests.antt =====
-- A program and its stack, with a gap between them.
use xp_os.Prelude.{◌+◌, ◌≤◌, ◌<◌, List, [], ◌∷◌, arith}
use xp_os.Prelude.All.{All}
use xp_os.Memory.Regions.{MappedRegion, acquire_available_region}
use xp_os.Memory.Regions.Sorted.{IsSorted, acquire_available_region_lem}

abbrev regions : List MappedRegion
regions = (record { start = 0x1000; end = 0x3000 }) ∷ (record { start = 0x8000; end = 0x9000 }) ∷ []

regions-IsSorted : IsSorted regions
regions-IsSorted = record {
  apart = ((omega arith, tt), (tt, tt));
  nonempty = (omega arith, (omega arith, tt));
}

acquire_available_region_lem_example :
    ((acquire_available_region 100 regions).0.start + 100
      ≤ (acquire_available_region 100 regions).0.end)
    × ((acquire_available_region 100 regions).0.end
        < (acquire_available_region 100 regions).0.start + 100 + 0x1000)
    × All (λ r. r.end ≤ (acquire_available_region 100 regions).0.start) regions
    × IsSorted (acquire_available_region 100 regions).1
acquire_available_region_lem_example =
    acquire_available_region_lem 100 regions regions-IsSorted (omega arith) (omega arith)
      (omega arith, (omega arith, tt))
