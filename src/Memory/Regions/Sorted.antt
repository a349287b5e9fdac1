-- ===== src/Memory/Regions/Sorted.antt =====
-- The regions stay sorted and apart, and a region that was acquired is new.
use xp_os.Prelude.{
  ℕ, ◌+◌, ◌≤◌, ◌<◌, ◌≡◌, refl, ap, sym, ◌∙◌, true, false, ◌==◌, ltb, List, [], ◌∷◌, ◌++◌,
  if◌then◌else◌, arith, eq→==, Bool-cases, inl, inr, ◌^◌,
}
use mathlib.Core.Path.{subst}
use xp_os.Prelude.Word.{u64, sub64}
use xp_os.Prelude.All.{All, All-append, IsOrdered}
use xp_os.Memory.Regions.{
  MappedRegion, page_align_up, insert_region, extract_region, region_begin, signed_leb,
  acquire_available_region,
}

-- One region ends before another starts.
abbrev pub Precedes : MappedRegion → MappedRegion → Type 0
Precedes r s = r.end ≤ s.start

abbrev pub IsNonempty : MappedRegion → Type 0
IsNonempty r = r.start < r.end

pub record IsSorted (regions : List MappedRegion) : Type 0 where
  pub apart : IsOrdered Precedes regions
  pub nonempty : All IsNonempty regions

-- The list has a region after all others at its end.
abbrev EndsBefore : ℕ → MappedRegion → Type 0
EndsBefore a r = r.end ≤ a

starts_before :
    (r region : MappedRegion)
    → r.end ≤ region.start
    → r.start < r.end
    → ltb r.start region.start ≡ true
starts_before r region h n = ground arith

starts_elsewhere :
    (r region : MappedRegion)
    → r.end ≤ region.start
    → r.start < r.end
    → (r.start == region.start) ≡ false
starts_elsewhere r region h n = ground arith

-- A region that starts where all others have ended goes to the end of the list.
insert_last :
    (region : MappedRegion) (rs : List MappedRegion)
    → All (EndsBefore region.start) rs
    → All IsNonempty rs
    → insert_region region rs ≡ rs ++ (region ∷ [])
unfolding insert_region
insert_last region [] h n = refl
insert_last region (r ∷ rs) h n =
    rw (starts_before r region h.0 n.0) (ap (λ l. r ∷ l) (insert_last region rs h.1 n.1))

ends_before :
    (r next : MappedRegion) (a : ℕ)
    → r.end ≤ next.start
    → next.start < next.end
    → next.end ≤ a
    → r.end ≤ a
ends_before r next a h n k = omega arith

-- The region to come starts at the end of the last one, or later.
begin_last :
    (size begin : ℕ) (rs : List MappedRegion)
    → IsSorted rs
    → All (EndsBefore (region_begin size begin rs)) rs
unfolding region_begin
begin_last size begin [] h = tt
begin_last size begin (r ∷ []) h = (omega arith, tt)
begin_last size begin (r ∷ next ∷ rs) h =
    let begin' = if signed_leb size (sub64 next.start r.end) then r.end else begin in
    let later =
      begin_last size begin' (next ∷ rs) (record { apart = h.apart.1; nonempty = h.nonempty.1 }) in
    (
      ends_before r next (region_begin size begin' (next ∷ rs)) h.apart.0.0 h.nonempty.1.0 later.0,
      later,
    )

append-IsSorted :
    (region : MappedRegion) (rs : List MappedRegion)
    → IsSorted rs
    → All (EndsBefore region.start) rs
    → IsNonempty region
    → IsSorted (rs ++ (region ∷ []))
append-IsSorted region [] h b n = record { apart = (tt, tt); nonempty = (n, tt) }
append-IsSorted region (r ∷ rs) h b n =
    let later =
      append-IsSorted region rs (record { apart = h.apart.1; nonempty = h.nonempty.1 }) b.1 n in
    record {
      apart = (All-append (Precedes r) rs (region ∷ []) h.apart.0 (b.0, tt), later.apart);
      nonempty = (h.nonempty.0, later.nonempty);
    }

extract_last :
    (region : MappedRegion) (rs : List MappedRegion)
    → All (EndsBefore region.start) rs
    → All IsNonempty rs
    → extract_region region.start (rs ++ (region ∷ [])) ≡ (region, rs)
unfolding extract_region
extract_last region [] h n = rw (eq→== region.start region.start refl) refl
extract_last region (r ∷ rs) h n =
    rw (starts_elsewhere r region h.0 n.0)
      (ap (λ x. (x.0, r ∷ x.1)) (extract_last region rs h.1 n.1))

-- The region to come starts below any bound on the addresses in use.
begin-bounded :
    (size begin limit : ℕ) (rs : List MappedRegion)
    → begin ≤ limit
    → All (EndsBefore limit) rs
    → region_begin size begin rs ≤ limit
unfolding region_begin
begin-bounded size begin limit [] b h = b
begin-bounded size begin limit (r ∷ []) b h = h.0
begin-bounded size begin limit (r ∷ next ∷ rs) b h =
    begin-bounded size (if signed_leb size (sub64 next.start r.end) then r.end else begin) limit
      (next ∷ rs)
      (elim (Bool-cases (signed_leb size (sub64 next.start r.end))) [
        | inl e ↦ rw e h.0
        | inr e ↦ rw e b
      ])
      h.1

module _ (size : ℕ) (regions : List MappedRegion) (sorted : IsSorted regions) (some_size : 0 < size)
    (small : size < 2 ^ 62) (low : All (EndsBefore (2 ^ 63)) regions) where
  abbrev acquired : MappedRegion
  acquired = (acquire_available_region size regions).0

  after_all : All (EndsBefore acquired.start) regions
  unfolding acquire_available_region
  after_all = begin_last (page_align_up size) 0x1000 regions sorted

  at_end : (acquire_available_region size regions).1 ≡ regions ++ (acquired ∷ [])
  unfolding acquire_available_region
  at_end = insert_last acquired regions after_all sorted.nonempty

  start_low : acquired.start ≤ 2 ^ 63
  unfolding acquire_available_region
  start_low = begin-bounded (page_align_up size) 0x1000 (2 ^ 63) regions (omega arith) low

  end_is : acquired.end ≡ u64 (acquired.start + page_align_up size)
  unfolding acquire_available_region
  end_is = refl

  holds_size : acquired.start + size ≤ acquired.end
  holds_size = omega (arith, end_is, start_low, small)

  is_nonempty : IsNonempty acquired
  is_nonempty = omega (arith, holds_size, some_size)

  -- A region is acquired of a size that is positive and below 2^62. The regions in use are sorted,
  -- apart, not empty, and end at 2^63 or below. The new region holds the size, and less than a page
  -- more, it starts behind all others, and the list is still sorted, its regions apart.
  pub acquire_available_region_lem :
      (acquired.start + size ≤ acquired.end)
      × (acquired.end < acquired.start + size + 0x1000)
      × All (EndsBefore acquired.start) regions
      × IsSorted (acquire_available_region size regions).1
  acquire_available_region_lem = (
    holds_size,
    omega (arith, end_is, start_low, small),
    after_all,
    subst IsSorted (sym at_end) (append-IsSorted acquired regions sorted after_all is_nonempty),
  )

  -- Extracting a region that was just acquired gives it back, and the list from before.
  pub extract_region-acquire :
      extract_region acquired.start (acquire_available_region size regions).1 ≡ (acquired, regions)
  extract_region-acquire =
      ap (extract_region acquired.start) at_end
      ∙ extract_last acquired regions after_all sorted.nonempty
