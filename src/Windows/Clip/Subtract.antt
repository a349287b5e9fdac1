-- ===== src/Windows/Clip/Subtract.antt =====
-- The loop of `ClipRects::subtract`.
use mathlib.Core.List.{append_assoc, append-nil}
use mathlib.Core.Path.{subst}
use xp_os.Prelude.{
  ℕ, zero, suc, ◌+◌, ◌≤◌, ◌<◌, ◌≡◌, refl, ap, ◌∙◌, sym, ◌&&◌, Bool, true, false, Option, none, some,
  List, [], ◌∷◌, ◌++◌, arith, if◌then◌else◌, Bool-cases, inl, inr, take, drop, length,
}
use xp_os.Prelude.All.{All, All-append, All-mono}
use xp_os.Windows.Geometry.{WorldCoord, Rect, contains, intersects}
use xp_os.Windows.Geometry
use xp_os.Windows.Geometry.Cut.{hits}
use xp_os.Windows.Geometry.Rest.{IsProper, hits-append, subtract-hits}
use xp_os.Windows.Clip.{next_hit, restart, subtract_loop}
use xp_os.Windows.Clip.Pieces.{IsPiece, subtract-IsPiece}

abbrev pub Apart : Rect → Rect → Type 0
Apart rect r = intersects r rect ≡ false

abbrev the_hit : Bool → ℕ
the_hit b = if b then 1 else 0

-- How many rectangles intersect `rect`.
abbrev pub meets : Rect → List Rect → ℕ
meets rect [] = 0
meets rect (r ∷ rs) = (if intersects r rect then 1 else 0) + meets rect rs

meets-append : (rect : Rect) (a b : List Rect) → meets rect (a ++ b) ≡ meets rect a + meets rect b
meets-append rect [] b = omega arith
meets-append rect (r ∷ a) b = omega (arith, meets-append rect a b)

meets-All : (rect : Rect) (a : List Rect) → All (Apart rect) a → meets rect a ≡ 0
meets-All rect [] h = refl
meets-All rect (r ∷ a) h = omega (arith, meets-All rect a h.1, ap (λ b. the_hit b) h.0)

pub meets-le-length : (rect : Rect) (a : List Rect) → meets rect a ≤ length a
meets-le-length rect [] = omega arith
meets-le-length rect (r ∷ a) = ground (arith, meets-le-length rect a)

All-split : (P : Rect → Type 0) (a b : List Rect) → All P (a ++ b) → All P a × All P b
All-split P [] b h = (tt, h)
All-split P (r ∷ a) b h = let (x, y) = All-split P a b h.1 in ((h.0, x), y)

module _ (rect : Rect) where
  -- What the iterator finds.
  data Found (front rest : List Rect) : Option (List Rect × Rect × List Rect) → Type 0 where
    nothing : All (Apart rect) rest → Found front rest none
    something :
        (pre f : List Rect) (r : Rect) (rs : List Rect)
        → f ≡ front ++ pre
        → rest ≡ pre ++ (r ∷ rs)
        → All (Apart rect) pre
        → intersects r rect ≡ true
        → Found front rest (some (f, r, rs))

  Found-cons :
      (front rest : List Rect) (r : Rect) {o : Option (List Rect × Rect × List Rect)}
      → Apart rect r
      → Found (front ++ (r ∷ [])) rest o
      → Found front (r ∷ rest) o
  Found-cons front rest r e (nothing h) = nothing (e, h)
  Found-cons front rest r e (something pre f s rs g h k m) =
      something (r ∷ pre) f s rs (g ∙ append_assoc front (r ∷ []) pre) (ap (λ l. r ∷ l) h) (e, k) m

  next_hit-Found : (front rest : List Rect) → Found front rest (next_hit rect front rest)
  unfolding next_hit
  next_hit-Found front [] = nothing tt
  next_hit-Found front (r ∷ rs) = elim (Bool-cases (intersects r rect)) [
    | inl e ↦ rw e (something [] front r rs (sym (append-nil front)) refl tt e)
    | inr e ↦ rw e (Found-cons front rs r e (next_hit-Found (front ++ (r ∷ [])) rs))
  ]

  -- What the loop returns, where `front` was passed over before it and `all` is the whole list.
  pub record Outcome (front all : List Rect) (o : Option (List Rect)) : Type 0 where
    pub out : List Rect
    pub returned : o ≡ some out
    pub proper : All IsProper out
    pub outside : (p : WorldCoord) → contains rect p ≡ false → hits p out ≡ hits p all
    pub inside : (p : WorldCoord) → hits p out ≤ hits p all
    pub others_apart : All (Apart rect) (drop 1 front) → All (Apart rect) (drop 1 out)
    pub all_apart : All (Apart rect) front → All (Apart rect) (take 1 all) → All (Apart rect) out

  restart-append : (l : List Rect) → (restart l).0 ++ (restart l).1 ≡ l
  unfolding restart
  restart-append [] = refl
  restart-append (r ∷ l) = refl

  restart-front : (P : Rect → Type 0) (l : List Rect) → All P (drop 1 (restart l).0)
  unfolding restart
  restart-front P [] = tt
  restart-front P (r ∷ []) = tt
  restart-front P (r ∷ s ∷ l) = tt

  restart-take : (P : Rect → Type 0) (l : List Rect) → All P (take 1 l) → All P (restart l).0
  unfolding restart
  restart-take P [] h = tt
  restart-take P (r ∷ l) h = h

  drop-All : (P : Rect → Type 0) (l : List Rect) → All P l → All P (drop 1 l)
  drop-All P [] h = tt
  drop-All P (r ∷ l) h = h.1

  drop-append-All :
      (P : Rect → Type 0) (a b : List Rect) → All P (drop 1 a) → All P b → All P (drop 1 (a ++ b))
  drop-append-All P [] b h k = drop-All P b k
  drop-append-All P (r ∷ a) b h k = All-append P a b h k

  module _ (f : List Rect) (r : Rect) (rs : List Rect) (solid : IsProper rect)
      (sound : All IsProper (f ++ (r ∷ rs))) (met : intersects r rect ≡ true) where
    abbrev split : List Rect
    split = Geometry.subtract r rect

    abbrev new : List Rect
    new = f ++ (rs ++ split)

    parts : All IsProper f × IsProper r × All IsProper rs
    parts = let (a, b) = All-split IsProper f (r ∷ rs) sound in (a, b.0, b.1)

    pieces : All (IsPiece rect) split
    unfolding parts
    pieces = subtract-IsPiece rect r parts.1

    new-IsProper : All IsProper new
    unfolding parts
    new-IsProper = All-append IsProper f (rs ++ split) parts.0 (
        All-append IsProper rs split parts.2
          (All-mono (IsPiece rect) IsProper split (λ x h. h.proper) pieces))

    split-Apart : All (Apart rect) split
    split-Apart = All-mono (IsPiece rect) (Apart rect) split (λ x h. h.apart) pieces

    meets-new : meets rect new + 1 ≡ meets rect (f ++ (r ∷ rs))
    meets-new = omega (
      arith,
      meets-append rect f (rs ++ split),
      meets-append rect rs split,
      meets-append rect f (r ∷ rs),
      meets-All rect split split-Apart,
      ap (λ b. the_hit b) met,
    )

    hits-new :
        (p : WorldCoord)
        → hits p new + the_hit (contains r p && contains rect p) ≡ hits p (f ++ (r ∷ rs))
    hits-new p = ground (
      arith,
      hits-append p f (rs ++ split),
      hits-append p rs split,
      hits-append p f (r ∷ rs),
      subtract-hits p r rect met solid,
    )

  abbrev Ends : ℕ → Type 0
  Ends fuel =
      (front rest : List Rect)
      → All IsProper (front ++ rest)
      → meets rect (front ++ rest) < fuel
      → Outcome front (front ++ rest) (subtract_loop fuel rect front rest)

  the_hit-outside : (a b : Bool) → b ≡ false → the_hit (a && b) ≡ 0
  the_hit-outside a b h = ground arith

  -- The first rectangle stays the first, if the one that is split is another.
  take-new :
      (front pre : List Rect) (r : Rect) (rs more : List Rect)
      → intersects r rect ≡ true
      → All (Apart rect) front
      → All (Apart rect) (take 1 (front ++ (pre ++ (r ∷ rs))))
      → All (Apart rect) (take 1 ((front ++ pre) ++ more))
  take-new [] [] r rs more met h k = cc (met, k.0)
  take-new [] (x ∷ pre) r rs more met h k = k
  take-new (x ∷ front) pre r rs more met h k = k

  step :
      (fuel : ℕ) (front rest : List Rect) (o : Option (List Rect × Rect × List Rect))
      → Ends fuel
      → IsProper rect
      → All IsProper (front ++ rest)
      → meets rect (front ++ rest) < suc fuel
      → next_hit rect front rest ≡ o
      → Found front rest o
      → Outcome front (front ++ rest) (subtract_loop (suc fuel) rect front rest)
  unfolding subtract_loop
  step fuel front rest _ ih solid sound enough e (nothing h) =
      rw (e, subtract_loop)
        (record {
          out = front ++ rest;
          returned = refl;
          proper = sound;
          outside = λ p k. refl;
          inside = λ p. omega arith;
          others_apart = λ k. drop-append-All (Apart rect) front rest k h;
          all_apart = λ k l. All-append (Apart rect) front rest k h;
        })
  step fuel front rest _ ih solid sound enough e (something pre f r rs g h k met) =
      let whole : front ++ rest ≡ f ++ (r ∷ rs) =
        ap (λ l. front ++ l) h
        ∙ sym (append_assoc front pre (r ∷ rs))
        ∙ ap (λ l. l ++ (r ∷ rs)) (sym g) in
      let sound' = subst (All IsProper) whole sound in
      let n = new f r rs solid sound' met in
      let o =
        ih (restart n).0 (restart n).1
          (subst (All IsProper) (sym (restart-append n)) (new-IsProper f r rs solid sound' met))
          (omega (
            arith,
            meets-new f r rs solid sound' met,
            ap (meets rect) whole,
            ap (meets rect) (restart-append n),
          )) in
      let same = λ (p : WorldCoord). ap (hits p) (restart-append n) in
      let before = λ (p : WorldCoord). ap (hits p) whole in
      rw (e, subtract_loop)
        (record {
          out = o.out;
          returned = o.returned;
          proper = o.proper;
          outside = λ p outside. omega (
            arith,
            o.outside p outside,
            same p,
            before p,
            hits-new f r rs solid sound' met p,
            the_hit-outside (contains r p) (contains rect p) outside,
          );
          inside =
              λ p. omega (arith, o.inside p, same p, before p, hits-new f r rs solid sound' met p);
          others_apart = λ _. o.others_apart (restart-front (Apart rect) n);
          all_apart = λ a b.
              let first =
                subst (λ x. All (Apart rect) (take 1 (x ++ (rs ++ split f r rs solid sound' met))))
                  (sym g)
                  (take-new front pre r rs (rs ++ split f r rs solid sound' met) met a
                    (subst (λ x. All (Apart rect) (take 1 (front ++ x))) h b)) in
              o.all_apart (restart-take (Apart rect) n first)
                (subst (λ x. All (Apart rect) (take 1 x)) (sym (restart-append n)) first);
        })

  pub loop-Outcome : (fuel : ℕ) → IsProper rect → Ends fuel
  loop-Outcome zero solid front rest sound enough = absurd (omega arith)
  loop-Outcome (suc fuel) solid front rest sound enough =
      step fuel front rest (next_hit rect front rest) (loop-Outcome fuel solid) solid sound enough
        refl (next_hit-Found front rest)

  abbrev pub Keeps : ℕ → Type 0
  Keeps fuel =
      (b : Rect) (front rest out : List Rect)
      → subtract_loop fuel rect (b ∷ front) rest ≡ some out
      → (more : List Rect) × (out ≡ b ∷ more)

  keep_step :
      (fuel : ℕ) (b : Rect) (front rest out : List Rect)
      → Keeps fuel
      → (o : Option (List Rect × Rect × List Rect)) → next_hit rect (b ∷ front) rest ≡ o
      → Found (b ∷ front) rest o
      → subtract_loop (suc fuel) rect (b ∷ front) rest ≡ some out
      → (more : List Rect) × (out ≡ b ∷ more)
  unfolding subtract_loop
  keep_step fuel b front rest out ih _ e (nothing h) k =
      (front ++ rest, cc (rw (e, subtract_loop) at k))
  keep_step fuel b front rest out ih _ e (something pre f r rs g h m met) k =
      ih b [] (front ++ pre ++ (rs ++ Geometry.subtract r rect)) out (rw (e, subtract_loop, g) at k)

  -- Once the first rectangle is passed over it stays the first.
  pub first_stays : (fuel : ℕ) → Keeps fuel
  unfolding subtract_loop
  first_stays zero b front rest out e = cc
  first_stays (suc fuel) b front rest out e =
      keep_step fuel b front rest out (first_stays fuel) (next_hit rect (b ∷ front) rest) refl
        (next_hit-Found (b ∷ front) rest) e
