-- ===== src/MotionVectors/Standard.antt =====
-- The predictors for macroblock addresses as in H.264, 6.4.9 and 6.4.11.7: the neighbours A, B, C
-- and D of CurrMbAddr and their availability.
use native.Mathlib.Nat.{add-mul, mod-eq_of_lt}
use native.Mathlib.Decide.{ℕ_discrete}
use bc250_vulkan_encode_stop.Base.{
  ℕ, zero, suc, ◌+◌, ◌-◌, ◌*◌, ◌%◌, ◌^◌, ◌≤◌, ◌<◌, ◌≡◌, ◌≢◌, refl, sym, ap, ◌∙◌, List, Option, none,
  some, arith, if◌then◌else◌, leb, ◌==◌, ==-false, ==_iff, get_or,
}
use bc250_vulkan_encode_stop.Base.Int.{pos}
use bc250_vulkan_encode_stop.MotionVectors.{
  Mv, neighbor_at, or_else, mv_predictor, skip_mv_predictor,
}
use bc250_vulkan_encode_stop.MotionVectors.Predictor.{
  spec_mvp, spec_skip, left, top, corner, left-suc, left-zero, top-suc, top-zero, corner-zero,
  corner-left, corner-inner, outside, suc-mul, mv_predictor-spec_mvp, skip_mv_predictor-spec_skip,
}

-- The vector `back` macroblocks before the current one, which is there from the slice's first
-- macroblock on.
unfoldable pub address : List Mv → ℕ → ℕ → ℕ → Option Mv
address mvs start current back =
    if leb (start + back) current then some (get_or mvs (current - back) (pos 0, pos 0)) else none

unfoldable pub first_of : Option Mv → Option Mv → Option Mv
first_of (some c) d = some c
first_of none d = d

module _ (mvs : List Mv) (mbx mby width start : ℕ) where
  -- A: there is none in the first column.
  unfoldable pub spec_a : Option Mv
  unfolding address
  spec_a = if mbx == 0 then none else address mvs start (mby * width + mbx) 1

  unfoldable pub spec_b : Option Mv
  unfolding address
  spec_b = address mvs start (mby * width + mbx) width

  -- C, for which there is none in the last column, or where it is not available D.
  unfoldable pub spec_c : Option Mv
  unfolding address first_of
  spec_c =
      first_of
        (if mbx + 1 == width then none else address mvs start (mby * width + mbx) (width - 1))
        (if mbx == 0 then none else address mvs start (mby * width + mbx) (width + 1))

  -- The predictor of 8.4.1.3 and the vector of a skipped macroblock of 8.4.1.1.
  pub standard_mvp : Mv
  standard_mvp = spec_mvp spec_a spec_b spec_c

  pub standard_skip : Mv
  standard_skip = spec_skip spec_a spec_b spec_c

module _ (mvs : List Mv) (width start : ℕ) where
  -- A macroblock inside the picture, from one `back` macroblocks on.
  inside :
      (x y back : ℕ)
      → x < width
      → y * width + x < 2 ^ 32
      → neighbor_at mvs width start (pos x) (pos y) ≡ address mvs start (y * width + x + back) back
  unfolding neighbor_at address
  inside x y back h k =
      let same : (y * width + x) % 2 ^ 32 ≡ y * width + x + back - back =
        omega (arith, mod-eq_of_lt k) in
      rw same (ground (arith, h))

  reached :
      (x y back current : ℕ)
      → x < width
      → y * width + x < 2 ^ 32
      → y * width + x + back ≡ current
      → neighbor_at mvs width start (pos x) (pos y) ≡ address mvs start current back
  reached x y back current h k same =
      inside x y back h k ∙ ap (λ (c : ℕ). address mvs start c back) same

  otherwise : (a b : ℕ) (v : Option Mv) → a ≢ b → (if a == b then none else v) ≡ v
  otherwise a b v h = rw (==-false a b h) refl

  last_column : (a : ℕ) (v : Option Mv) → (if a == a then none else v) ≡ none
  last_column a v = rw ((==_iff a a).1 refl) refl

  too_early : (current back : ℕ) → current < start + back → address mvs start current back ≡ none
  unfolding address
  too_early current back h = ground (arith, h)

  or_else-first_of : (c d : Option Mv) → or_else c d ≡ first_of c d
  unfolding first_of
  or_else-first_of none d = refl
  or_else-first_of (some c) d = refl

  first_of-none : (c : Option Mv) → first_of c none ≡ c
  unfolding first_of
  first_of-none none = refl
  first_of-none (some c) = refl

  left-spec_a :
      (mbx mby : ℕ)
      → mbx < width
      → (mby + 1) * width < 2 ^ 32
      → left mvs mbx mby width start ≡ spec_a mvs mbx mby width start
  unfolding spec_a
  left-spec_a zero mby h k = left-zero mvs width start mby
  left-spec_a (suc x) mby h k =
      left-suc mvs width start x mby
      ∙ (reached x mby 1 (mby * width + suc x) (omega arith) (omega (arith, add-mul mby 1 width))
            (omega arith)
          ∙ sym (otherwise (suc x) 0 (address mvs start (mby * width + suc x) 1) (omega arith)))

  top-spec_b :
      (mbx mby : ℕ)
      → mbx < width
      → (mby + 1) * width < 2 ^ 32
      → top mvs mbx mby width start ≡ spec_b mvs mbx mby width start
  unfolding spec_b
  top-spec_b mbx zero h k =
      top-zero mvs width start mbx ∙ sym (too_early (0 * width + mbx) width (omega (arith, h)))
  top-spec_b mbx (suc y) h k =
      top-suc mvs width start mbx y
      ∙ reached mbx y width (suc y * width + mbx) h
          (omega (arith, suc-mul y width, add-mul (suc y) 1 width)) (omega (arith, suc-mul y width))

  -- C of the row above.
  above_right :
      (x y : ℕ)
      → x < width
      → (y + 1) * width + width < 2 ^ 32
      → neighbor_at mvs width start (pos (x + 1)) (pos y)
        ≡ (if x + 1 == width then none else address mvs start (suc y * width + x) (width - 1))
  above_right x y h k = elim (ℕ_discrete (x + 1) width) [
    | yes last ↦
        outside mvs width start (x + 1) y (λ e. omega (arith, last, e)) (omega arith)
        ∙ sym (rw last (last_column width (address mvs start (suc y * width + x) (width - 1))))
    | no before ↦
        reached (x + 1) y (width - 1) (suc y * width + x) (omega (arith, before, h)) (omega arith)
          (omega (arith, h, suc-mul y width))
        ∙ sym (otherwise (x + 1) width (address mvs start (suc y * width + x) (width - 1)) before)
  ]

  none_above : (mbx : ℕ) → mbx < width → spec_c mvs mbx 0 width start ≡ none
  unfolding spec_c first_of address
  none_above mbx h = ground (arith, h)

  corner-spec_c :
      (mbx mby : ℕ)
      → mbx < width
      → (mby + 1) * width < 2 ^ 32
      → corner mvs mbx mby width start ≡ spec_c mvs mbx mby width start
  unfolding spec_c
  corner-spec_c mbx zero h k = corner-zero mvs width start mbx ∙ sym (none_above mbx h)
  corner-spec_c zero (suc y) h k =
      let size : (y + 1) * width + width < 2 ^ 32 =
        omega (arith, add-mul (suc y) 1 width, add-mul y 1 width) in
      let right : Option Mv =
        if 0 + 1 == width then none else address mvs start (suc y * width + 0) (width - 1) in
      corner-left mvs width start y ∙ (above_right 0 y h size ∙ sym (first_of-none right))
  corner-spec_c (suc x) (suc y) h k =
      let size : (y + 1) * width + width < 2 ^ 32 =
        omega (arith, add-mul (suc y) 1 width, add-mul y 1 width) in
      let current : ℕ = suc y * width + suc x in
      let right =
        ap (λ (n : ℕ). neighbor_at mvs width start (pos n) (pos y)) {x = suc (suc x)}
          {y = suc x + 1} (omega arith)
        ∙ above_right (suc x) y h size in
      let left_ =
        reached x y (width + 1) current (omega (arith, h))
          (omega (arith, size, add-mul y 1 width, h)) (omega (arith, suc-mul y width))
        ∙ sym (otherwise (suc x) 0 (address mvs start current (width + 1)) (omega arith)) in
      corner-inner mvs width start x y
      ∙ (or_else-first_of (neighbor_at mvs width start (pos (suc (suc x))) (pos y))
            (neighbor_at mvs width start (pos x) (pos y))
          ∙ λ i. first_of (right i) (left_ i))

-- For a macroblock of a picture of fewer than 2^32 macroblocks down to its row, for every slice
-- start, the vector of a skipped macroblock is the one of H.264, 8.4.1.1: 0 where A or B, at the
-- addresses of 6.4.9, is not in the slice or has the vector 0, or else the predictor of 8.4.1.3.
pub skip_mv_predictor-standard_skip :
    (mvs : List Mv) (mbx mby width start : ℕ)
    → mbx < width
    → (mby + 1) * width < 2 ^ 32
    → skip_mv_predictor mvs mbx mby width start ≡ standard_skip mvs mbx mby width start
unfolding standard_skip
skip_mv_predictor-standard_skip mvs mbx mby width start h k =
    skip_mv_predictor-spec_skip mvs mbx mby width start ∙ λ i.
    spec_skip (left-spec_a mvs width start mbx mby h k i) (top-spec_b mvs width start mbx mby h k i)
      (corner-spec_c mvs width start mbx mby h k i)

-- For a macroblock of a picture at least two macroblocks wide and of fewer than 2^32 macroblocks
-- down to its row, in a slice that does not start in the second column of a row, mv_predictor
-- gives the predictor of H.264, 8.4.1.3, from the macroblocks at the addresses of 6.4.9 that the
-- slice has, with a median found by comparisons.
pub mv_predictor-standard_mvp :
    (mvs : List Mv) (mbx mby width start : ℕ)
    → ((r : ℕ) → start ≢ r * width + 1)
    → 2 ≤ width
    → mbx < width
    → (mby + 1) * width < 2 ^ 32
    → mv_predictor mvs mbx mby width start ≡ standard_mvp mvs mbx mby width start
unfolding standard_mvp
mv_predictor-standard_mvp mvs mbx mby width start second_column wide h k =
    mv_predictor-spec_mvp mvs width start second_column wide mbx mby h k ∙ λ i.
    spec_mvp (left-spec_a mvs width start mbx mby h k i) (top-spec_b mvs width start mbx mby h k i)
      (corner-spec_c mvs width start mbx mby h k i)
