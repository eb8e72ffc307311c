-- ===== src/MotionVectors/Predictor.antt =====
-- The predictors against H.264, 8.4.1.3 and 8.4.1.1, where every macroblock of a slice refers to the
-- same picture.
use native.Mathlib.Nat.{add-mul}
use bc250_vulkan_encode_stop.Base.{
  ℕ, zero, suc, ◌+◌, ◌*◌, ◌^◌, ◌≤◌, ◌<◌, ◌≡◌, ◌≢◌, refl, sym, ◌∙◌, ◌||◌, Bool, true, false, List,
  Option, none, some, arith, if◌then◌else◌, get_or,
}
use bc250_vulkan_encode_stop.Base.Int.{ℤ, pos, negsuc, ◌+ℤ◌, ◌-ℤ◌, ltb_ℤ}
use bc250_vulkan_encode_stop.MotionVectors.Median.{median3-middle}
use bc250_vulkan_encode_stop.MotionVectors.{
  Mv, neighbor_at, neighbor_mv, median_mv, median3, predict, or_else, mv_predictor, forces_zero,
  skip_mv_predictor,
}

-- The one of three that is neither the smallest nor the largest (5.7), by comparisons.
abbrev pub middle : ℤ → ℤ → ℤ → ℤ
middle a b c =
    if ltb_ℤ a b
    then (if ltb_ℤ b c then b else if ltb_ℤ a c then c else a)
    else if ltb_ℤ a c
    then a
    else if ltb_ℤ b c
    then c
    else b

abbrev pub middle_mv : Mv → Mv → Mv → Mv
middle_mv a b c = (middle a.0 b.0 c.0, middle a.1 b.1 c.1)

-- The one neighbour that is available, or else the median with 0 for the ones that are not.
pub spec_mvp : Option Mv → Option Mv → Option Mv → Mv
spec_mvp (some a) none none = a
spec_mvp none (some b) none = b
spec_mvp none none (some c) = c
spec_mvp none none none = (pos 0, pos 0)
spec_mvp (some a) (some b) none = middle_mv a b (pos 0, pos 0)
spec_mvp (some a) (some b) (some c) = middle_mv a b c
spec_mvp (some a) none (some c) = middle_mv a (pos 0, pos 0) c
spec_mvp none (some b) (some c) = middle_mv (pos 0, pos 0) b c

-- A, B, and C or else D.
abbrev pub left : List Mv → ℕ → ℕ → ℕ → ℕ → Option Mv
left mvs mbx mby width start = neighbor_mv mvs mbx mby width start (negsuc 0) (pos 0)

abbrev pub top : List Mv → ℕ → ℕ → ℕ → ℕ → Option Mv
top mvs mbx mby width start = neighbor_mv mvs mbx mby width start (pos 0) (negsuc 0)

abbrev pub corner : List Mv → ℕ → ℕ → ℕ → ℕ → Option Mv
corner mvs mbx mby width start =
    or_else (neighbor_mv mvs mbx mby width start (pos 1) (negsuc 0))
      (neighbor_mv mvs mbx mby width start (negsuc 0) (negsuc 0))

zero_median : median_mv (pos 0, pos 0) (pos 0, pos 0) (pos 0, pos 0) ≡ (pos 0, pos 0)
unfolding median_mv median3 ◌+ℤ◌ ◌-ℤ◌
zero_median = refl

median3-is_middle : (a b c : ℤ) → median3 a b c ≡ middle a b c
median3-is_middle a b c = median3-middle a b c ∙ ground arith

median_mv-middle_mv : (a b c : Mv) → median_mv a b c ≡ middle_mv a b c
unfolding median_mv
median_mv-middle_mv (ax, ay) (bx, by) (cx, cy) =
    λ i. (median3-is_middle ax bx cx i, median3-is_middle ay by cy i)

-- The two agree unless C or B is the only one available.
predict-spec_mvp :
    (a b c : Option Mv)
    → (a ≡ none → b ≡ none → c ≡ none)
    → (a ≡ none → c ≡ none → b ≡ none)
    → predict a b c ≡ spec_mvp a b c
unfolding predict spec_mvp
predict-spec_mvp (some a) none none h k = refl
predict-spec_mvp none (some b) none h k = ground (arith, k refl refl)
predict-spec_mvp none none (some c) h k = ground (arith, h refl refl)
predict-spec_mvp none none none h k = zero_median
predict-spec_mvp (some a) (some b) none h k = median_mv-middle_mv a b (pos 0, pos 0)
predict-spec_mvp (some a) (some b) (some c) h k = median_mv-middle_mv a b c
predict-spec_mvp (some a) none (some c) h k = median_mv-middle_mv a (pos 0, pos 0) c
predict-spec_mvp none (some b) (some c) h k = median_mv-middle_mv (pos 0, pos 0) b c

-- A vector of 0.
is_still : Mv → Bool
is_still (pos zero, pos zero) = true
is_still (pos zero, pos (suc y)) = false
is_still (pos zero, negsuc y) = false
is_still (pos (suc x), y) = false
is_still (negsuc x, y) = false

-- The vector that a decoder gives a skipped macroblock (8.4.1.1).
pub spec_skip : Option Mv → Option Mv → Option Mv → Mv
unfolding is_still
spec_skip none b c = (pos 0, pos 0)
spec_skip (some a) none c = (pos 0, pos 0)
spec_skip (some a) (some b) c =
    if is_still a
    then (pos 0, pos 0)
    else if is_still b
    then (pos 0, pos 0)
    else spec_mvp (some a) (some b) c

forces_zero-is_still : (v : Mv) → forces_zero (some v) ≡ is_still v
unfolding forces_zero is_still
forces_zero-is_still (pos zero, pos zero) = refl
forces_zero-is_still (pos zero, pos (suc y)) = ground arith
forces_zero-is_still (pos zero, negsuc y) = ground arith
forces_zero-is_still (pos (suc x), y) = ground arith
forces_zero-is_still (negsuc x, y) = ground arith

either :
    (s t : Bool) (v w : Mv)
    → v ≡ w
    → (if s || t then (pos 0, pos 0) else v)
      ≡ (if s then (pos 0, pos 0) else if t then (pos 0, pos 0) else w)
either true t v w h = refl
either false true v w h = refl
either false false v w h = h

skip_lem :
    (a b c : Option Mv)
    → (if forces_zero a || forces_zero b then (pos 0, pos 0) else predict a b c) ≡ spec_skip a b c
unfolding spec_skip
skip_lem none b c = unfold forces_zero in refl
skip_lem (some (x, y)) none c = unfold forces_zero in ground arith
skip_lem (some a) (some b) c =
    rw (forces_zero-is_still a, forces_zero-is_still b)
      (either (is_still a) (is_still b) (predict (some a) (some b) c) (spec_mvp (some a) (some b) c)
        (predict-spec_mvp (some a) (some b) c (λ h k. ground (arith, h))
          (λ h k. ground (arith, h))))

-- The vector of a skipped macroblock is the one of H.264, 8.4.1.1, for every picture width and
-- slice start.
pub skip_mv_predictor-spec_skip :
    (mvs : List Mv) (mbx mby width_in_mbs start_mb : ℕ)
    → skip_mv_predictor mvs mbx mby width_in_mbs start_mb
      ≡ spec_skip
          (left mvs mbx mby width_in_mbs start_mb)
          (top mvs mbx mby width_in_mbs start_mb)
          (corner mvs mbx mby width_in_mbs start_mb)
unfolding skip_mv_predictor mv_predictor
skip_mv_predictor-spec_skip mvs mbx mby width_in_mbs start_mb =
    skip_lem (left mvs mbx mby width_in_mbs start_mb) (top mvs mbx mby width_in_mbs start_mb)
      (corner mvs mbx mby width_in_mbs start_mb)

-- Steps from a macroblock's coordinates.
back : (n : ℕ) → pos (suc n) +ℤ negsuc 0 ≡ pos n
unfolding ◌+ℤ◌
back n = ground arith

stay : (n : ℕ) → pos n +ℤ pos 0 ≡ pos n
unfolding ◌+ℤ◌
stay n = ground arith

onward : (n : ℕ) → pos n +ℤ pos 1 ≡ pos (suc n)
unfolding ◌+ℤ◌
onward n = ground arith

pub suc-mul : (n w : ℕ) → suc n * w ≡ n * w + w
suc-mul n w = omega (arith, add-mul n 1 w)

-- A macroblock of the picture that is missing lies before the slice.
missing :
    (mvs : List Mv) (width start x y : ℕ)
    → x < width
    → y * width + x < 2 ^ 32
    → neighbor_at mvs width start (pos x) (pos y) ≡ none
    → y * width + x < start
unfolding neighbor_at
missing mvs width start x y h k e = ground arith

pub outside :
    (mvs : List Mv) (width start x y : ℕ)
    → (x < width → y * width + x < start)
    → y * width + x < 2 ^ 32
    → neighbor_at mvs width start (pos x) (pos y) ≡ none
unfolding neighbor_at
outside mvs width start x y h k = ground arith

before : pos 0 +ℤ negsuc 0 ≡ negsuc 0
unfolding ◌+ℤ◌
before = refl

above : (mvs : List Mv) (width start : ℕ) (q : ℤ) → neighbor_at mvs width start q (negsuc 0) ≡ none
unfolding neighbor_at
above mvs width start (pos n) = refl
above mvs width start (negsuc n) = refl

beside : (mvs : List Mv) (width start : ℕ) (q : ℤ) → neighbor_at mvs width start (negsuc 0) q ≡ none
unfolding neighbor_at
beside mvs width start q = refl

or_else-none : (o : Option Mv) → or_else o none ≡ o
or_else-none none = refl
or_else-none (some v) = refl

or_else-first : (o p : Option Mv) → or_else o p ≡ none → (o ≡ none) × (p ≡ none)
or_else-first none p h = (refl, h)
or_else-first (some v) p h = ground (arith, h)

module _ (mvs : List Mv) (width start : ℕ) where
  pub left-suc :
      (x y : ℕ) → left mvs (suc x) y width start ≡ neighbor_at mvs width start (pos x) (pos y)
  unfolding neighbor_mv
  left-suc x y = rw (back x, stay y) refl

  pub left-zero : (y : ℕ) → left mvs 0 y width start ≡ none
  unfolding neighbor_mv neighbor_at ◌+ℤ◌
  left-zero y = refl

  pub top-suc :
      (x y : ℕ) → top mvs x (suc y) width start ≡ neighbor_at mvs width start (pos x) (pos y)
  unfolding neighbor_mv
  top-suc x y = rw (back y, stay x) refl

  pub top-zero : (x : ℕ) → top mvs x 0 width start ≡ none
  unfolding neighbor_mv
  top-zero x = rw (before, stay x) (above mvs width start (pos x))

  pub corner-zero : (x : ℕ) → corner mvs x 0 width start ≡ none
  unfolding neighbor_mv
  corner-zero x =
      rw (before, above mvs width start (pos x +ℤ pos 1), above mvs width start (pos x +ℤ negsuc 0))
        refl

  pub corner-left :
      (y : ℕ) → corner mvs 0 (suc y) width start ≡ neighbor_at mvs width start (pos 1) (pos y)
  unfolding neighbor_mv
  corner-left y =
      rw (before, back y, onward 0, beside mvs width start (pos y))
        (or_else-none (neighbor_at mvs width start (pos 1) (pos y)))

  pub corner-inner :
      (x y : ℕ)
      → corner mvs (suc x) (suc y) width start
        ≡ or_else
            (neighbor_at mvs width start (pos (suc (suc x))) (pos y))
            (neighbor_at mvs width start (pos x) (pos y))
  unfolding neighbor_mv
  corner-inner x y = rw (back x, back y, onward (suc x)) refl

  module _ (second_column : (r : ℕ) → start ≢ r * width + 1) (wide : 2 ≤ width) where
    -- Where neither A nor B is available, C is not.
    corner_absent :
        (x y : ℕ)
        → x < width
        → (y + 1) * width < 2 ^ 32
        → left mvs x y width start ≡ none
        → top mvs x y width start ≡ none
        → corner mvs x y width start ≡ none
    corner_absent x zero h k a b = corner-zero x
    corner_absent zero (suc y) h k a b =
        let size : (suc y + 1) * width ≡ y * width + width + width =
          omega (arith, add-mul (suc y) 1 width, add-mul y 1 width) in
        let late = missing mvs width start 0 y h (omega arith) (rw (sym (top-suc 0 y)) b) in
        rw (corner-left y)
          (outside mvs width start 1 y (λ e. ground (arith, second_column y)) (omega arith))
    corner_absent (suc x) (suc y) h k a b =
        let size : (suc y + 1) * width ≡ y * width + width + width =
          omega (arith, add-mul (suc y) 1 width, add-mul y 1 width) in
        let early =
          missing mvs width start x (suc y) (omega arith) (omega (arith, add-mul y 1 width))
            (rw (sym (left-suc x (suc y))) a) in
        let late =
          missing mvs width start (suc x) y h (omega arith) (rw (sym (top-suc (suc x) y)) b) in
        let right =
          outside mvs width start (suc (suc x)) y (λ e. omega (arith, add-mul y 1 width))
            (omega arith) in
        let diagonal = outside mvs width start x y (λ e. omega arith) (omega arith) in
        rw (corner-inner x y, right) diagonal

    -- Where neither A nor C is available, B is not.
    top_absent :
        (x y : ℕ)
        → x < width
        → (y + 1) * width < 2 ^ 32
        → left mvs x y width start ≡ none
        → corner mvs x y width start ≡ none
        → top mvs x y width start ≡ none
    top_absent x zero h k a c = top-zero x
    top_absent zero (suc y) h k a c =
        let size : (suc y + 1) * width ≡ y * width + width + width =
          omega (arith, add-mul (suc y) 1 width, add-mul y 1 width) in
        let early = missing mvs width start 1 y wide (omega arith) (rw (sym (corner-left y)) c) in
        rw (top-suc 0 y) (outside mvs width start 0 y (λ e. omega arith) (omega arith))
    top_absent (suc x) (suc y) h k a c =
        let size : (suc y + 1) * width ≡ y * width + width + width =
          omega (arith, add-mul (suc y) 1 width, add-mul y 1 width) in
        let early =
          missing mvs width start x (suc y) (omega arith) (omega (arith, add-mul y 1 width))
            (rw (sym (left-suc x (suc y))) a) in
        rw (top-suc (suc x) y)
          (outside mvs width start (suc x) y (λ e. omega (arith, add-mul y 1 width)) (omega arith))

    -- For a macroblock of a picture at least two macroblocks wide and of fewer than 2^32
    -- macroblocks down to its row, in a slice that does not start in the second column of a row,
    -- mv_predictor gives the predictor of H.264, 8.4.1.3.
    pub mv_predictor-spec_mvp :
        (mbx mby : ℕ)
        → mbx < width
        → (mby + 1) * width < 2 ^ 32
        → mv_predictor mvs mbx mby width start
          ≡ spec_mvp
              (left mvs mbx mby width start)
              (top mvs mbx mby width start)
              (corner mvs mbx mby width start)
    unfolding mv_predictor
    mv_predictor-spec_mvp mbx mby h k =
        predict-spec_mvp (left mvs mbx mby width start) (top mvs mbx mby width start)
          (corner mvs mbx mby width start) (λ a b. corner_absent mbx mby h k a b)
          (λ a c. top_absent mbx mby h k a c)

median-zero : (v : Mv) → median_mv (pos 0, pos 0) (pos 0, pos 0) v ≡ (pos 0, pos 0)
unfolding median_mv
median-zero (x, y) =
    rw (median3-middle (pos 0) (pos 0) x, median3-middle (pos 0) (pos 0) y) (ground arith)

second :
    (mvs : List Mv) (width : ℕ)
    → 2 ≤ width
    → neighbor_at mvs width 1 (pos 1) (pos 0) ≡ some (get_or mvs 1 (pos 0, pos 0))
unfolding neighbor_at
second mvs width h = ground arith

-- In a slice that starts at macroblock 1 of a picture at least two macroblocks wide, the first
-- macroblock of the second row has C alone: the standard predicts the vector of C, the code 0.
pub mv_predictor-lone_corner :
    (mvs : List Mv) (width : ℕ)
    → 2 ≤ width
    → (mv_predictor mvs 0 1 width 1 ≡ (pos 0, pos 0))
      × (spec_mvp (left mvs 0 1 width 1) (top mvs 0 1 width 1) (corner mvs 0 1 width 1)
          ≡ get_or mvs 1 (pos 0, pos 0))
unfolding mv_predictor
mv_predictor-lone_corner mvs width h =
    let a = left-zero mvs width 1 1 in
    let b = top-suc mvs width 1 0 0 ∙ outside mvs width 1 0 0 (λ e. omega arith) (omega arith) in
    let c = corner-left mvs width 1 0 ∙ second mvs width h in
    (
      rw (a, b, c) (unfold predict in median-zero (get_or mvs 1 (pos 0, pos 0))),
      rw (a, b, c) (unfold spec_mvp in refl),
    )
