-- ===== src/MotionVectors.antt =====
-- The motion vector predictors of approach1-compute-encoder/src/encoder_h264.c: `neighbor_mv`,
-- `mv_predictor` and `skip_mv_predictor`. An unavailable neighbour is `none`; the vectors of the
-- macroblocks are a list, and coordinates fit an int.
pub mod Median
pub mod Predictor
pub mod Standard
use bc250_vulkan_encode_stop.Base.{
  ℕ, ◌+◌, ◌*◌, ◌%◌, ◌^◌, Bool, true, ◌&&◌, ◌||◌, List, Option, none, some, ltb, leb, if◌then◌else◌,
  get_or,
}
use bc250_vulkan_encode_stop.Base.Int.{ℤ, pos, negsuc, ltb_ℤ, ◌+ℤ◌, ◌-ℤ◌}
use bc250_vulkan_encode_stop.Encoder.{same_ℤ}

abbrev pub Mv : Type 0
Mv = ℤ × ℤ

-- The neighbour of macroblock coordinates `nbx`, `nby`.
unfoldable pub neighbor_at : List Mv → ℕ → ℕ → ℤ → ℤ → Option Mv
neighbor_at mvs width_in_mbs start_mb (negsuc x) nby = none
neighbor_at mvs width_in_mbs start_mb (pos x) (negsuc y) = none
neighbor_at mvs width_in_mbs start_mb (pos x) (pos y) =
    let nb = (y * width_in_mbs + x) % 2 ^ 32 in
    if leb width_in_mbs x
    then none
    else (if ltb nb start_mb then none else some (get_or mvs nb (pos 0, pos 0)))

unfoldable pub neighbor_mv : List Mv → ℕ → ℕ → ℕ → ℕ → ℤ → ℤ → Option Mv
unfolding neighbor_at
neighbor_mv mvs mbx mby width_in_mbs start_mb dx dy =
    neighbor_at mvs width_in_mbs start_mb (pos mbx +ℤ dx) (pos mby +ℤ dy)

abbrev pub min_ℤ : ℤ → ℤ → ℤ
min_ℤ a b = if ltb_ℤ a b then a else b

abbrev pub max_ℤ : ℤ → ℤ → ℤ
max_ℤ a b = if ltb_ℤ b a then a else b

unfoldable pub median3 : ℤ → ℤ → ℤ → ℤ
median3 a b c =
    a
    +ℤ b
    +ℤ c
    -ℤ (if ltb_ℤ a b then min_ℤ a c else min_ℤ b c)
    -ℤ (if ltb_ℤ b a then max_ℤ a c else max_ℤ b c)

-- The vector of a neighbour, 0 if there is none.
abbrev pub or_zero : Option Mv → Mv
or_zero none = (pos 0, pos 0)
or_zero (some v) = v

unfoldable pub median_mv : Mv → Mv → Mv → Mv
unfolding median3
median_mv a b c = (median3 a.0 b.0 c.0, median3 a.1 b.1 c.1)

-- The predictor of the neighbours A, B and C, D having replaced C.
unfoldable pub predict : Option Mv → Option Mv → Option Mv → Mv
unfolding median_mv
predict (some a) none none = a
predict none none none = median_mv (pos 0, pos 0) (pos 0, pos 0) (pos 0, pos 0)
predict a (some b) c = median_mv (or_zero a) b (or_zero c)
predict (some a) none (some c) = median_mv a (pos 0, pos 0) c
predict none none (some c) = median_mv (pos 0, pos 0) (pos 0, pos 0) c

abbrev pub or_else : Option Mv → Option Mv → Option Mv
or_else none d = d
or_else (some c) d = some c

unfoldable pub mv_predictor : List Mv → ℕ → ℕ → ℕ → ℕ → Mv
unfolding predict neighbor_mv
mv_predictor mvs mbx mby width_in_mbs start_mb =
    let neighbor = neighbor_mv mvs mbx mby width_in_mbs start_mb in
    predict (neighbor (negsuc 0) (pos 0)) (neighbor (pos 0) (negsuc 0))
      (or_else (neighbor (pos 1) (negsuc 0)) (neighbor (negsuc 0) (negsuc 0)))

-- Whether a neighbour forces a skipped macroblock's vector to 0.
unfoldable pub forces_zero : Option Mv → Bool
unfolding same_ℤ
forces_zero none = true
forces_zero (some (x, y)) = same_ℤ x (pos 0) && same_ℤ y (pos 0)

-- `skip_mv_predictor_ex`: the vector, and whether it was forced to 0.
unfoldable pub skip_mv_predictor_ex : List Mv → ℕ → ℕ → ℕ → ℕ → Mv × Bool
unfolding forces_zero neighbor_mv mv_predictor
skip_mv_predictor_ex mvs mbx mby width_in_mbs start_mb =
    let neighbor = neighbor_mv mvs mbx mby width_in_mbs start_mb in
    let zero_force =
      forces_zero (neighbor (negsuc 0) (pos 0)) || forces_zero (neighbor (pos 0) (negsuc 0)) in
    let median = mv_predictor mvs mbx mby width_in_mbs start_mb in
    (if zero_force then (pos 0, pos 0) else median, zero_force)

unfoldable pub skip_mv_predictor : List Mv → ℕ → ℕ → ℕ → ℕ → Mv
unfolding skip_mv_predictor_ex
skip_mv_predictor mvs mbx mby width_in_mbs start_mb =
    (skip_mv_predictor_ex mvs mbx mby width_in_mbs start_mb).0
