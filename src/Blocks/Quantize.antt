-- ===== src/Blocks/Quantize.antt =====
-- Rounding in the quantization of DC values in encoder_h264.c.
use native.Mathlib.Nat.{div-add-mod', mod-lt, mul-le-mul_right}
use bc250_vulkan_encode_stop.Base.{
  ℕ, ◌+◌, ◌-◌, ◌*◌, ◌/◌, ◌%◌, ◌^◌, ◌≤◌, ◌<◌, ◌≡◌, refl, arith, true, Bool, leb→le, if◌then◌else◌,
  leb, ltb, get_or, if_split,
}
use bc250_vulkan_encode_stop.Base.Below.{all_below, all_below-holds}
use bc250_vulkan_encode_stop.Base.Int.{ℤ, pos, pos_part, neg_part, ◌-ℤ◌}
use bc250_vulkan_encode_stop.Bits.{two_pow_pos}
use bc250_vulkan_encode_stop.Blocks.{dc_level_scale0, dc_ratio, quantize_dc, quantize_dc_luma}

scale_tested : all_below (λ r. leb 1 (get_or dc_level_scale0 r 0)) 6 ≡ true
unfolding all_below dc_level_scale0
scale_tested = refl

pub nearest :
    (n d : ℕ) → 1 ≤ d → ((n + d / 2) / d * d ≤ n + d / 2) × (n + d / 2 < (n + d / 2) / d * d + d)
nearest n d h =
    let sum = div-add-mod' (n + d / 2) d in
    let rest = mod-lt (n + d / 2) h in (omega (arith, sum), omega (arith, sum, rest))

dc_ratio-positive : (av qp : ℕ) → 1 ≤ (dc_ratio av qp).1
unfolding dc_ratio
dc_ratio-positive av qp =
    let ls = get_or dc_level_scale0 (qp % 6) 0 in
    let scale : 1 ≤ ls = leb→le 1 ls (
      all_below-holds (λ r. leb 1 (get_or dc_level_scale0 r 0)) 6 (qp % 6) (omega arith)
        scale_tested) in
    if_split (λ (r : ℕ × ℕ). 1 ≤ r.1) (leb 5 (qp / 6))
      (λ large. omega (
        arith,
        scale,
        mul-le-mul_right {m = 1} {n = ls} (2 ^ (qp / 6 - 5)) scale,
        two_pow_pos (qp / 6 - 5),
      ))
      (λ small. scale)

sign_split :
    (negative1 : Bool) (level : ℕ)
    → (pos_part (if negative1 then pos 0 -ℤ pos level else pos level)
          + neg_part (if negative1 then pos 0 -ℤ pos level else pos level)
        ≡ level)
unfolding ◌-ℤ◌
sign_split negative1 level = ground arith

-- For every DC value and QP the magnitude of the level, times the step, differs from the scaled
-- magnitude of the value by no more than half a step, rounded up.
pub quantize_dc_luma-nearest :
    (v : ℤ) (qp : ℕ)
    → ((pos_part (quantize_dc_luma v qp) + neg_part (quantize_dc_luma v qp))
          * (dc_ratio (pos_part v + neg_part v) qp).1
        ≤ (dc_ratio (pos_part v + neg_part v) qp).0 + (dc_ratio (pos_part v + neg_part v) qp).1 / 2)
      × ((dc_ratio (pos_part v + neg_part v) qp).0 + (dc_ratio (pos_part v + neg_part v) qp).1 / 2
          < (pos_part (quantize_dc_luma v qp) + neg_part (quantize_dc_luma v qp))
              * (dc_ratio (pos_part v + neg_part v) qp).1
            + (dc_ratio (pos_part v + neg_part v) qp).1)
unfolding quantize_dc_luma quantize_dc
quantize_dc_luma-nearest v qp =
    let a = pos_part v + neg_part v in
    let n = (dc_ratio a qp).0 in
    let d = (dc_ratio a qp).1 in
    rw (sign_split (ltb 0 (neg_part v)) ((n + d / 2) / d)) (nearest n d (dc_ratio-positive a qp))
