-- ===== src/Hevc/Sizes.antt =====
-- The transforms and the quantization of hevc_intra.c for blocks of every size.
pub mod Matrix
pub mod Agreement
use bc250_vulkan_encode_stop.Base.{
  ℕ, zero, suc, ◌+◌, ◌-◌, ◌*◌, ◌^◌, List, [], map, Bool, if◌then◌else◌, ◌==◌, ltb,
}
use bc250_vulkan_encode_stop.Base.Int.{ℤ, pos, negsuc, ◌+ℤ◌, ◌-ℤ◌, ◌*ℤ◌}
use bc250_vulkan_encode_stop.Base.Shift.{shr}
use bc250_vulkan_encode_stop.Base.Loops.{upto, sum_to}
use bc250_vulkan_encode_stop.Hevc.Transform.{at, clip_coeff}
use bc250_vulkan_encode_stop.Hevc.Quantize.{
  denom_of, divide_level, flatten, hevc_transform_quant_4x4, hevc_dequant_itransform_4x4,
}
use bc250_vulkan_encode_stop.Hevc.Sizes.Matrix.{hevc_tmat}

-- A loop over the rows and one over the columns, which fill a block of side `n`.
unfoldable pub block_of : ℕ → (ℕ → ℕ → ℤ) → List (List ℤ)
block_of n f = map (λ (row : ℕ). map (f row) (upto n)) (upto n)

unfoldable pub forward_stage : ℕ → List ℤ → ℕ → ℕ → ℤ
unfolding hevc_tmat at
forward_stage log2_size residual trow tcol =
    let n : ℕ = 2 ^ log2_size in
    let shift1 = log2_size - 1 in
    let acc = sum_to n (λ r. hevc_tmat log2_size trow r *ℤ at residual (r * n + tcol)) in
    shr (acc +ℤ pos (2 ^ (shift1 - 1))) shift1

-- The rows of `out`.
unfoldable pub forward_transform_nxn : List ℤ → ℕ → List (List ℤ)
unfolding hevc_tmat forward_stage block_of
forward_transform_nxn residual log2_size =
    let n : ℕ = 2 ^ log2_size in
    let shift2 = log2_size + 6 in
    block_of n (λ trow tcol.
      let acc =
        sum_to n (λ c. hevc_tmat log2_size tcol c *ℤ forward_stage log2_size residual trow c) in
      shr (acc +ℤ pos (2 ^ (shift2 - 1))) shift2)

unfoldable pub inverse_stage : ℕ → List ℤ → ℕ → ℕ → ℤ
unfolding hevc_tmat at clip_coeff
inverse_stage log2_size coeff r c =
    let n : ℕ = 2 ^ log2_size in
    let acc = sum_to n (λ k. hevc_tmat log2_size k r *ℤ at coeff (k * n + c)) in
    clip_coeff (shr (acc +ℤ pos 64) 7)

unfoldable pub inverse_transform_nxn : List ℤ → ℕ → List (List ℤ)
unfolding hevc_tmat inverse_stage block_of clip_coeff
inverse_transform_nxn coeff log2_size =
    let n : ℕ = 2 ^ log2_size in
    block_of n (λ r c.
      let acc = sum_to n (λ k. hevc_tmat log2_size k c *ℤ inverse_stage log2_size coeff r k) in
      clip_coeff (shr (acc +ℤ pos 2048) 12))

unfoldable pub quantize_nxn : List ℤ → ℕ → ℕ → List ℤ
unfolding divide_level
quantize_nxn raw qp log2_size = map (divide_level (log2_size + 3) qp) raw

unfoldable pub dequant_nxn : List ℤ → ℕ → ℕ → List ℤ
unfolding denom_of clip_coeff
dequant_nxn coeff qp log2_size =
    let bdshift = log2_size + 3 in
    map
      (λ (level : ℤ).
        clip_coeff (shr (level *ℤ pos (denom_of qp) +ℤ pos (2 ^ (bdshift - 1))) bdshift))
      coeff

unfoldable pub hevc_transform_quant : List ℤ → ℕ → ℕ → Bool → List ℤ
unfolding hevc_transform_quant_4x4 forward_transform_nxn quantize_nxn
hevc_transform_quant residual qp log2_size use_dst =
    if log2_size == 2
    then hevc_transform_quant_4x4 residual qp use_dst
    else quantize_nxn (flatten (forward_transform_nxn residual log2_size)) qp log2_size

unfoldable pub hevc_dequant_itransform : List ℤ → ℕ → ℕ → Bool → List (List ℤ)
unfolding hevc_dequant_itransform_4x4 dequant_nxn inverse_transform_nxn
hevc_dequant_itransform coeff qp log2_size use_dst =
    if log2_size == 2
    then hevc_dequant_itransform_4x4 coeff qp use_dst
    else inverse_transform_nxn (dequant_nxn coeff qp log2_size) log2_size
