-- ===== src/Hevc/Quantize.antt =====
-- Quantization and its inverse in hevc_intra.c: the 4x4 path, which multiplies by a reciprocal, the
-- literal division that it replaces, and the path of the larger sizes.
pub mod Reciprocal
pub mod Nearest
pub mod Folded
use bc250_vulkan_encode_stop.Base.{
  ℕ, ◌+◌, ◌-◌, ◌*◌, ◌/◌, ◌%◌, ◌^◌, List, [], ◌∷◌, map, ◌++◌, Bool, if◌then◌else◌, ltb, get_or,
}
use bc250_vulkan_encode_stop.Base.Int.{ℤ, pos, pos_part, neg_part, ◌+ℤ◌, ◌-ℤ◌, ◌*ℤ◌}
use bc250_vulkan_encode_stop.Base.Shift.{shr}
use bc250_vulkan_encode_stop.Hevc.Transform.{
  at, clip_coeff, inv_body, inv_dct4, inv_dst4, hevc_forward_transform_4x4,
}

unfoldable pub level_scale : List ℕ
level_scale = 40 ∷ 45 ∷ 51 ∷ 57 ∷ 64 ∷ 72 ∷ []

abbrev pub hevc_bdshift : ℕ
hevc_bdshift = 5

abbrev pub hevc_flat_m : ℕ
hevc_flat_m = 16

abbrev pub quant_recip_shift : ℕ
quant_recip_shift = 42

unfoldable pub quant_magic : List ℕ
quant_magic = 6871947674 ∷ 6108397933 ∷ 5389762882 ∷ 4822419421 ∷ 4294967296 ∷ 3817748708 ∷ []

unfoldable pub qpc_30_43 : List ℕ
qpc_30_43 = 29 ∷ 30 ∷ 31 ∷ 32 ∷ 33 ∷ 33 ∷ 34 ∷ 34 ∷ 35 ∷ 35 ∷ 36 ∷ 36 ∷ 37 ∷ 37 ∷ []

unfoldable pub hevc_chroma_qp_from_luma : ℤ → ℕ
unfolding qpc_30_43
hevc_chroma_qp_from_luma qp_luma =
    let qpi = if ltb 57 (pos_part qp_luma) then 57 else pos_part qp_luma in
    if ltb qpi 30 then qpi else if ltb 43 qpi then qpi - 6 else get_or qpc_30_43 (qpi - 30) 0

-- `16 * levelScale[qp % 6] << (qp / 6)`.
unfoldable pub denom_of : ℕ → ℕ
unfolding level_scale
denom_of qp = hevc_flat_m * get_or level_scale (qp % 6) 0 * 2 ^ (qp / 6)

-- A level with the sign of its coefficient, clipped to `int16_t`.
unfoldable pub signed_level : ℤ → ℕ → ℤ
unfolding clip_coeff
signed_level coeff_raw level =
    clip_coeff (if ltb 0 (neg_part coeff_raw) then pos 0 -ℤ pos level else pos level)

-- One coefficient. The product is a `uint64_t`; the sum before it fits for every `int32_t`.
unfoldable pub quantize_level : ℕ → ℤ → ℤ
unfolding denom_of quant_magic signed_level
quantize_level qp coeff_raw =
    let mag = pos_part coeff_raw + neg_part coeff_raw in
    let num = mag * 2 ^ hevc_bdshift in
    let half_denom = denom_of qp / 2 in
    let magic = get_or quant_magic (qp % 6) 0 in
    signed_level coeff_raw ((num + half_denom) * magic % 2 ^ 64 / 2 ^ (quant_recip_shift + qp / 6))

unfoldable pub quantize_levels : List ℤ → ℕ → List ℤ
unfolding quantize_level
quantize_levels raw qp = map (quantize_level qp) raw

unfoldable pub hevc_quantize_4x4 : List ℤ → ℕ → List ℤ
unfolding quantize_levels
hevc_quantize_4x4 raw qp = quantize_levels raw qp

-- One coefficient by the division, for a block of side `2 ^ (bdshift - 3)`.
unfoldable pub divide_level : ℕ → ℕ → ℤ → ℤ
unfolding denom_of signed_level
divide_level bdshift qp coeff_raw =
    let mag = pos_part coeff_raw + neg_part coeff_raw in
    let num = mag * 2 ^ bdshift in signed_level coeff_raw ((num + denom_of qp / 2) / denom_of qp)

unfoldable pub hevc_quantize_4x4_ref : List ℤ → ℕ → List ℤ
unfolding divide_level
hevc_quantize_4x4_ref raw qp = map (divide_level hevc_bdshift qp) raw

-- The rows of a block, one after the other.
unfoldable pub flatten : List (List ℤ) → List ℤ
flatten [] = []
flatten (row ∷ rows) = row ++ flatten rows

unfoldable pub hevc_transform_quant_4x4 : List ℤ → ℕ → Bool → List ℤ
unfolding hevc_forward_transform_4x4 quantize_levels flatten
hevc_transform_quant_4x4 residual qp use_dst =
    quantize_levels (flatten (hevc_forward_transform_4x4 residual use_dst)) qp

unfoldable pub dequant_one : ℤ → ℕ → ℕ → ℤ
unfolding clip_coeff
dequant_one level scale half_scale =
    clip_coeff (shr (level *ℤ pos scale +ℤ pos half_scale) hevc_bdshift)

unfoldable pub dequant_itransform_4x4_dct : List ℤ → ℕ → ℕ → List (List ℤ)
unfolding dequant_one inv_body inv_dct4 at
dequant_itransform_4x4_dct coeff scale half_scale =
    inv_body inv_dct4 (λ i. dequant_one (at coeff i) scale half_scale)

unfoldable pub dequant_itransform_4x4_dst : List ℤ → ℕ → ℕ → List (List ℤ)
unfolding dequant_one inv_body inv_dst4 at
dequant_itransform_4x4_dst coeff scale half_scale =
    inv_body inv_dst4 (λ i. dequant_one (at coeff i) scale half_scale)

unfoldable pub hevc_dequant_itransform_4x4 : List ℤ → ℕ → Bool → List (List ℤ)
unfolding denom_of dequant_itransform_4x4_dct dequant_itransform_4x4_dst
hevc_dequant_itransform_4x4 coeff qp use_dst =
    let half_scale : ℕ = 2 ^ (hevc_bdshift - 1) in
    if use_dst
    then dequant_itransform_4x4_dst coeff (denom_of qp) half_scale
    else dequant_itransform_4x4_dct coeff (denom_of qp) half_scale
