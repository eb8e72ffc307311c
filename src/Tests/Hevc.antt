-- ===== src/Tests/Hevc.antt =====
-- The HEVC parts on concrete blocks.
use bc250_vulkan_encode_stop.Base.{
  ℕ, ◌+◌, ◌*◌, ◌/◌, ◌%◌, ◌^◌, ◌<◌, ◌≡◌, arith, true, false, List, [], ◌∷◌, ◌++◌, map, some,
  if◌then◌else◌, ltb,
}
use bc250_vulkan_encode_stop.Base.Int.{ℤ, pos, negsuc}
use bc250_vulkan_encode_stop.Tests.Controls.{crude}
use bc250_vulkan_encode_stop.Cabac.Decoder.{bit_of}
use bc250_vulkan_encode_stop.Hevc.Transform.{
  hevc_forward_transform_4x4_ref, hevc_inverse_transform_4x4_ref,
}
use bc250_vulkan_encode_stop.Hevc.Quantize.{
  hevc_transform_quant_4x4, hevc_quantize_4x4_ref, hevc_dequant_itransform_4x4, flatten, denom_of,
  dequant_one, quantize_level,
}
use bc250_vulkan_encode_stop.Hevc.Quantize.Reciprocal.{hevc_transform_quant_4x4-ref}
use bc250_vulkan_encode_stop.Hevc.Quantize.Folded.{hevc_dequant_itransform_4x4-ref}
use bc250_vulkan_encode_stop.Hevc.Quantize.Nearest.{Near, dequant_one-quantize_level}
use bc250_vulkan_encode_stop.Hevc.Sizes.{
  quantize_nxn, dequant_nxn, forward_transform_nxn, inverse_transform_nxn,
}
use bc250_vulkan_encode_stop.Hevc.Sizes.Agreement.{nxn-at_4x4}
use bc250_vulkan_encode_stop.Hevc.Intra.Order.{Plane, References, gather, zorder_rank}
use bc250_vulkan_encode_stop.Hevc.Intra.Predict.{hevc_predict_nxn, hevc_predict_4x4}
use bc250_vulkan_encode_stop.Hevc.Intra.Causal.{SameBefore, hevc_predict_nxn-causal}
use bc250_vulkan_encode_stop.Hevc.Intra.Sizes.{hevc_predict_nxn-at_4x4}
use bc250_vulkan_encode_stop.Hevc.Intra.Search.{
  Best, source_block, hevc_choose_luma_mode, hevc_choose_luma_mode_nxn,
}
use bc250_vulkan_encode_stop.Hevc.Intra.Search.Least.{
  IsFirstLeast, hevc_choose_luma_mode_nxn-IsFirstLeast,
}
use bc250_vulkan_encode_stop.Hevc.Intra.Search.Chosen.{hevc_choose_luma_mode-predicted}
use bc250_vulkan_encode_stop.Hevc.Modes.{hevc_derive_mpm}
use bc250_vulkan_encode_stop.Hevc.Modes.Probable.{AreProbable, hevc_derive_mpm-AreProbable}
use bc250_vulkan_encode_stop.Hevc.Elements.{listing, code_mvd}
use bc250_vulkan_encode_stop.Hevc.Elements.LumaMode.{
  read_luma_mode, luma_mode_bins, read_luma_mode-luma_mode_bins,
}
use bc250_vulkan_encode_stop.Hevc.Elements.Vectors.{read_mvd, read_mvd-code_mvd}

-- A residual with both signs, and levels of a block.
abbrev ramp : List ℤ
ramp =
    pos 40
    ∷ pos 30
    ∷ pos 20
    ∷ pos 10
    ∷ pos 30
    ∷ pos 20
    ∷ pos 10
    ∷ pos 0
    ∷ pos 20
    ∷ pos 10
    ∷ pos 0
    ∷ negsuc 9
    ∷ pos 10
    ∷ pos 0
    ∷ negsuc 9
    ∷ negsuc 254
    ∷ []

abbrev levels : List ℤ
levels = pos 3 ∷ negsuc 1 ∷ pos 0 ∷ pos 1 ∷ []

hevc_transform_quant_4x4-ref_example :
    hevc_transform_quant_4x4 ramp 27 true
    ≡ hevc_quantize_4x4_ref (flatten (hevc_forward_transform_4x4_ref ramp true)) 27
hevc_transform_quant_4x4-ref_example =
    hevc_transform_quant_4x4-ref ramp 27 true (omega arith) (omega arith)

hevc_dequant_itransform_4x4-ref_example :
    hevc_dequant_itransform_4x4 levels 27 false
    ≡ hevc_inverse_transform_4x4_ref
        (map (λ (level : ℤ). dequant_one level (denom_of 27) 16) levels)
        false
hevc_dequant_itransform_4x4-ref_example = hevc_dequant_itransform_4x4-ref levels 27 false

dequant_one-quantize_level_example :
    Near
      (denom_of 51 / 2 + 16)
      (dequant_one (quantize_level 51 (negsuc 32639)) (denom_of 51) 16)
      (negsuc 32639)
dequant_one-quantize_level_example =
    dequant_one-quantize_level 51 (negsuc 32639) (omega arith) (omega arith, omega arith)

nxn-at_4x4_example :
    (quantize_nxn (flatten (forward_transform_nxn ramp 2)) 40 2
      ≡ hevc_transform_quant_4x4 ramp 40 false)
    × (inverse_transform_nxn (dequant_nxn levels 40 2) 2
        ≡ hevc_dequant_itransform_4x4 levels 40 false)
nxn-at_4x4_example = nxn-at_4x4 ramp levels 40 (omega arith) (omega arith)

-- A picture of 16x16 samples, and one that agrees with it on the first quarter alone.
abbrev slope : Plane
slope = record { sample = λ i. i * 7 % 251; stride = 16; width = 16; height = 16 }

abbrev quarter : ℕ → ℕ
quarter i = if ltb (i % 16) 8 then i * 7 % 251 else 0

slope-quarter : SameBefore slope quarter 8 0 true
unfolding SameBefore zorder_rank
slope-quarter x y hx hy before = ground arith

hevc_predict_nxn-causal_example :
    hevc_predict_nxn slope 8 0 34 3 ≡ hevc_predict_nxn (record slope { sample = quarter }) 8 0 34 3
hevc_predict_nxn-causal_example = hevc_predict_nxn-causal slope quarter 8 0 34 3 slope-quarter

hevc_predict_nxn-at_4x4_example :
    hevc_predict_nxn slope 8 4 19 2 ≡ hevc_predict_4x4 slope 8 4 19 true
hevc_predict_nxn-at_4x4_example = hevc_predict_nxn-at_4x4 slope 8 4 19 (omega arith)

abbrev waves : Plane
waves = record { sample = λ i. 120 + i % 10; stride = 16; width = 16; height = 16 }

abbrev edges : References
edges = gather waves 8 8 true (2 * 2 ^ 3)

hevc_choose_luma_mode_nxn-IsFirstLeast_example :
    (b : Best ℕ) × (hevc_choose_luma_mode_nxn (λ i. i * 7 % 251) slope 8 0 3 ≡ some b)
    × IsFirstLeast
        (λ m. hevc_predict_nxn slope 8 0 m 3)
        (source_block (λ i. i * 7 % 251) 16 8 0 (2 ^ 3))
        35
        b
hevc_choose_luma_mode_nxn-IsFirstLeast_example =
    hevc_choose_luma_mode_nxn-IsFirstLeast (λ i. i * 7 % 251) slope 8 0 3

hevc_choose_luma_mode-predicted_example :
    (b : Best ℤ) × (hevc_choose_luma_mode crude
        (λ a e. a)
        (λ a. a)
        (λ i. i)
        slope
        8
        4
        (pos 30)
        (0 ∷ 1 ∷ 26 ∷ [])
      ≡ some b)
    × (b.mode < 35)
    × (b.pred ≡ hevc_predict_4x4 slope 8 4 b.mode true)
hevc_choose_luma_mode-predicted_example =
    hevc_choose_luma_mode-predicted crude (λ a e. a) (λ a. a) (λ i. i) slope 8 4 (pos 30)
      (0 ∷ 1 ∷ 26 ∷ [])

hevc_derive_mpm-AreProbable_example : AreProbable (hevc_derive_mpm 33 true 33 true)
hevc_derive_mpm-AreProbable_example =
    hevc_derive_mpm-AreProbable 33 33 true true (omega arith) (omega arith)

read_luma_mode-luma_mode_bins_example :
    read_luma_mode
      (hevc_derive_mpm 10 true 26 false)
      (map bit_of (luma_mode_bins 18 (hevc_derive_mpm 10 true 26 false)) ++ true ∷ [])
    ≡ some (18, true ∷ [])
read_luma_mode-luma_mode_bins_example =
    read_luma_mode-luma_mode_bins 18 10 26 true false (true ∷ []) (omega arith) (omega arith)
      (omega arith)

read_mvd-code_mvd_example :
    read_mvd (map bit_of (code_mvd listing (negsuc 8) (pos 1) []) ++ [])
    ≡ some ((negsuc 8, pos 1), [])
read_mvd-code_mvd_example = read_mvd-code_mvd (negsuc 8) (pos 1) [] (omega arith) (omega arith)
