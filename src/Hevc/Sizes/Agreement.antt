-- ===== src/Hevc/Sizes/Agreement.antt =====
-- The path for every size in hevc_intra.c at the size 4x4, against the path of its own.
use bc250_vulkan_encode_stop.Base.{ℕ, ◌≡◌, refl, ap, ◌∙◌, List, map, false, ◌≤◌, sym}
use bc250_vulkan_encode_stop.Base.Int.{ℤ}
use bc250_vulkan_encode_stop.Base.Shift.{Bounded}
use bc250_vulkan_encode_stop.Base.Loops.{upto, sum_to}
use bc250_vulkan_encode_stop.Hevc.Transform.{
  hevc_forward_transform_4x4_ref, hevc_inverse_transform_4x4_ref,
}
use bc250_vulkan_encode_stop.Hevc.Quantize.{
  divide_level, flatten, hevc_transform_quant_4x4, hevc_dequant_itransform_4x4,
  hevc_quantize_4x4_ref, dequant_one,
}
use bc250_vulkan_encode_stop.Hevc.Quantize.Reciprocal.{hevc_transform_quant_4x4-ref}
use bc250_vulkan_encode_stop.Hevc.Quantize.Folded.{hevc_dequant_itransform_4x4-ref}
use bc250_vulkan_encode_stop.Hevc.Sizes.{
  forward_transform_nxn, inverse_transform_nxn, quantize_nxn, dequant_nxn,
}

forward_transform_nxn-ref :
    (residual : List ℤ)
    → forward_transform_nxn residual 2 ≡ hevc_forward_transform_4x4_ref residual false
unfolding forward_transform_nxn hevc_forward_transform_4x4_ref upto sum_to
forward_transform_nxn-ref residual = refl

inverse_transform_nxn-ref :
    (coeff : List ℤ) → inverse_transform_nxn coeff 2 ≡ hevc_inverse_transform_4x4_ref coeff false
unfolding inverse_transform_nxn hevc_inverse_transform_4x4_ref upto sum_to
inverse_transform_nxn-ref coeff = refl

-- For a residual of int16_t values, all levels and a QP up to 51, the transforms and the
-- quantization for every size, at size 4x4, are those of the 4x4 path with the DCT, forward and
-- back.
pub nxn-at_4x4 :
    (residual coeff : List ℤ) (qp : ℕ)
    → Bounded 32768 residual
    → qp ≤ 51
    → (quantize_nxn (flatten (forward_transform_nxn residual 2)) qp 2
        ≡ hevc_transform_quant_4x4 residual qp false)
      × (inverse_transform_nxn (dequant_nxn coeff qp 2) 2
          ≡ hevc_dequant_itransform_4x4 coeff qp false)
unfolding quantize_nxn dequant_nxn hevc_quantize_4x4_ref dequant_one
nxn-at_4x4 residual coeff qp h range = (
  ap (λ (rows : List (List ℤ)). map (divide_level 5 qp) (flatten rows))
        (forward_transform_nxn-ref residual)
      ∙ sym (hevc_transform_quant_4x4-ref residual qp false h range),
  inverse_transform_nxn-ref (dequant_nxn coeff qp 2)
      ∙ sym (hevc_dequant_itransform_4x4-ref coeff qp false),
)
