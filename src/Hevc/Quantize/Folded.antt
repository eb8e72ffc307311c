-- ===== src/Hevc/Quantize/Folded.antt =====
-- The dequantization of hevc_intra.c that is folded into the loads of the inverse transform.
use mathlib.Core.Path.{fun_ext}
use bc250_vulkan_encode_stop.Base.{
  ℕ, zero, suc, ◌≡◌, refl, ap, sym, ◌∙◌, List, [], ◌∷◌, map, Bool, true, false,
}
use bc250_vulkan_encode_stop.Base.Int.{ℤ, pos, ◌*ℤ◌, ◌+ℤ◌}
use bc250_vulkan_encode_stop.Base.Shift.{shr, ring_laws}
use bc250_vulkan_encode_stop.Hevc.Transform.{
  at, inv_body, inv_dct4, inv_dst4, clip_coeff, hevc_inverse_transform_4x4,
  hevc_inverse_transform_4x4_ref,
}
use bc250_vulkan_encode_stop.Hevc.Transform.Butterflies.{hevc_inverse_transform_4x4-ref}
use bc250_vulkan_encode_stop.Hevc.Quantize.{dequant_one, denom_of, hevc_dequant_itransform_4x4}

at-map : (f : ℤ → ℤ) (vs : List ℤ) (i : ℕ) → f (pos 0) ≡ pos 0 → at (map f vs) i ≡ f (at vs i)
unfolding at
at-map f [] i h = sym h
at-map f (v ∷ vs) zero h = refl
at-map f (v ∷ vs) (suc i) h = at-map f vs i h

no_product : (d : ℕ) → pos 0 *ℤ pos d ≡ pos 0
no_product d = omega ring_laws

dequant_one-zero : (d : ℕ) → dequant_one (pos 0) d 16 ≡ pos 0
unfolding dequant_one shr clip_coeff ◌+ℤ◌
dequant_one-zero d = rw (no_product d) refl

loads :
    (coeff : List ℤ) (qp : ℕ)
    → (λ i. dequant_one (at coeff i) (denom_of qp) 16)
      ≡ at (map (λ (level : ℤ). dequant_one level (denom_of qp) 16) coeff)
loads coeff qp = fun_ext λ i. sym (
    at-map (λ (level : ℤ). dequant_one level (denom_of qp) 16) coeff i
      (dequant_one-zero (denom_of qp)))

folded :
    (coeff : List ℤ) (qp : ℕ) (use_dst : Bool)
    → hevc_dequant_itransform_4x4 coeff qp use_dst
      ≡ hevc_inverse_transform_4x4
          (map (λ (level : ℤ). dequant_one level (denom_of qp) 16) coeff)
          use_dst
unfolding hevc_dequant_itransform_4x4 hevc_inverse_transform_4x4
folded coeff qp true = ap (inv_body inv_dst4) (loads coeff qp)
folded coeff qp false = ap (inv_body inv_dct4) (loads coeff qp)

-- For all levels, every QP and both transforms, the inverse transform by butterflies with the
-- dequantization in its loads, which does not clip its second stage, gives the clipped matrix
-- products of the dequantized levels.
pub hevc_dequant_itransform_4x4-ref :
    (coeff : List ℤ) (qp : ℕ) (use_dst : Bool)
    → hevc_dequant_itransform_4x4 coeff qp use_dst
      ≡ hevc_inverse_transform_4x4_ref
          (map (λ (level : ℤ). dequant_one level (denom_of qp) 16) coeff)
          use_dst
hevc_dequant_itransform_4x4-ref coeff qp use_dst =
    folded coeff qp use_dst
    ∙ hevc_inverse_transform_4x4-ref (map (λ (level : ℤ). dequant_one level (denom_of qp) 16) coeff)
        use_dst
