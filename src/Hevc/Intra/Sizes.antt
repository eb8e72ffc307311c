-- ===== src/Hevc/Intra/Sizes.antt =====
-- The prediction for every size in hevc_intra.c at the size 4x4, against the prediction of its own.
use mathlib.Core.Path.{fun_ext}
use bc250_vulkan_encode_stop.Base.{
  ℕ, ◌+◌, ◌/◌, ◌%◌, ◌^◌, ◌≤◌, ◌≡◌, refl, ap, true, ◌==◌, arith, ==-differs, ltb-false, Bool-cases,
  inl, inr,
}
use bc250_vulkan_encode_stop.Hevc.Intra.Order.{
  Plane, References, gather, gather_neighbors_wide, gather_wide_n,
}
use bc250_vulkan_encode_stop.Hevc.Intra.Predict.{
  hevc_predict_4x4, hevc_predict_nxn, predict_block4, predict_block_n, predict_filtered,
  predict_angular_sample, predict_angular_sample_n, planar_sample, planar_sample4, dc_sum, dc4,
  dc_sample, edge_sample, block, hevc_intra_filter_flag,
}

predict_angular_sample-eight :
    (r : References) (mode x y : ℕ)
    → 2 ≤ mode
    → mode ≤ 34
    → predict_angular_sample_n r 8 mode x y ≡ predict_angular_sample r mode x y
unfolding predict_angular_sample predict_angular_sample_n
predict_angular_sample-eight r mode x y least most =
    rw (ltb-false mode 2 least, ltb-false 34 mode most) refl

dc_sum-four : (r : References) → dc_sum 4 r 4 / 2 ^ (2 + 1) ≡ dc4 r
unfolding dc_sum dc4
dc_sum-four r = omega arith

predict_block_n-at_4x4 :
    (r : References) (mode : ℕ)
    → mode ≤ 34
    → predict_block_n r 4 2 mode ≡ predict_block4 r mode true
unfolding predict_block_n predict_block4 planar_sample planar_sample4
predict_block_n-at_4x4 r mode most = elim (Bool-cases (mode == 0)) [
  | inl planar ↦ rw planar refl
  | inr angular ↦ rw angular (elim (Bool-cases (mode == 1)) [
    | inl dc ↦ rw dc (ap (λ (d : ℕ). block 4 (dc_sample r d)) (dc_sum-four r))
    | inr other ↦ rw other (
        ap (λ f. block 4 (edge_sample r mode f))
          (fun_ext λ y. fun_ext λ x.
            ap (λ (v : ℕ). v % 2 ^ 8)
              (predict_angular_sample-eight r mode x y
                (omega (arith, ==-differs mode 0 angular, ==-differs mode 1 other)) most)))
  ])
]

-- For every mode up to 34 the prediction for every size at size 4x4 is the prediction of 4x4 luma
-- blocks.
pub hevc_predict_nxn-at_4x4 :
    (plane : Plane) (x0 y0 mode : ℕ)
    → mode ≤ 34
    → hevc_predict_nxn plane x0 y0 mode 2 ≡ hevc_predict_4x4 plane x0 y0 mode true
unfolding hevc_predict_nxn hevc_predict_4x4 predict_filtered gather_wide_n gather_neighbors_wide
    hevc_intra_filter_flag
hevc_predict_nxn-at_4x4 plane x0 y0 mode most =
    predict_block_n-at_4x4 (gather plane x0 y0 true 8) mode most
