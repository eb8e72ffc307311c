-- ===== src/Hevc/Intra/Predict.antt =====
-- The prediction of a block from its references in hevc_intra.c, for 4x4 blocks and for every size.
use bc250_vulkan_encode_stop.Base.{
  ℕ, zero, suc, ◌+◌, ◌-◌, ◌*◌, ◌/◌, ◌%◌, ◌^◌, List, [], ◌∷◌, map, Bool, false, true, if◌then◌else◌,
  ltb, leb, ◌==◌, ◌&&◌, get_or, not,
}
use bc250_vulkan_encode_stop.Base.Int.{ℤ, pos, negsuc, pos_part, neg_part, ◌+ℤ◌, ◌-ℤ◌, ◌*ℤ◌}
use bc250_vulkan_encode_stop.Base.Shift.{shr, low_bits}
use bc250_vulkan_encode_stop.Base.Loops.{upto}
use bc250_vulkan_encode_stop.Hevc.Intra.Order.{
  Plane, References, gather_neighbors_wide, gather_wide_n,
}

abbrev pub mode_planar : ℕ
mode_planar = 0

abbrev pub mode_dc : ℕ
mode_dc = 1

abbrev pub mode_horizontal : ℕ
mode_horizontal = 10

abbrev pub mode_vertical : ℕ
mode_vertical = 26

abbrev pub mode_count : ℕ
mode_count = 35

unfoldable pub angle_table : List ℤ
angle_table =
    pos 0
    ∷ pos 0
    ∷ pos 32
    ∷ pos 26
    ∷ pos 21
    ∷ pos 17
    ∷ pos 13
    ∷ pos 9
    ∷ pos 5
    ∷ pos 2
    ∷ pos 0
    ∷ negsuc 1
    ∷ negsuc 4
    ∷ negsuc 8
    ∷ negsuc 12
    ∷ negsuc 16
    ∷ negsuc 20
    ∷ negsuc 25
    ∷ negsuc 31
    ∷ negsuc 25
    ∷ negsuc 20
    ∷ negsuc 16
    ∷ negsuc 12
    ∷ negsuc 8
    ∷ negsuc 4
    ∷ negsuc 1
    ∷ pos 0
    ∷ pos 2
    ∷ pos 5
    ∷ pos 9
    ∷ pos 13
    ∷ pos 17
    ∷ pos 21
    ∷ pos 26
    ∷ pos 32
    ∷ []

unfoldable pub invangle_table : List ℤ
invangle_table =
    negsuc 4095
    ∷ negsuc 1637
    ∷ negsuc 909
    ∷ negsuc 629
    ∷ negsuc 481
    ∷ negsuc 389
    ∷ negsuc 314
    ∷ negsuc 255
    ∷ negsuc 314
    ∷ negsuc 389
    ∷ negsuc 481
    ∷ negsuc 629
    ∷ negsuc 909
    ∷ negsuc 1637
    ∷ negsuc 4095
    ∷ []

unfoldable pub clip8 : ℤ → ℕ
clip8 v = if ltb 0 (neg_part v) then 0 else if ltb 255 (pos_part v) then 255 else pos_part v

unfoldable pub capped : ℕ → ℕ → ℕ
capped limit v = if ltb limit v then limit else v

-- The sample that position `k` of the reference array stands for, `main` its own side and `other`
-- the one that negative positions are projected to.
unfoldable pub projected : (ℕ → ℕ) → (ℕ → ℕ) → ℕ → ℕ → ℕ → ℤ → ℕ
unfolding capped invangle_table shr
projected main other corner side mode (pos zero) = corner
projected main other corner side mode (pos (suc k)) = main (capped (side - 1) k)
projected main other corner side mode (negsuc k) =
    let inv_idx = capped 14 (mode - 11) in
    let m = negsuc 0 +ℤ shr (negsuc k *ℤ get_or invangle_table inv_idx (pos 0) +ℤ pos 128) 8 in
    if ltb 0 (neg_part m) then corner else other (capped (side - 1) (pos_part m))

-- Two neighbours of the array, weighted.
unfoldable pub weighted : ℕ → ℕ → ℕ → ℕ
weighted fact r0 r1 = if not (fact == 0) then ((32 - fact) * r0 + fact * r1 + 16) / 2 ^ 5 else r0

unfoldable pub predict_angular_sample_n : References → ℕ → ℕ → ℕ → ℕ → ℕ
unfolding angle_table shr low_bits projected weighted
predict_angular_sample_n r side mode x y =
    let ang = get_or angle_table mode (pos 0) in
    let vert = leb 18 mode in
    let i = if vert then x else y in
    let j = if vert then y else x in
    let idx = shr (pos (j + 1) *ℤ ang) 5 in
    let fact = low_bits (pos (j + 1) *ℤ ang) 5 in
    let main = if vert then r.top else r.left in
    let other = if vert then r.left else r.top in
    let v =
      λ (pass : ℕ). projected main other r.corner side mode (pos i +ℤ idx +ℤ pos (1 + pass)) in
    weighted fact (v 0) (v 1)

-- The same for the eight references of a 4x4 block, with its clamp of the mode.
unfoldable pub predict_angular_sample : References → ℕ → ℕ → ℕ → ℕ
unfolding angle_table shr low_bits projected weighted
predict_angular_sample r mode_in x y =
    let mode = if ltb mode_in 2 then 2 else if ltb 34 mode_in then 34 else mode_in in
    let ang = get_or angle_table mode (pos 0) in
    let vert = leb 18 mode in
    let i = if vert then x else y in
    let j = if vert then y else x in
    let idx = shr (pos (j + 1) *ℤ ang) 5 in
    let fact = low_bits (pos (j + 1) *ℤ ang) 5 in
    let main = if vert then r.top else r.left in
    let other = if vert then r.left else r.top in
    let v = λ (pass : ℕ). projected main other r.corner 8 mode (pos i +ℤ idx +ℤ pos (1 + pass)) in
    weighted fact (v 0) (v 1)

-- The rows of a square block.
unfoldable pub block : ℕ → (ℕ → ℕ → ℕ) → List (List ℕ)
unfolding upto
block n sample = map (λ (y : ℕ). map (λ (x : ℕ). sample y x) (upto n)) (upto n)

-- The first row and column of a DC block are drawn to the references.
unfoldable pub dc_sample : References → ℕ → ℕ → ℕ → ℕ
dc_sample r dc zero zero = (r.left 0 + 2 * dc + r.top 0 + 2) / 2 ^ 2 % 2 ^ 8
dc_sample r dc zero (suc x) = (r.top (suc x) + 3 * dc + 2) / 2 ^ 2 % 2 ^ 8
dc_sample r dc (suc y) zero = (r.left (suc y) + 3 * dc + 2) / 2 ^ 2 % 2 ^ 8
dc_sample r dc (suc y) (suc x) = dc % 2 ^ 8

-- The first column under mode 26 and the first row under mode 10.
unfoldable pub edge_sample : References → ℕ → (ℕ → ℕ → ℕ) → ℕ → ℕ → ℕ
unfolding clip8 shr
edge_sample r mode sample y x =
    if mode == mode_vertical && x == 0
    then clip8 (pos (r.top 0) +ℤ shr (pos (r.left y) -ℤ pos r.corner) 1)
    else if mode == mode_horizontal && y == 0
    then clip8 (pos (r.left 0) +ℤ shr (pos (r.top x) -ℤ pos r.corner) 1)
    else sample y x

unfoldable pub planar_sample4 : References → ℕ → ℕ → ℕ
planar_sample4 r y x =
    ((3 - x) * r.left y + (x + 1) * r.top 4 + (3 - y) * r.top x + (y + 1) * r.left 4 + 4)
    / 2 ^ 3
    % 2 ^ 8

unfoldable pub dc4 : References → ℕ
dc4 r =
    (r.left 0 + r.left 1 + r.left 2 + r.left 3 + r.top 0 + r.top 1 + r.top 2 + r.top 3 + 4) / 2 ^ 3

-- The rows of `pred_out`.
unfoldable pub predict_block4 : References → ℕ → Bool → List (List ℕ)
unfolding planar_sample4 dc4 dc_sample edge_sample predict_angular_sample block
predict_block4 r mode is_luma =
    let angular = λ (y x : ℕ). predict_angular_sample r mode x y % 2 ^ 8 in
    if mode == mode_planar
    then block 4 (planar_sample4 r)
    else if mode == mode_dc
    then block 4 (if is_luma then dc_sample r (dc4 r) else λ y x. dc4 r % 2 ^ 8)
    else block 4 (if is_luma then edge_sample r mode angular else angular)

unfoldable pub hevc_predict_4x4 : Plane → ℕ → ℕ → ℕ → Bool → List (List ℕ)
unfolding gather_neighbors_wide predict_block4
hevc_predict_4x4 plane x0 y0 mode is_luma =
    predict_block4 (gather_neighbors_wide plane x0 y0 is_luma) mode is_luma

unfoldable pub planar_sample : References → ℕ → ℕ → ℕ → ℕ → ℕ
planar_sample r n log2_size y x =
    ((n - 1 - x) * r.left y + (x + 1) * r.top n + (n - 1 - y) * r.top x + (y + 1) * r.left n + n)
    / 2 ^ (log2_size + 1)
    % 2 ^ 8

-- `sum += left[i] + top[i]` for i below the bound.
unfoldable pub dc_sum : ℕ → References → ℕ → ℕ
dc_sum sum r zero = sum
dc_sum sum r (suc i) = dc_sum sum r i + (r.left i + r.top i)

unfoldable pub predict_block_n : References → ℕ → ℕ → ℕ → List (List ℕ)
unfolding planar_sample dc_sum dc_sample edge_sample predict_angular_sample_n block
predict_block_n r n log2_size mode =
    let angular = λ (y x : ℕ). predict_angular_sample_n r (2 * n) mode x y % 2 ^ 8 in
    if mode == mode_planar
    then block n (planar_sample r n log2_size)
    else if mode == mode_dc
    then block n (dc_sample r (dc_sum n r n / 2 ^ (log2_size + 1)))
    else block n (if ltb n 32 then edge_sample r mode angular else angular)

unfoldable pub distance_threshold : ℕ → ℕ
distance_threshold log2_size = get_or (7 ∷ 1 ∷ 0 ∷ []) (log2_size - 3) 0

unfoldable pub hevc_intra_filter_flag : ℕ → ℕ → Bool
unfolding distance_threshold
hevc_intra_filter_flag mode log2_size =
    let d1 = if ltb mode 26 then 26 - mode else mode - 26 in
    let d2 = if ltb mode 10 then 10 - mode else mode - 10 in
    let min_dist = if ltb d1 d2 then d1 else d2 in
    if ltb log2_size 3
    then false
    else if mode == mode_dc
    then false
    else if mode == mode_planar
    then true
    else ltb (distance_threshold log2_size) min_dist

-- The prediction from the references that the mode wants.
unfoldable pub predict_filtered : References × References → ℕ → ℕ → List (List ℕ)
unfolding hevc_intra_filter_flag predict_block_n
predict_filtered (r, f) mode log2_size =
    if hevc_intra_filter_flag mode log2_size
    then predict_block_n f (2 ^ log2_size) log2_size mode
    else predict_block_n r (2 ^ log2_size) log2_size mode

unfoldable pub hevc_predict_nxn : Plane → ℕ → ℕ → ℕ → ℕ → List (List ℕ)
unfolding gather_wide_n predict_filtered
hevc_predict_nxn plane x0 y0 mode log2_size =
    predict_filtered (gather_wide_n plane x0 y0 (2 ^ log2_size)) mode log2_size
