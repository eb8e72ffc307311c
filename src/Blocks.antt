-- ===== src/Blocks.antt =====
-- The 4x4 blocks of a macroblock in encoder_h264.c: their order, the transform and quantization of
-- their DC values, and the numbers of coefficients that CAVLC takes from the neighbours.
pub mod Quantize
use bc250_vulkan_encode_stop.Base.{
  ℕ, suc, ◌+◌, ◌-◌, ◌*◌, ◌/◌, ◌%◌, ◌^◌, List, [], ◌∷◌, map, ◌++◌, Option, none, some, Bool,
  if◌then◌else◌, ltb, leb, get_or, ◌&&◌,
}
use bc250_vulkan_encode_stop.Base.Int.{ℤ, pos, negsuc, pos_part, neg_part, ◌+ℤ◌, ◌-ℤ◌, ◌*ℤ◌}

unfoldable pub blk_x4 : List ℕ
blk_x4 = 0 ∷ 1 ∷ 0 ∷ 1 ∷ 2 ∷ 3 ∷ 2 ∷ 3 ∷ 0 ∷ 1 ∷ 0 ∷ 1 ∷ 2 ∷ 3 ∷ 2 ∷ 3 ∷ []

unfoldable pub blk_y4 : List ℕ
blk_y4 = 0 ∷ 0 ∷ 1 ∷ 1 ∷ 0 ∷ 0 ∷ 1 ∷ 1 ∷ 2 ∷ 2 ∷ 3 ∷ 3 ∷ 2 ∷ 2 ∷ 3 ∷ 3 ∷ []

unfoldable pub spec_blk_idx_from_xy : List (List ℕ)
spec_blk_idx_from_xy =
    (0 ∷ 1 ∷ 4 ∷ 5 ∷ [])
    ∷ (2 ∷ 3 ∷ 6 ∷ 7 ∷ [])
    ∷ (8 ∷ 9 ∷ 12 ∷ 13 ∷ [])
    ∷ (10 ∷ 11 ∷ 14 ∷ 15 ∷ [])
    ∷ []

-- `spec_blk_idx_from_xy[y][x]`.
unfoldable pub block_at : ℕ → ℕ → ℕ
unfolding spec_blk_idx_from_xy
block_at y x = get_or (get_or spec_blk_idx_from_xy y []) x 0

unfoldable pub gpu_raster_block_idx : ℕ → ℕ
unfolding blk_x4 blk_y4
gpu_raster_block_idx blk_idx = get_or blk_y4 blk_idx 0 * 4 + get_or blk_x4 blk_idx 0

unfoldable pub dc_level_scale0 : List ℕ
dc_level_scale0 = 160 ∷ 176 ∷ 208 ∷ 224 ∷ 256 ∷ 288 ∷ []

-- The numerator and the denominator of the level of a magnitude.
unfoldable pub dc_ratio : ℕ → ℕ → ℕ × ℕ
unfolding dc_level_scale0
dc_ratio av qp =
    let qp_per = qp / 6 in
    let ls = get_or dc_level_scale0 (qp % 6) 0 in
    if leb 5 qp_per then (av, ls * 2 ^ (qp_per - 5)) else (av * 2 ^ (5 - qp_per), ls)

-- The same rule for luma and for chroma: the magnitude to the nearest level, with the sign.
unfoldable pub quantize_dc : ℤ → ℕ → ℤ
unfolding dc_ratio
quantize_dc v qp =
    let (numer, denom) = dc_ratio (pos_part v + neg_part v) qp in
    let level = (numer + denom / 2) / denom in
    if ltb 0 (neg_part v) then pos 0 -ℤ pos level else pos level

unfoldable pub quantize_dc_luma : ℤ → ℕ → ℤ
unfolding quantize_dc
quantize_dc_luma v qp = quantize_dc v qp

unfoldable pub quantize_dc_chroma : ℤ → ℕ → ℤ
unfolding quantize_dc
quantize_dc_chroma v qp = quantize_dc v qp

unfoldable pub chroma_qp_table : List ℕ
chroma_qp_table =
    29 ∷ 30 ∷ 31 ∷ 32 ∷ 32 ∷ 33 ∷ 34 ∷ 34 ∷ 35 ∷ 35 ∷ 36 ∷ 36 ∷ 37 ∷ 37 ∷ 37 ∷ 38 ∷ 38 ∷ 38 ∷ 39
    ∷ 39 ∷ 39 ∷ 39 ∷ []

unfoldable pub chroma_qp : ℕ → ℕ
unfolding chroma_qp_table
chroma_qp qpy =
    if ltb qpy 30
    then qpy
    else get_or chroma_qp_table (if ltb (qpy - 30) 22 then qpy - 30 else 21) 0

-- One pass over four values: `s01 + s23`, `s01 - s23`, `d01 - d23` and `d01 + d23`.
unfoldable pub butterfly : List ℤ → List ℤ
butterfly row =
    let s01 = get_or row 0 (pos 0) +ℤ get_or row 1 (pos 0) in
    let d01 = get_or row 0 (pos 0) -ℤ get_or row 1 (pos 0) in
    let s23 = get_or row 2 (pos 0) +ℤ get_or row 3 (pos 0) in
    let d23 = get_or row 2 (pos 0) -ℤ get_or row 3 (pos 0) in
    (s01 +ℤ s23) ∷ (s01 -ℤ s23) ∷ (d01 -ℤ d23) ∷ (d01 +ℤ d23) ∷ []

-- `(v + 1) >> 1`, which rounds down.
unfoldable pub rounded_half : ℤ → ℤ
rounded_half v = elim (v +ℤ pos 1) [ pos n ↦ pos (n / 2) | negsuc n ↦ negsuc (n / 2) ]

-- The value number `i` of every row, as a row.
unfoldable pub column : ℕ → List (List ℤ) → List ℤ
column i rows = map (λ (row : List ℤ). get_or row i (pos 0)) rows

unfoldable pub columns : List (List ℤ) → List (List ℤ)
unfolding column
columns rows = column 0 rows ∷ column 1 rows ∷ column 2 rows ∷ column 3 rows ∷ []

-- The rows of `dc_out`; the first pass leaves its results as columns.
unfoldable pub luma_dc_hadamard : List (List ℤ) → List (List ℤ)
unfolding butterfly rounded_half columns
luma_dc_hadamard dc_in =
    map (λ (row : List ℤ). map rounded_half (butterfly row)) (columns (map butterfly dc_in))

-- The rows of `dc_out` and of `dc_out_pretranspose`.
unfoldable pub h264_intra16_luma_dc_transform : List (List ℤ) → ℕ → List (List ℤ) × List (List ℤ)
unfolding luma_dc_hadamard quantize_dc_luma columns
h264_intra16_luma_dc_transform dc_in qp =
    let natural =
      map (λ (row : List ℤ). map (λ (v : ℤ). quantize_dc_luma v qp) row) (luma_dc_hadamard dc_in) in
    (columns natural, natural)

unfoldable pub chroma_dc_hadamard : ℤ → ℤ → ℤ → ℤ → List ℤ
chroma_dc_hadamard c00 c01 c10 c11 =
    (c00 +ℤ c01 +ℤ c10 +ℤ c11)
    ∷ (c00 -ℤ c01 +ℤ c10 -ℤ c11)
    ∷ (c00 +ℤ c01 -ℤ c10 -ℤ c11)
    ∷ (c00 -ℤ c01 -ℤ c10 +ℤ c11)
    ∷ []

-- The mean of two counts, or the one there is.
unfoldable pub nc_of : Option ℕ → Option ℕ → ℕ
nc_of (some a) (some b) = (a + b + 1) / 2
nc_of (some a) none = a
nc_of none (some b) = b
nc_of none none = 0

-- `nz_luma[mb][blk]` is a function here. A neighbour is there when it lies in the slice.
unfoldable pub luma_nc : (ℕ → ℕ → ℕ) → ℕ → ℕ → ℕ → ℕ → ℕ → ℕ → ℕ
unfolding nc_of block_at blk_x4 blk_y4
luma_nc nz_luma start_mb width_in_mbs mb mbx mby blk_idx =
    let x4 = get_or blk_x4 blk_idx 0 in
    let y4 = get_or blk_y4 blk_idx 0 in
    let left =
      if ltb 0 x4
      then some (nz_luma mb (block_at y4 (x4 - 1)))
      else if ltb 0 mbx && leb start_mb (mb - 1)
      then some (nz_luma (mb - 1) (block_at y4 3))
      else none in
    let above =
      if ltb 0 y4
      then some (nz_luma mb (block_at (y4 - 1) x4))
      else if ltb 0 mby && leb start_mb (mb - width_in_mbs)
      then some (nz_luma (mb - width_in_mbs) (block_at 3 x4))
      else none in
    nc_of left above

unfoldable pub chroma_nc : (ℕ → ℕ → ℕ) → ℕ → ℕ → ℕ → ℕ → ℕ → ℕ → ℕ
unfolding nc_of
chroma_nc nz_c mb mbx mby width_in_mbs start_mb blk_idx =
    let x2 = blk_idx % 2 in
    let y2 = blk_idx / 2 in
    let left =
      if ltb 0 x2
      then some (nz_c mb (y2 * 2 + (x2 - 1)))
      else if ltb 0 mbx && leb start_mb (mb - 1)
      then some (nz_c (mb - 1) (y2 * 2 + 1))
      else none in
    let above =
      if ltb 0 y2
      then some (nz_c mb ((y2 - 1) * 2 + x2))
      else if ltb 0 mby && leb start_mb (mb - width_in_mbs)
      then some (nz_c (mb - width_in_mbs) (2 + x2))
      else none in
    nc_of left above
