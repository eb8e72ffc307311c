-- ===== src/Hevc/Intra/Causal.antt =====
-- The prediction of hevc_intra.c reads only what has been decoded before the block.
use bc250_vulkan_encode_stop.Base.{
  ℕ, ◌+◌, ◌-◌, ◌*◌, ◌^◌, ◌<◌, ◌≡◌, refl, ap, Bool, true, ◌∷◌, ◌++◌, map, arith, Bool-cases, inl,
  inr,
}
use bc250_vulkan_encode_stop.Base.Int.{ℤ, pos, pos_part, sub_ℕ}
use bc250_vulkan_encode_stop.Base.Loops.{upto}
use bc250_vulkan_encode_stop.Hevc.Intra.Order.{
  Plane, zorder_rank, zorder_available, reference, scan_references, substituted, split_references,
  gather, gather_neighbors_wide, gather_wide_n, smooth,
}
use bc250_vulkan_encode_stop.Hevc.Intra.Predict.{
  hevc_predict_4x4, hevc_predict_nxn, predict_block4, predict_filtered,
}

-- Two planes of one layout have the same samples where the picture is coded before the block.
unfoldable pub SameBefore : Plane → (ℕ → ℕ) → ℕ → ℕ → Bool → Type 0
SameBefore p other x0 y0 is_luma =
    (x y : ℕ)
    → x < p.width
    → y < p.height
    → zorder_rank x y p.width is_luma < zorder_rank x0 y0 p.width is_luma
    → p.sample (y * p.stride + x) ≡ other (y * p.stride + x)

available-guards :
    (nx ny : ℤ) (width height rank : ℕ) (is_luma : Bool)
    → zorder_available nx ny width height is_luma rank ≡ true
    → (pos_part nx < width)
      × (pos_part ny < height)
      × (zorder_rank (pos_part nx) (pos_part ny) width is_luma < rank)
unfolding zorder_available
available-guards nx ny width height rank is_luma h = ground arith

module _ (p : Plane) (other : ℕ → ℕ) (x0 y0 : ℕ) where
  reference-same :
      (is_luma : Bool) (nx ny : ℤ)
      → SameBefore p other x0 y0 is_luma
      → reference p is_luma (zorder_rank x0 y0 p.width is_luma) nx ny
        ≡ reference (record p { sample = other }) is_luma (zorder_rank x0 y0 p.width is_luma) nx ny
  unfolding reference SameBefore
  reference-same is_luma nx ny same =
      let rank = zorder_rank x0 y0 p.width is_luma in
      elim (Bool-cases (zorder_available nx ny p.width p.height is_luma rank)) [
        | inl there ↦
            let (inside_x, inside_y, before) =
              available-guards nx ny p.width p.height rank is_luma there in
            rw (there, same (pos_part nx) (pos_part ny) inside_x inside_y before) refl
        | inr missing ↦ rw missing refl
      ]

  scan_references-same :
      (is_luma : Bool) (side : ℕ)
      → SameBefore p other x0 y0 is_luma
      → scan_references p x0 y0 is_luma side
        ≡ scan_references (record p { sample = other }) x0 y0 is_luma side
  unfolding scan_references
  scan_references-same is_luma side same =
      let at : (nx ny : ℤ)
          → reference p is_luma (zorder_rank x0 y0 p.width is_luma) nx ny
            ≡ reference (record p { sample = other }) is_luma (zorder_rank x0 y0 p.width is_luma) nx
                ny =
        λ nx ny. reference-same is_luma nx ny same in
      λ d.
        map (λ (i : ℕ). at (sub_ℕ x0 1) (pos (y0 + (side - 1 - i))) d) (upto side)
        ++ (at (sub_ℕ x0 1) (sub_ℕ y0 1) d
            ∷ map (λ (x : ℕ). at (pos (x0 + x)) (sub_ℕ y0 1) d) (upto side))

  gather-same :
      (is_luma : Bool) (side : ℕ)
      → SameBefore p other x0 y0 is_luma
      → gather p x0 y0 is_luma side ≡ gather (record p { sample = other }) x0 y0 is_luma side
  unfolding gather
  gather-same is_luma side same =
      ap (λ entries. split_references side (substituted entries))
        (scan_references-same is_luma side same)

  pub hevc_predict_4x4-causal :
      (mode : ℕ) (is_luma : Bool)
      → SameBefore p other x0 y0 is_luma
      → hevc_predict_4x4 p x0 y0 mode is_luma
        ≡ hevc_predict_4x4 (record p { sample = other }) x0 y0 mode is_luma
  unfolding hevc_predict_4x4 gather_neighbors_wide
  hevc_predict_4x4-causal mode is_luma same =
      ap (λ r. predict_block4 r mode is_luma) (gather-same is_luma 8 same)

  -- The prediction of a block, for every mode and size, is the same from two planes of one layout
  -- that agree on the samples inside the picture that come before the block in coding order: it
  -- reads nothing else.
  pub hevc_predict_nxn-causal :
      (mode log2_size : ℕ)
      → SameBefore p other x0 y0 true
      → hevc_predict_nxn p x0 y0 mode log2_size
        ≡ hevc_predict_nxn (record p { sample = other }) x0 y0 mode log2_size
  unfolding hevc_predict_nxn gather_wide_n
  hevc_predict_nxn-causal mode log2_size same =
      ap (λ r. predict_filtered (r, smooth (2 * 2 ^ log2_size) r) mode log2_size)
        (gather-same true (2 * 2 ^ log2_size) same)
