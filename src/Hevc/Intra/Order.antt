-- ===== src/Hevc/Intra/Order.antt =====
-- The coding order of hevc_intra.c and the reference samples that are there when a block is
-- predicted.
use bc250_vulkan_encode_stop.Base.{
  ℕ, zero, suc, ◌+◌, ◌-◌, ◌*◌, ◌/◌, ◌%◌, ◌^◌, List, [], ◌∷◌, ◌++◌, map, Option, none, some, Bool,
  false, true, if◌then◌else◌, ltb, leb, ◌||◌, length, replicate, get_or,
}
use bc250_vulkan_encode_stop.Base.Int.{ℤ, pos, pos_part, neg_part, sub_ℕ}
use bc250_vulkan_encode_stop.Base.Loops.{upto}

unfoldable pub zorder_rank : ℕ → ℕ → ℕ → Bool → ℕ
zorder_rank x y width is_luma =
    if is_luma
    then (let width_ctu = (width + 15) / 2 ^ 4 in
        let rank = (y / 2 ^ 4 * width_ctu + x / 2 ^ 4) * 4 + (y / 2 ^ 3 % 2 * 2 + x / 2 ^ 3 % 2) in
        rank * 4 + (y / 2 ^ 2 % 2 * 2 + x / 2 ^ 2 % 2))
    else (let width_ctu = (width + 7) / 2 ^ 3 in
        (y / 2 ^ 3 * width_ctu + x / 2 ^ 3) * 4 + (y / 2 ^ 2 % 2 * 2 + x / 2 ^ 2 % 2))

-- A plane with its layout: the sample at an index, the stride and the size of the picture.
pub record Plane : Type 0 where
  pub sample : ℕ → ℕ
  pub stride : ℕ
  pub width : ℕ
  pub height : ℕ

unfoldable pub zorder_available : ℤ → ℤ → ℕ → ℕ → Bool → ℕ → Bool
unfolding zorder_rank
zorder_available nx ny width height is_luma cur_rank =
    if ltb 0 (neg_part nx)
      || ltb 0 (neg_part ny)
      || leb width (pos_part nx)
      || leb height (pos_part ny)
    then false
    else ltb (zorder_rank (pos_part nx) (pos_part ny) width is_luma) cur_rank

-- One entry of `sv`, where `sa` says that it is there.
unfoldable pub reference : Plane → Bool → ℕ → ℤ → ℤ → Option ℕ
unfolding zorder_available
reference plane is_luma cur_rank nx ny =
    if zorder_available nx ny plane.width plane.height is_luma cur_rank
    then some (plane.sample (pos_part ny * plane.stride + pos_part nx))
    else none

-- The entries in the order of the scan: up the left side, the corner, along the top.
unfoldable pub scan_references : Plane → ℕ → ℕ → Bool → ℕ → List (Option ℕ)
unfolding zorder_rank reference upto
scan_references plane x0 y0 is_luma side =
    let cur_rank = zorder_rank x0 y0 plane.width is_luma in
    map (λ (i : ℕ). reference plane is_luma cur_rank (sub_ℕ x0 1) (pos (y0 + (side - 1 - i))))
      (upto side)
    ++ (reference plane is_luma cur_rank (sub_ℕ x0 1) (sub_ℕ y0 1)
        ∷ map (λ (x : ℕ). reference plane is_luma cur_rank (pos (x0 + x)) (sub_ℕ y0 1)) (upto side))

unfoldable pub first_available : List (Option ℕ) → Option ℕ
first_available [] = none
first_available (some v ∷ rest) = some v
first_available (none ∷ rest) = first_available rest

-- An entry that is not there takes the one before it.
unfoldable pub filled : ℕ → List (Option ℕ) → List ℕ
filled previous [] = []
filled previous (some v ∷ rest) = v ∷ filled v rest
filled previous (none ∷ rest) = previous ∷ filled previous rest

-- The entries before the first one that is there take its value.
unfoldable pub substituted : List (Option ℕ) → List ℕ
unfolding first_available filled
substituted entries = elim (first_available entries) [
  | none ↦ replicate (length entries) 128
  | some v ↦ filled v entries
]

-- `left[y]` is p[-1][y] and `top[x]` is p[x][-1].
pub record References : Type 0 where
  pub left : ℕ → ℕ
  pub top : ℕ → ℕ
  pub corner : ℕ

unfoldable pub split_references : ℕ → List ℕ → References
split_references side sv = record {
  left = λ y. get_or sv (side - 1 - y) 0;
  top = λ x. get_or sv (side + 1 + x) 0;
  corner = get_or sv side 0;
}

unfoldable pub gather : Plane → ℕ → ℕ → Bool → ℕ → References
unfolding scan_references substituted split_references
gather plane x0 y0 is_luma side =
    split_references side (substituted (scan_references plane x0 y0 is_luma side))

unfoldable pub gather_neighbors_wide : Plane → ℕ → ℕ → Bool → References
unfolding gather
gather_neighbors_wide plane x0 y0 is_luma = gather plane x0 y0 is_luma 8

-- One side under the filter 1, 2, 1; the far end has no neighbour.
unfoldable pub smoothed : ℕ → ℕ → (ℕ → ℕ) → ℕ → ℕ
smoothed side corner line zero = (corner + 2 * line 0 + line 1 + 2) / 2 ^ 2 % 2 ^ 8
smoothed side corner line (suc i) =
    if ltb (suc i) (side - 1)
    then (line i + 2 * line (suc i) + line (suc (suc i)) + 2) / 2 ^ 2 % 2 ^ 8
    else line (suc i)

unfoldable pub smooth : ℕ → References → References
unfolding smoothed
smooth side r = record {
  left = smoothed side r.corner r.left;
  top = smoothed side r.corner r.top;
  corner = (r.left 0 + 2 * r.corner + r.top 0 + 2) / 2 ^ 2 % 2 ^ 8;
}

-- The references of a luma block of side `n`, and the same under the filter.
unfoldable pub gather_wide_n : Plane → ℕ → ℕ → ℕ → References × References
unfolding gather smooth
gather_wide_n plane x0 y0 n = let r = gather plane x0 y0 true (2 * n) in (r, smooth (2 * n) r)
