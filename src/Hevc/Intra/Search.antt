-- ===== src/Hevc/Intra/Search.antt =====
-- The choice of a luma mode in hevc_intra.c: over all modes by the sum of absolute differences, and
-- for 4x4 blocks over a coarse grid and its refinement by a cost in doubles.
use bc250_vulkan_encode_stop.Base.{
  ℕ, zero, suc, ◌+◌, ◌-◌, ◌*◌, ◌/◌, ◌^◌, List, [], ◌∷◌, Option, none, some, Bool, false, true,
  if◌then◌else◌, ltb, leb, ◌==◌, ◌&&◌, ◌||◌, get_or, set, replicate, map,
}
use bc250_vulkan_encode_stop.Base.Int.{ℤ, pos, negsuc, pos_part, neg_part, ◌+ℤ◌, ◌-ℤ◌, ltb_ℤ}
pub mod Least
pub mod Chosen
use bc250_vulkan_encode_stop.RateControl.{Doubles}
use bc250_vulkan_encode_stop.Hevc.Intra.Order.{
  Plane, References, gather_wide_n, gather_neighbors_wide,
}
use bc250_vulkan_encode_stop.Hevc.Intra.Predict.{
  block, predict_filtered, predict_block4, mode_planar, mode_dc, mode_count,
}

unfoldable pub sad_row : List ℕ → List ℕ → ℕ
sad_row (a ∷ as1) (b ∷ bs) = (if ltb a b then b - a else a - b) + sad_row as1 bs
sad_row as1 bs = 0

-- The sum of the absolute differences of two blocks, by rows.
unfoldable pub sad : List (List ℕ) → List (List ℕ) → ℕ
unfolding sad_row
sad (a ∷ as1) (b ∷ bs) = sad_row a b + sad as1 bs
sad as1 bs = 0

-- The block of the source at a position.
unfoldable pub source_block : (ℕ → ℕ) → ℕ → ℕ → ℕ → ℕ → List (List ℕ)
unfolding block
source_block src_y stride x0 y0 n = block n (λ y x. src_y ((y0 + y) * stride + x0 + x))

-- The best candidate so far, of cost `C`.
pub record Best {ℓ} (C : Type ℓ) : Type ℓ where
  pub mode : ℕ
  pub cost : C
  pub pred : List (List ℕ)

-- A candidate takes the place of the best one when there is none or it costs less.
unfoldable pub better {ℓ} :
    {C : Type ℓ} → (C → C → Bool) → Option (Best C) → Best C → Option (Best C)
better less none candidate = some candidate
better less (some best) candidate =
    if less candidate.cost best.cost then some candidate else some best

-- The loop after the first `count` modes.
unfoldable pub search_modes : (ℕ → List (List ℕ)) → List (List ℕ) → ℕ → Option (Best ℕ)
unfolding sad better
search_modes predict src zero = none
search_modes predict src (suc m) =
    better ltb (search_modes predict src m)
      (record { mode = m; cost = sad src (predict m); pred = predict m })

unfoldable pub hevc_choose_luma_mode_nxn : (ℕ → ℕ) → Plane → ℕ → ℕ → ℕ → Option (Best ℕ)
unfolding gather_wide_n predict_filtered source_block search_modes
hevc_choose_luma_mode_nxn src_y recon x0 y0 log2_size =
    let refs = gather_wide_n recon x0 y0 (2 ^ log2_size) in
    search_modes (λ m. predict_filtered refs m log2_size)
      (source_block src_y recon.stride x0 y0 (2 ^ log2_size)) mode_count

unfoldable pub hevc_mode_rate_bits : ℕ → List ℕ → ℕ
hevc_mode_rate_bits mode mpm =
    if mode == get_or mpm 0 0
    then 1
    else if mode == get_or mpm 1 0 || mode == get_or mpm 2 0
    then 2
    else 5

unfoldable pub hevc_coarse_angular_modes : List ℕ
hevc_coarse_angular_modes = 2 ∷ 6 ∷ 10 ∷ 14 ∷ 18 ∷ 22 ∷ 26 ∷ 30 ∷ 34 ∷ []

unfoldable pub hevc_refine_deltas : List ℤ
hevc_refine_deltas = negsuc 1 ∷ negsuc 0 ∷ pos 1 ∷ pos 2 ∷ []

unfoldable pub cheaper {ℓ} : {C : Type ℓ} → (C → C → Bool) → Option (ℕ × C) → ℕ × C → Option (ℕ × C)
cheaper less none (m, cost) = some (m, cost)
cheaper less (some (a, least)) (m, cost) =
    if less cost least then some (m, cost) else some (a, least)

-- What the search keeps: the modes that have been tried, and the best of them.
pub record Search (D : Type 0) : Type 0 where
  pub tried : List Bool
  pub best : Option (Best D)

-- `pow` and `sqrt` are those of the C library.
module _ {D : Type 0} (d : Doubles D) (pow : D → D → D) (sqrt : D → D) where
  unfoldable pub hevc_luma_mode_lambda : ℤ → D
  hevc_luma_mode_lambda qp = sqrt (
      d.times (d.decimal 15 100)
        (pow (d.decimal 2 1) (d.over (d.of_ℤ (qp -ℤ pos 12)) (d.decimal 3 1))))

module _ {D : Type 0} (d : Doubles D) (r : References) (src : List (List ℕ)) (lambda : D)
    (mpm : List ℕ) where
  -- The search after a candidate, with the cost that is returned.
  unfoldable pub hevc_eval_mode_candidate : ℕ → Search D → Search D × D
  unfolding sad hevc_mode_rate_bits predict_block4 better
  hevc_eval_mode_candidate m s =
      let pred = predict_block4 r m true in
      let cost =
        d.plus (d.of_ℤ (pos (sad src pred)))
          (d.times lambda (d.of_ℤ (pos (hevc_mode_rate_bits m mpm)))) in
      let candidate : Best D = record { mode = m; cost = cost; pred = pred } in
      if get_or s.tried m false
      then (s, d.decimal 0 1)
      else (record { tried = set s.tried m true; best = better d.less s.best candidate }, cost)

  -- The coarse angular modes, with the best of them so far and its cost.
  unfoldable pub coarse_pass : List ℕ → Search D → Option (ℕ × D) → Search D × Option (ℕ × D)
  unfolding hevc_eval_mode_candidate cheaper
  coarse_pass [] s angular = (s, angular)
  coarse_pass (m ∷ ms) s angular =
      let (after, cost) = hevc_eval_mode_candidate m s in
      coarse_pass ms after (cheaper d.less angular (m, cost))

  -- The modes of a list that lie in a range, one after the other.
  unfoldable pub try_modes : ℤ → ℤ → List ℤ → Search D → Search D
  unfolding hevc_eval_mode_candidate
  try_modes low high [] s = s
  try_modes low high (m ∷ ms) s =
      try_modes low high ms
        (if ltb_ℤ m low || ltb_ℤ high m then s else (hevc_eval_mode_candidate (pos_part m) s).0)

  -- Planar, DC and the coarse grid, then the neighbours of its best mode, then the probable modes.
  unfoldable pub search_luma_mode : Search D
  unfolding hevc_coarse_angular_modes hevc_refine_deltas
  search_luma_mode =
      let fresh : Search D = record { tried = replicate mode_count false; best = none } in
      let planar = (hevc_eval_mode_candidate mode_planar fresh).0 in
      let dc = (hevc_eval_mode_candidate mode_dc planar).0 in
      let (coarse, angular) = coarse_pass hevc_coarse_angular_modes dc none in
      let best_angular : ℤ = elim angular [ none ↦ negsuc 0 | some (m, cost) ↦ pos m ] in
      let refined =
        try_modes (pos 2) (pos 34) (map (λ (delta : ℤ). best_angular +ℤ delta) hevc_refine_deltas)
          coarse in
      try_modes (pos 0) (pos (mode_count - 1)) (map (λ (m : ℕ). pos m) mpm) refined

-- The best mode and its prediction.
unfoldable pub hevc_choose_luma_mode :
    {D : Type 0}
    → Doubles D
    → (D → D → D)
    → (D → D)
    → (ℕ → ℕ)
    → Plane
    → ℕ
    → ℕ
    → ℤ
    → List ℕ
    → Option (Best D)
unfolding hevc_luma_mode_lambda gather_neighbors_wide source_block
hevc_choose_luma_mode d pow sqrt src_y recon x0 y0 qp mpm =
    (search_luma_mode d (gather_neighbors_wide recon x0 y0 true)
      (source_block src_y recon.stride x0 y0 4) (hevc_luma_mode_lambda d pow sqrt qp) mpm).best
