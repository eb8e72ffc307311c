-- ===== src/Hevc/Intra/Search/Chosen.antt =====
-- The mode search for 4x4 blocks in hevc_intra.c hands back a mode with its own prediction.
use Prim.{Unit}
use bc250_vulkan_encode_stop.Base.{
  ℕ, ◌<◌, ◌≡◌, refl, List, [], ◌∷◌, map, Option, none, some, Bool, true, false, arith,
  if◌then◌else◌, if_split, get_or, ◌||◌, replicate,
}
use bc250_vulkan_encode_stop.Base.Int.{ℤ, pos, pos_part, ltb_ℤ, ◌≤ℤ◌}
use bc250_vulkan_encode_stop.RateControl.{Doubles}
use bc250_vulkan_encode_stop.Hevc.Intra.Order.{Plane, References, gather_neighbors_wide}
use bc250_vulkan_encode_stop.Hevc.Intra.Predict.{predict_block4, hevc_predict_4x4}
use bc250_vulkan_encode_stop.Hevc.Intra.Search.{
  Best, Search, better, hevc_eval_mode_candidate, coarse_pass, try_modes, search_luma_mode,
  hevc_choose_luma_mode, cheaper, hevc_coarse_angular_modes, source_block, hevc_luma_mode_lambda,
}

-- The best candidate is a mode of the standard with the prediction of that mode.
abbrev pub Chosen : {D : Type 0} → References → Option (Best D) → Type 0
Chosen r none = ⊥
Chosen r (some b) = (b.mode < 35) × (b.pred ≡ predict_block4 r b.mode true)

or_right : (a b : Bool) → (a || b) ≡ false → b ≡ false
or_right a b h = ground arith

small : (m high : ℤ) → high ≤ℤ pos 34 → ltb_ℤ high m ≡ false → pos_part m < 35
small m high most h = ground arith

module _ {D : Type 0} (d : Doubles D) (r : References) (src : List (List ℕ)) (lambda : D)
    (mpm : List ℕ) where
  better-Chosen :
      (best : Option (Best D)) (candidate : Best D)
      → Chosen r (some candidate)
      → Chosen r best
      → Chosen r (better d.less best candidate)
  unfolding better
  better-Chosen none candidate new old = new
  better-Chosen (some b) candidate new old =
      if_split (Chosen r) (d.less candidate.cost b.cost) (λ less. new) (λ kept. old)

  eval-Chosen :
      (m : ℕ) (s : Search D)
      → m < 35
      → Chosen r s.best
      → Chosen r (hevc_eval_mode_candidate d r src lambda mpm m s).0.best
  unfolding hevc_eval_mode_candidate
  eval-Chosen m s h old =
      if_split (λ (result : Search D × D). Chosen r result.0.best) (get_or s.tried m false)
        (λ again. old) (λ new. better-Chosen s.best _ (h, refl) old)

  AllBelow : List ℕ → Type 0
  AllBelow [] = Unit
  AllBelow (m ∷ ms) = (m < 35) × AllBelow ms

  coarse_pass-Chosen :
      (ms : List ℕ) (s : Search D) (angular : Option (ℕ × D))
      → AllBelow ms
      → Chosen r s.best
      → Chosen r (coarse_pass d r src lambda mpm ms s angular).0.best
  unfolding coarse_pass AllBelow
  coarse_pass-Chosen [] s angular all h = h
  coarse_pass-Chosen (m ∷ ms) s angular all h =
      let after = hevc_eval_mode_candidate d r src lambda mpm m s in
      coarse_pass-Chosen ms after.0 (cheaper d.less angular (m, after.1)) all.1
        (eval-Chosen m s all.0 h)

  try_modes-Chosen :
      (low high : ℤ) (ms : List ℤ) (s : Search D)
      → high ≤ℤ pos 34
      → Chosen r s.best
      → Chosen r (try_modes d r src lambda mpm low high ms s).best
  unfolding try_modes
  try_modes-Chosen low high [] s most h = h
  try_modes-Chosen low high (m ∷ ms) s most h =
      try_modes-Chosen low high ms
        (if ltb_ℤ m low || ltb_ℤ high m
          then s
          else (hevc_eval_mode_candidate d r src lambda mpm (pos_part m) s).0)
        most
        (if_split (λ (t : Search D). Chosen r t.best) (ltb_ℤ m low || ltb_ℤ high m) (λ outside. h)
          (λ inside.
            eval-Chosen (pos_part m) s
              (small m high most (or_right (ltb_ℤ m low) (ltb_ℤ high m) inside)) h))

  planar-Chosen :
      Chosen r
        (hevc_eval_mode_candidate d r src lambda mpm 0
          (record { tried = replicate 35 false; best = none })).0.best
  unfolding hevc_eval_mode_candidate better
  planar-Chosen = (omega arith, refl)

  search_luma_mode-Chosen : Chosen r (search_luma_mode d r src lambda mpm).best
  unfolding search_luma_mode AllBelow
  search_luma_mode-Chosen =
      let fresh : Search D = record { tried = replicate 35 false; best = none } in
      let planar = (hevc_eval_mode_candidate d r src lambda mpm 0 fresh).0 in
      let dc = (hevc_eval_mode_candidate d r src lambda mpm 1 planar).0 in
      let coarse = coarse_pass d r src lambda mpm hevc_coarse_angular_modes dc none in
      let grid : AllBelow hevc_coarse_angular_modes = omega arith in
      let coarse-Chosen =
        coarse_pass-Chosen hevc_coarse_angular_modes dc none grid
          (eval-Chosen 1 planar (omega arith) planar-Chosen) in
      try_modes-Chosen (pos 0) (pos 34) (map (λ (m : ℕ). pos m) mpm) _ (omega arith)
        (try_modes-Chosen (pos 2) (pos 34) _ coarse.0 (omega arith) coarse-Chosen)

Chosen-some :
    {D : Type 0} (r : References) (o : Option (Best D))
    → Chosen r o
    → (b : Best D) × (o ≡ some b) × (b.mode < 35) × (b.pred ≡ predict_block4 r b.mode true)
Chosen-some r none h = elim h [ ]
Chosen-some r (some b) h = (b, refl, h.0, h.1)

-- Whatever the doubles, the square root and the power, and for any list of probable modes, the
-- mode search of 4x4 blocks ends with a mode below 35, and the prediction it hands back is that
-- of hevc_predict_4x4 for this mode.
pub hevc_choose_luma_mode-predicted :
    {D : Type 0} (d : Doubles D) (pow : D → D → D) (sqrt : D → D) (src_y : ℕ → ℕ) (recon : Plane)
    (x0 y0 : ℕ) (qp : ℤ) (mpm : List ℕ)
    → (b : Best D) × (hevc_choose_luma_mode d pow sqrt src_y recon x0 y0 qp mpm ≡ some b)
      × (b.mode < 35)
      × (b.pred ≡ hevc_predict_4x4 recon x0 y0 b.mode true)
unfolding hevc_choose_luma_mode hevc_predict_4x4
hevc_choose_luma_mode-predicted d pow sqrt src_y recon x0 y0 qp mpm =
    let r = gather_neighbors_wide recon x0 y0 true in
    let src = source_block src_y recon.stride x0 y0 4 in
    let lambda = hevc_luma_mode_lambda d pow sqrt qp in
    Chosen-some r (search_luma_mode d r src lambda mpm).best
      (search_luma_mode-Chosen d r src lambda mpm)
