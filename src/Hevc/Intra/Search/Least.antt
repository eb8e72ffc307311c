-- ===== src/Hevc/Intra/Search/Least.antt =====
-- The mode search over all modes in hevc_intra.c ends at the first mode of the least difference.
use native.Mathlib.Decide.{ℕ_discrete}
use bc250_vulkan_encode_stop.Base.{
  ℕ, zero, suc, ◌≤◌, ◌<◌, ◌≡◌, refl, List, Option, some, ltb, arith, ◌^◌, ltb→lt, ltb_false→le,
  if_split,
}
use bc250_vulkan_encode_stop.Hevc.Intra.Order.{Plane, gather_wide_n}
use bc250_vulkan_encode_stop.Hevc.Intra.Predict.{predict_filtered, hevc_predict_nxn}
use bc250_vulkan_encode_stop.Hevc.Intra.Search.{
  Best, better, sad, search_modes, source_block, hevc_choose_luma_mode_nxn,
}

-- The first of the modes below `count` whose prediction differs least from the source.
pub record IsFirstLeast (predict : ℕ → List (List ℕ)) (src : List (List ℕ)) (count : ℕ)
    (best : Best ℕ) : Type 0 where
  pub in_range : best.mode < count
  pub its_cost : best.cost ≡ sad src (predict best.mode)
  pub its_pred : best.pred ≡ predict best.mode
  pub least : (m : ℕ) → m < count → best.cost ≤ sad src (predict m)
  pub first : (m : ℕ) → m < best.mode → best.cost < sad src (predict m)

module _ (predict : ℕ → List (List ℕ)) (src : List (List ℕ)) where
  abbrev candidate : ℕ → Best ℕ
  candidate m = record { mode = m; cost = sad src (predict m); pred = predict m }

  abbrev Ends : ℕ → Option (Best ℕ) → Type 0
  Ends count o = (b : Best ℕ) × (o ≡ some b) × IsFirstLeast predict src count b

  -- A statement about the modes up to `m`.
  up_to : {P : ℕ → Type 0} (m : ℕ) → ((k : ℕ) → k < m → P k) → P m → (k : ℕ) → k < suc m → P k
  up_to {P} m below at k h = elim (ℕ_discrete k m) [
    | yes e ↦ rw e at
    | no e ↦ below k (omega (arith, e))
  ]

  better-Ends :
      (m : ℕ) (best : Best ℕ)
      → IsFirstLeast predict src m best
      → Ends (suc m) (better ltb (some best) (candidate m))
  unfolding better
  better-Ends m best h =
      if_split (Ends (suc m)) (ltb (sad src (predict m)) best.cost)
        (λ less.
          let below = ltb→lt (sad src (predict m)) best.cost less in
          (
            candidate m,
            refl,
            record {
              in_range = omega arith;
              its_cost = refl;
              its_pred = refl;
              least =
                  up_to {P = λ k. sad src (predict m) ≤ sad src (predict k)} m
                    (λ k inside. omega (arith, below, h.least k inside)) (omega arith);
              first = λ k inside. omega (arith, below, h.least k inside);
            },
          ))
        (λ not_less. (
          best,
          refl,
          record {
            in_range = omega (arith, h.in_range);
            its_cost = h.its_cost;
            its_pred = h.its_pred;
            least =
                up_to {P = λ k. best.cost ≤ sad src (predict k)} m h.least
                  (ltb_false→le (sad src (predict m)) best.cost not_less);
            first = h.first;
          },
        ))

  search_modes-Ends : (m : ℕ) → Ends (suc m) (search_modes predict src (suc m))
  unfolding search_modes better
  search_modes-Ends zero = (
    candidate 0,
    refl,
    record {
      in_range = omega arith;
      its_cost = refl;
      its_pred = refl;
      least = λ k inside. ap_le k inside;
      first = λ k inside. absurd (omega (arith, inside));
    },
  )
    where
      ap_le : (k : ℕ) → k < 1 → sad src (predict 0) ≤ sad src (predict k)
      ap_le zero inside = omega arith
      ap_le (suc k) inside = absurd (omega (arith, inside))
  search_modes-Ends (suc m) =
      let (b, found, least) = search_modes-Ends m in rw found (better-Ends (suc m) b least)

-- For every size the mode search ends with a mode below 35, its difference and its prediction; no
-- mode differs less from the source, and every earlier mode differs more.
pub hevc_choose_luma_mode_nxn-IsFirstLeast :
    (src_y : ℕ → ℕ) (recon : Plane) (x0 y0 log2_size : ℕ)
    → (b : Best ℕ) × (hevc_choose_luma_mode_nxn src_y recon x0 y0 log2_size ≡ some b)
      × IsFirstLeast
          (λ m. hevc_predict_nxn recon x0 y0 m log2_size)
          (source_block src_y recon.stride x0 y0 (2 ^ log2_size))
          35
          b
unfolding hevc_choose_luma_mode_nxn hevc_predict_nxn
hevc_choose_luma_mode_nxn-IsFirstLeast src_y recon x0 y0 log2_size =
    search_modes-Ends
      (λ m. predict_filtered (gather_wide_n recon x0 y0 (2 ^ log2_size)) m log2_size)
      (source_block src_y recon.stride x0 y0 (2 ^ log2_size)) 34
