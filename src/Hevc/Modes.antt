-- ===== src/Hevc/Modes.antt =====
-- The intra modes in hevc_intra.c and hevc_cabac.c: the scan that a mode takes, the three probable
-- modes of a block, and the mode of its chroma.
pub mod Probable
use bc250_vulkan_encode_stop.Base.{
  ℕ, ◌+◌, ◌-◌, ◌%◌, List, [], ◌∷◌, Bool, if◌then◌else◌, ltb, leb, ◌==◌, ◌&&◌, not, get_or,
}

unfoldable pub hevc_scan_idx_for_mode : ℕ → ℕ
hevc_scan_idx_for_mode mode =
    if leb 6 mode && leb mode 14 then 2 else if leb 22 mode && leb mode 30 then 1 else 0

-- `mpm_out`.
unfoldable pub hevc_derive_mpm : ℕ → Bool → ℕ → Bool → List ℕ
hevc_derive_mpm left_mode left_avail above_mode above_avail =
    let cand_a : ℕ = if left_avail then left_mode else 1 in
    let cand_b : ℕ = if above_avail then above_mode else 1 in
    if cand_a == cand_b
    then (if ltb cand_a 2
        then 0 ∷ 1 ∷ 26 ∷ []
        else cand_a ∷ (2 + (cand_a + 29) % 32) ∷ (2 + (cand_a - 2 + 1) % 32) ∷ [])
    else if not (cand_a == 0) && not (cand_b == 0)
    then cand_a ∷ cand_b ∷ 0 ∷ []
    else if not (cand_a == 1) && not (cand_b == 1)
    then cand_a ∷ cand_b ∷ 1 ∷ []
    else cand_a ∷ cand_b ∷ 26 ∷ []

unfoldable pub hevc_chroma_mode_from_idx : ℕ → ℕ → ℕ
hevc_chroma_mode_from_idx idx luma_mode_pu0 =
    let cand = get_or (0 ∷ 26 ∷ 10 ∷ 1 ∷ []) idx 0 in
    if idx == 4 then luma_mode_pu0 else if cand == luma_mode_pu0 then 34 else cand
