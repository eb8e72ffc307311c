-- ===== src/Hevc/Elements.antt =====
-- The syntax elements of hevc_cabac.c above its bin coder, the three functions `encode_bin`,
-- `encode_bypass` and `encode_bypass_bins`, which are a parameter.
pub mod LumaMode
pub mod Vectors
use bc250_vulkan_encode_stop.Base.{
  ℕ, zero, suc, ◌+◌, ◌-◌, ◌*◌, ◌/◌, ◌%◌, ◌^◌, List, [], ◌∷◌, ◌++◌, map, Option, none, some, Bool,
  true, false, if◌then◌else◌, ltb, leb, ◌==◌, not, get_or,
}
use bc250_vulkan_encode_stop.Base.Int.{ℤ, pos, negsuc, pos_part, neg_part}
use bc250_vulkan_encode_stop.Bits.{bits_of, odd}
use bc250_vulkan_encode_stop.Cabac.Exact.{Bin, decision, bypass}

-- A bin coder of state `E`.
pub record BinCoder {ℓ} (E : Type ℓ) : Type ℓ where
  pub encode_bin : ℕ → ℕ → E → E
  pub encode_bypass : ℕ → E → E
  pub encode_bypass_bins : ℕ → ℕ → E → E

-- The coder that lists the bins.
abbrev pub listing : BinCoder (List Bin)
listing = record {
  encode_bin = λ ctx bin bins. bins ++ decision ctx (odd bin) ∷ [];
  encode_bypass = λ bin bins. bins ++ bypass (not (bin == 0)) ∷ [];
  encode_bypass_bins = λ value num_bins bins. bins ++ map bypass (bits_of num_bins value);
}

abbrev pub flag : Bool → ℕ
flag b = if b then 1 else 0

-- The context numbers of hevc_cabac.h.
abbrev pub ctx_split_flag : ℕ
ctx_split_flag = 0

abbrev pub ctx_part_size : ℕ
ctx_part_size = 3

abbrev pub ctx_intra_pred : ℕ
ctx_intra_pred = 4

abbrev pub ctx_chroma_pred : ℕ
ctx_chroma_pred = 5

abbrev pub ctx_qt_cbf : ℕ
ctx_qt_cbf = 7

abbrev pub ctx_skip_flag : ℕ
ctx_skip_flag = 122

abbrev pub ctx_pred_mode : ℕ
ctx_pred_mode = 125

abbrev pub ctx_merge_flag : ℕ
ctx_merge_flag = 126

abbrev pub ctx_merge_idx : ℕ
ctx_merge_idx = 127

abbrev pub ctx_trans_subdiv : ℕ
ctx_trans_subdiv = 132

abbrev pub ctx_mvd : ℕ
ctx_mvd = 135

abbrev pub ctx_mvp_idx : ℕ
ctx_mvp_idx = 137

abbrev pub ctx_root_cbf : ℕ
ctx_root_cbf = 138

-- The place of a mode in the list, the first one it has.
unfoldable pub pred_idx_of : ℕ → List ℕ → Option ℕ
pred_idx_of mode mpm =
    if mode == get_or mpm 0 0
    then some 0
    else if mode == get_or mpm 1 0
    then some 1
    else if mode == get_or mpm 2 0
    then some 2
    else none

-- The three exchanges that sort `mpm`.
unfoldable pub sorted3 : ℕ → ℕ → ℕ → ℕ × ℕ × ℕ
sorted3 a b c =
    let p = if ltb b a then b else a in
    let q = if ltb b a then a else b in
    let low = if ltb c p then c else p in
    let r = if ltb c p then p else c in (low, if ltb r q then r else q, if ltb r q then q else r)

-- `dir += (dir > bound) ? -1 : 0`.
unfoldable pub stepped : ℕ → ℕ → ℕ
stepped bound dir = if ltb bound dir then dir - 1 else dir

-- The mode without the modes of the list.
unfoldable pub remaining_mode : ℕ → ℕ → ℕ → ℕ → ℕ
unfolding sorted3 stepped
remaining_mode mode a b c =
    let (low, middle, high) = sorted3 a b c in stepped low (stepped middle (stepped high mode))

module _ {ℓ} {E : Type ℓ} (c : BinCoder E) where
  unfoldable pub code_cu_skip_flag : Bool → ℕ → E → E
  code_cu_skip_flag skip ctx_inc = c.encode_bin (ctx_skip_flag + ctx_inc) (flag skip)

  unfoldable pub code_pred_mode_flag : Bool → E → E
  code_pred_mode_flag pred_mode = c.encode_bin ctx_pred_mode (flag pred_mode)

  unfoldable pub bypass_ones : ℕ → E → E
  bypass_ones zero e = e
  bypass_ones (suc n) e = bypass_ones n (c.encode_bypass 1 e)

  unfoldable pub code_merge_idx : ℕ → E → E
  unfolding bypass_ones
  code_merge_idx merge_idx e =
      if merge_idx == 0
      then c.encode_bin ctx_merge_idx 0 e
      else (let ones = bypass_ones (merge_idx - 1) (c.encode_bin ctx_merge_idx 1 e) in
          if ltb merge_idx 4 then c.encode_bypass 0 ones else ones)

  unfoldable pub code_split_cu_flag : Bool → ℕ → E → E
  code_split_cu_flag bin ctx_inc = c.encode_bin (ctx_split_flag + ctx_inc) (flag bin)

  unfoldable pub code_merge_flag : Bool → E → E
  code_merge_flag merge_flag = c.encode_bin ctx_merge_flag (flag merge_flag)

  unfoldable pub code_mvp_flag : Bool → E → E
  code_mvp_flag mvp_idx = c.encode_bin ctx_mvp_idx (flag mvp_idx)

  unfoldable pub code_rqt_root_cbf : Bool → E → E
  code_rqt_root_cbf cbf = c.encode_bin ctx_root_cbf (flag cbf)

  -- The loop of `write_egk_bypass` with its end; `fuel` bounds its rounds.
  unfoldable pub egk_loop : ℕ → ℕ → ℕ → E → E
  egk_loop zero abs_val k e = c.encode_bypass_bins abs_val k (c.encode_bypass 0 e)
  egk_loop (suc fuel) abs_val k e = elim (leb (2 ^ k) abs_val) [
    | true ↦ egk_loop fuel (abs_val - 2 ^ k) (suc k) (c.encode_bypass 1 e)
    | false ↦ c.encode_bypass_bins abs_val k (c.encode_bypass 0 e)
  ]

  unfoldable pub write_egk_bypass : ℕ → ℕ → E → E
  unfolding egk_loop
  write_egk_bypass abs_val k = egk_loop 32 abs_val k

  -- The magnitude above 1, and the sign.
  unfoldable pub mvd_rest : ℤ → E → E
  mvd_rest mvd e =
      let a = pos_part mvd + neg_part mvd in
      let large = if ltb 1 a then write_egk_bypass (a - 2) 1 e else e in
      if ltb 0 a then c.encode_bypass (flag (ltb 0 (neg_part mvd))) large else e

  unfoldable pub mvd_greater1 : ℤ → E → E
  mvd_greater1 mvd e =
      let a = pos_part mvd + neg_part mvd in
      if ltb 0 a then c.encode_bin (ctx_mvd + 1) (flag (ltb 1 a)) e else e

  unfoldable pub mvd_greater0 : ℤ → E → E
  mvd_greater0 mvd = c.encode_bin ctx_mvd (flag (ltb 0 (pos_part mvd + neg_part mvd)))

  unfoldable pub code_mvd : ℤ → ℤ → E → E
  code_mvd mvd_x mvd_y e = mvd_rest mvd_y (
      mvd_rest mvd_x
        (mvd_greater1 mvd_y (mvd_greater1 mvd_x (mvd_greater0 mvd_y (mvd_greater0 mvd_x e)))))

  unfoldable pub code_part_mode_intra : Bool → E → E
  code_part_mode_intra is_2nx2n = c.encode_bin ctx_part_size (flag is_2nx2n)

  -- The flag, with the place that is returned.
  unfoldable pub code_intra_luma_flag : ℕ → List ℕ → E → E × Option ℕ
  unfolding pred_idx_of
  code_intra_luma_flag mode mpm e =
      let pred_idx = pred_idx_of mode mpm in
      (c.encode_bin ctx_intra_pred (elim pred_idx [ none ↦ 0 | some i ↦ 1 ]) e, pred_idx)

  unfoldable pub code_intra_luma_data : ℕ → Option ℕ → List ℕ → E → E
  unfolding remaining_mode
  code_intra_luma_data mode none mpm =
      c.encode_bypass_bins (remaining_mode mode (get_or mpm 0 0) (get_or mpm 1 0) (get_or mpm 2 0))
        5
  code_intra_luma_data mode (some i) mpm =
      let nonzero = flag (not (i == 0)) in c.encode_bypass_bins (i + nonzero) (1 + nonzero)

  unfoldable pub code_intra_chroma_pred_mode : ℕ → E → E
  code_intra_chroma_pred_mode luma_mode_pu0 e =
      if luma_mode_pu0 == 1
      then c.encode_bin ctx_chroma_pred 0 e
      else c.encode_bypass_bins 3 2 (c.encode_bin ctx_chroma_pred 1 e)

  unfoldable pub code_cbf_luma : Bool → ℕ → E → E
  code_cbf_luma cbf trafo_depth =
      c.encode_bin (ctx_qt_cbf + (if trafo_depth == 0 then 1 else 0)) (flag cbf)

  unfoldable pub code_cbf_chroma : Bool → ℕ → E → E
  code_cbf_chroma cbf trafo_depth = c.encode_bin (ctx_qt_cbf + (2 + trafo_depth)) (flag cbf)

  unfoldable pub code_split_transform_flag : Bool → ℕ → E → E
  code_split_transform_flag split log2_size =
      c.encode_bin (ctx_trans_subdiv + (5 - log2_size)) (flag split)

  unfoldable pub code_intra_chroma_pred_mode_idx : ℕ → E → E
  code_intra_chroma_pred_mode_idx idx e =
      if idx == 4
      then c.encode_bin ctx_chroma_pred 0 e
      else c.encode_bypass_bins idx 2 (c.encode_bin ctx_chroma_pred 1 e)
