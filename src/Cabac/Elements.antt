-- ===== src/Cabac/Elements.antt =====
-- The syntax elements that cabac.c and cabac.h put out for a macroblock. A bin that the source
-- computes as an `int` of 0 or 1 is a Boolean here.
use bc250_vulkan_encode_stop.Base.{
  ℕ, zero, suc, ◌+◌, ◌-◌, ◌*◌, ◌/◌, ◌%◌, ◌^◌, bit_and, List, [], ◌∷◌, Bool, true, false, not,
  if◌then◌else◌, ltb, ◌==◌, get_or, ◌&&◌,
}
use bc250_vulkan_encode_stop.Base.Int.{ℤ, pos_part, neg_part}
use bc250_vulkan_encode_stop.Bits.{odd}
use bc250_vulkan_encode_stop.Cabac.{
  CabacEngine, cabac_encode_decision, cabac_encode_bypass, cabac_encode_terminal,
  cabac_encode_ue_bypass,
}

-- `x < 0 ? -x : x`.
abbrev pub magnitude : ℤ → ℕ
magnitude v = pos_part v + neg_part v

abbrev pub negative : ℤ → Bool
negative v = ltb 0 (neg_part v)

-- How many of two Booleans the source counts with `(nB ? 2 : 0) + (nA ? 1 : 0)`.
abbrev pub one_if : Bool → ℕ
one_if b = if b then 1 else 0

unfoldable pub cabac_write_mb_type_i16x16 : CabacEngine → ℕ → Bool → ℕ → ℕ → CabacEngine
cabac_write_mb_type_i16x16 e ctx_neighbor_intra_count cbp_luma_nonzero cbp_chroma i16x16_pred_mode =
    let prefix =
      cabac_encode_terminal (cabac_encode_decision e (3 + ctx_neighbor_intra_count) true) in
    let luma = cabac_encode_decision prefix 6 cbp_luma_nonzero in
    let chroma =
      if cbp_chroma == 0
      then cabac_encode_decision luma 7 false
      else cabac_encode_decision (cabac_encode_decision luma 7 true) 8 (odd (cbp_chroma / 2)) in
    cabac_encode_decision (cabac_encode_decision chroma 9 (odd (i16x16_pred_mode / 2))) 10
      (odd i16x16_pred_mode)

unfoldable pub cabac_write_intra_chroma_pred_mode : CabacEngine → ℕ → ℕ → CabacEngine
cabac_write_intra_chroma_pred_mode e ctx_neighbor mode =
    let first = cabac_encode_decision e (64 + ctx_neighbor) (ltb 0 mode) in
    let second = cabac_encode_decision first 67 (ltb 1 mode) in
    if ltb 0 mode
    then if ltb 1 mode then cabac_encode_decision second 67 (ltb 2 mode) else second
    else first

unfoldable pub cabac_write_mb_skip_p : CabacEngine → ℕ → Bool → CabacEngine
cabac_write_mb_skip_p e ctx_neighbor_not_skipped skip =
    cabac_encode_decision e (11 + ctx_neighbor_not_skipped) skip

unfoldable pub cabac_write_mb_type_p_l0_16x16 : CabacEngine → CabacEngine
cabac_write_mb_type_p_l0_16x16 e =
    cabac_encode_decision (cabac_encode_decision (cabac_encode_decision e 14 false) 15 false) 16
      false

unfoldable pub cabac_mvd_unary_ctx : List ℕ
cabac_mvd_unary_ctx = 3 ∷ 4 ∷ 5 ∷ 6 ∷ 6 ∷ 6 ∷ 6 ∷ 6 ∷ []

-- The loop that puts out `count` ones from index `i` on.
unfoldable pub mvd_ones : ℕ → ℕ → ℕ → CabacEngine → CabacEngine
mvd_ones ctxbase zero i e = e
mvd_ones ctxbase (suc count) i e =
    mvd_ones ctxbase count (i + 1)
      (cabac_encode_decision e (ctxbase + get_or cabac_mvd_unary_ctx (i - 1) 0) true)

unfoldable pub cabac_write_mvd_component : CabacEngine → Bool → ℕ → ℤ → CabacEngine × ℕ
cabac_write_mvd_component e is_vertical ctx_amvd mvd =
    let ctxbase = if is_vertical then 47 else 40 in
    let i_abs = magnitude mvd in
    let present = cabac_encode_decision e (ctxbase + ctx_amvd) true in
    let coded =
      if ltb i_abs 9
      then cabac_encode_decision (mvd_ones ctxbase (i_abs - 1) 1 present)
          (ctxbase + get_or cabac_mvd_unary_ctx (i_abs - 1) 0) false
      else cabac_encode_ue_bypass (mvd_ones ctxbase 8 1 present) 3 (i_abs - 9) in
    if i_abs == 0
    then (cabac_encode_decision e (ctxbase + ctx_amvd) false, 0)
    else (cabac_encode_bypass coded (negative mvd), if ltb i_abs 66 then i_abs else 66)

unfoldable pub cabac_mvd_ctx_from_neighbors : ℕ → ℕ → ℕ
cabac_mvd_ctx_from_neighbors left_abs top_abs =
    one_if (ltb 2 (left_abs + top_abs)) + one_if (ltb 32 (left_abs + top_abs))

-- `(cbp >> n) & 1` of a neighbour's pattern, where -1, an unavailable neighbour, has every bit set.
unfoldable pub cbp_bit : ℤ → ℕ → ℕ
cbp_bit cbp place = if negative cbp then 1 else pos_part cbp / 2 ^ place % 2

unfoldable pub cabac_write_cbp_luma : CabacEngine → ℕ → ℤ → ℤ → CabacEngine
unfolding cbp_bit
cabac_write_cbp_luma e cbp_luma cbp_l cbp_t =
    let b = λ (place : ℕ). cbp_luma / 2 ^ place % 2 in
    let first =
      cabac_encode_decision e (76 - cbp_bit cbp_l 1 - 2 * cbp_bit cbp_t 2) (odd cbp_luma) in
    let second =
      cabac_encode_decision first (76 - b 0 - 2 * cbp_bit cbp_t 3) (odd (cbp_luma / 2)) in
    let third =
      cabac_encode_decision second (76 - cbp_bit cbp_l 3 - 2 * b 0) (odd (cbp_luma / 4)) in
    cabac_encode_decision third (76 - b 2 - 2 * b 1) (odd (cbp_luma / 8))

-- `cbp & 0x30`, where -1 gives 0x30.
unfoldable pub cbp_chroma_bits : ℤ → ℕ
cbp_chroma_bits cbp = if negative cbp then 0x30 else bit_and (pos_part cbp) 0x30

unfoldable pub cabac_write_cbp_chroma : CabacEngine → ℕ → ℤ → ℤ → CabacEngine
unfolding cbp_chroma_bits
cabac_write_cbp_chroma e cbp_chroma cbp_l cbp_t =
    let cbp_a = cbp_chroma_bits cbp_l in
    let cbp_b = cbp_chroma_bits cbp_t in
    let ctx =
      one_if (not (cbp_a == 0) && not (negative cbp_l))
      + 2 * one_if (not (cbp_b == 0) && not (negative cbp_t)) in
    let ctx_second = 4 + one_if (cbp_a == 0x20) + 2 * one_if (cbp_b == 0x20) in
    if cbp_chroma == 0
    then cabac_encode_decision e (77 + ctx) false
    else cabac_encode_decision (cabac_encode_decision e (77 + ctx) true) (77 + ctx_second)
        (odd (cbp_chroma / 2))

-- `do { ... } while (--val)` for `val` above 0, with the context that is left.
unfoldable pub qp_delta_ones : ℕ → ℕ → CabacEngine → CabacEngine × ℕ
qp_delta_ones zero ctx e = (e, ctx)
qp_delta_ones (suc val) ctx e =
    qp_delta_ones val (2 + ctx / 2) (cabac_encode_decision e (60 + ctx) true)

unfoldable pub cabac_write_qp_delta : CabacEngine → ℤ → Bool → CabacEngine × Bool
unfolding qp_delta_ones
cabac_write_qp_delta e dqp last_dqp_nonzero =
    let val = if negative dqp then 2 * neg_part dqp else 2 * pos_part dqp - 1 in
    let (coded, ctx) = qp_delta_ones val (one_if last_dqp_nonzero) e in
    (cabac_encode_decision coded (60 + ctx) false, not (magnitude dqp == 0))

unfoldable pub cabac_write_end_of_slice_flag : CabacEngine → Bool → CabacEngine × Bool
cabac_write_end_of_slice_flag e is_last_mb =
    if not is_last_mb then (cabac_encode_terminal e, false) else (e, true)

-- The five block categories, and their places in the context tables.
pub data CabacCtxBlockCat : Type 0 where
  luma_dc : CabacCtxBlockCat
  luma_ac : CabacCtxBlockCat
  luma_4x4 : CabacCtxBlockCat
  chroma_dc : CabacCtxBlockCat
  chroma_ac : CabacCtxBlockCat

unfoldable pub cabac_count_m1 : CabacCtxBlockCat → ℕ
cabac_count_m1 luma_dc = 15
cabac_count_m1 luma_ac = 14
cabac_count_m1 luma_4x4 = 15
cabac_count_m1 chroma_dc = 3
cabac_count_m1 chroma_ac = 14

unfoldable pub cabac_count_coeffs : CabacCtxBlockCat → ℕ
unfolding cabac_count_m1
cabac_count_coeffs cat = cabac_count_m1 cat + 1

unfoldable pub cabac_cbf_base : CabacCtxBlockCat → ℕ
cabac_cbf_base luma_dc = 85
cabac_cbf_base luma_ac = 89
cabac_cbf_base luma_4x4 = 93
cabac_cbf_base chroma_dc = 97
cabac_cbf_base chroma_ac = 101

unfoldable pub cabac_write_coded_block_flag :
    CabacEngine → CabacCtxBlockCat → Bool → Bool → Bool → CabacEngine
unfolding cabac_cbf_base
cabac_write_coded_block_flag e cat na nb cbf =
    cabac_encode_decision e (cabac_cbf_base cat + 2 * one_if nb + one_if na) cbf
