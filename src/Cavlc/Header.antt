-- ===== src/Cavlc/Header.antt =====
-- The macroblock headers of cavlc.c: what they write.
use bc250_vulkan_encode_stop.Base.{
  ℕ, ◌+◌, ◌-◌, ◌*◌, ◌/◌, ◌%◌, ◌≤◌, ◌<◌, ◌≡◌, refl, Bool, true, false, ◌&&◌, List, [], ◌++◌, arith,
  ltb, ◌==◌, if◌then◌else◌, get_or,
}
use bc250_vulkan_encode_stop.Base.Int.{ℤ, pos, negsuc, pos_part, neg_part}
use bc250_vulkan_encode_stop.Bitstream.{Writer}
use bc250_vulkan_encode_stop.Bitstream.Writes.{Writes, Writes-seq, Writes-nothing}
use bc250_vulkan_encode_stop.Bitstream.Golomb.{ue_code, bs_write_ue-Writes}
use bc250_vulkan_encode_stop.Bitstream.Signed.{se_code, bs_write_se-Writes}
use bc250_vulkan_encode_stop.Cavlc.{
  map_inter_cbp, clamp_mode, cavlc_write_mb_i16x16_header, cavlc_write_mb_p16x16_header,
}
use bc250_vulkan_encode_stop.Cavlc.Tables.{cbp_inter_table}
use bc250_vulkan_encode_stop.Base.Below.{all_below, all_below-holds}

good_cbp : ℕ → Bool
unfolding map_inter_cbp
good_cbp cbp = ltb (map_inter_cbp cbp) 48 && (get_or cbp_inter_table (map_inter_cbp cbp) 0 == cbp)

good_cbps : all_below good_cbp 48 ≡ true
unfolding all_below good_cbp cbp_inter_table
good_cbps = refl

-- For each of the 48 coded block patterns map_inter_cbp gives a code number below 48 that stands
-- for it in the table.
pub map_inter_cbp-inverse :
    (cbp : ℕ)
    → cbp < 48
    → (map_inter_cbp cbp < 48) × (get_or cbp_inter_table (map_inter_cbp cbp) 0 ≡ cbp)
unfolding good_cbp
map_inter_cbp-inverse cbp h = let good = all_below-holds good_cbp 48 cbp h good_cbps in ground arith

-- `code` for a P16x16 macroblock header with the syntax elements of 7.3.5.
unfoldable pub p16x16_code : ℤ → ℤ → ℕ → ℤ → List Bool
p16x16_code mvd_x mvd_y cbp qp_delta =
    ue_code 0
    ++ (se_code mvd_x
        ++ (se_code mvd_y
            ++ (ue_code (map_inter_cbp cbp) ++ (if ltb 0 cbp then se_code qp_delta else []))))

Writes-if :
    (b : Bool)
    → {f : Writer} {c : List Bool} → Writes f c
    → Writes (if b then f else (λ s. s)) (if b then c else [])
Writes-if true w = w
Writes-if false w = Writes-nothing

-- For a pattern below 48 the P16x16 header writer appends the codes of mb_type, both vector
-- differences, the mapped pattern and, for a nonzero pattern, the QP change, under the conditions
-- of room and overflow of any writer.
pub cavlc_write_mb_p16x16_header-Writes :
    (mvd_x mvd_y : ℤ) (cbp : ℕ) (qp_delta : ℤ)
    → cbp < 48
    → Writes
        (cavlc_write_mb_p16x16_header mvd_x mvd_y cbp qp_delta)
        (p16x16_code mvd_x mvd_y cbp qp_delta)
unfolding cavlc_write_mb_p16x16_header p16x16_code
cavlc_write_mb_p16x16_header-Writes mvd_x mvd_y cbp qp_delta h =
    let good = (map_inter_cbp-inverse cbp h).0 in
    Writes-seq (bs_write_ue-Writes 0 (omega arith)) (
      Writes-seq (bs_write_se-Writes mvd_x) (
        Writes-seq (bs_write_se-Writes mvd_y) (
          Writes-seq (bs_write_ue-Writes (map_inter_cbp cbp) (omega arith))
            (Writes-if (ltb 0 cbp) (bs_write_se-Writes qp_delta)))))

mode_bound : (x : ℤ) (top default_ : ℕ) → default_ ≤ top → clamp_mode x top default_ ≤ top
unfolding clamp_mode
mode_bound (pos n) top default_ h = ground arith
mode_bound (negsuc n) top default_ h = h

-- For all parameters, in range or not, the I16x16 header is an mb_type of 1..24 that carries the
-- prediction mode, the chroma pattern and whether there is a luma pattern, then the chroma mode
-- and the QP change.
pub cavlc_write_mb_i16x16_header-Writes :
    (pred_mode chroma_pred_mode cbp_chroma cbp_luma qp_delta : ℤ)
    → (mb_type : ℕ) × Writes
        (cavlc_write_mb_i16x16_header pred_mode chroma_pred_mode cbp_chroma cbp_luma qp_delta)
        (ue_code mb_type ++ (ue_code (clamp_mode chroma_pred_mode 3 0) ++ se_code qp_delta))
      × (1 ≤ mb_type)
      × (mb_type ≤ 24)
      × ((mb_type - 1) % 4 ≡ clamp_mode pred_mode 3 2)
      × ((mb_type - 1) / 4 % 3 ≡ clamp_mode cbp_chroma 2 0)
      × ((mb_type - 1) / 12 ≡ (if pos_part cbp_luma + neg_part cbp_luma == 0 then 0 else 1))
unfolding cavlc_write_mb_i16x16_header
cavlc_write_mb_i16x16_header-Writes pred_mode chroma_pred_mode cbp_chroma cbp_luma qp_delta =
    let pred : ℕ = clamp_mode pred_mode 3 2 in
    let chroma : ℕ = clamp_mode cbp_chroma 2 0 in
    let luma : ℕ = if pos_part cbp_luma + neg_part cbp_luma == 0 then 0 else 1 in
    let p = mode_bound pred_mode 3 2 (omega arith) in
    let c = mode_bound cbp_chroma 2 0 (omega arith) in
    let m = mode_bound chroma_pred_mode 3 0 (omega arith) in
    let l : luma ≤ 1 = ground arith in
    let mb_type : ℕ = 1 + pred + chroma * 4 + luma * 12 in
    (
      mb_type,
      Writes-seq (bs_write_ue-Writes mb_type (omega arith)) (
          Writes-seq (bs_write_ue-Writes (clamp_mode chroma_pred_mode 3 0) (omega arith))
            (bs_write_se-Writes qp_delta)),
      omega arith,
      omega arith,
      omega arith,
      omega arith,
      omega arith,
    )
