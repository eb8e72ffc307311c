-- ===== src/Cavlc.antt =====
-- The CAVLC coder of approach1-compute-encoder/src/cavlc.c (H.264, 9.2): macroblock headers, the scan of
-- a block's coefficients, levels, zeros and runs. `CAVLC_STAGE` is its body, as in the shipped driver,
-- and `CAVLC_BLOCK_TALLY` nothing. Coefficients and levels are integers.
pub mod Tables
pub mod Residual
pub mod Header
pub mod Reader
pub mod Codes
pub mod LevelCode
pub mod Levels
use bc250_vulkan_encode_stop.Base.{
  ℕ, zero, suc, ◌+◌, ◌-◌, ◌*◌, ◌/◌, ◌%◌, ◌^◌, bit_and, bit_or, Bool, true, false, ◌&&◌, ◌||◌, not,
  List, [], ◌∷◌, ◌++◌, Option, none, some, ltb, leb, ◌==◌, if◌then◌else◌, length, map, get_or,
}
use bc250_vulkan_encode_stop.Base.Int.{ℤ, pos, negsuc, ltb_ℤ, ◌-ℤ◌, pos_part, neg_part}
use bc250_vulkan_encode_stop.Bitstream.{
  Bitstream, Writer, ◌▸◌, bs_write_u, bs_write1, bs_write_ue, bs_write_se, bs_rbsp_trailing_bits,
  bc250_clz32,
}
use bc250_vulkan_encode_stop.Cavlc.Tables.{
  entry, zigzag_4x4, cbp_inter_table, coeff_token_len, coeff_token_bits, total_zeros_len,
  total_zeros_bits, run_len, run_bits, chroma_dc_coeff_token_len, chroma_dc_coeff_token_bits,
  chroma_dc_total_zeros_len, chroma_dc_total_zeros_bits,
}

unfoldable pub bs_write_zeros : ℕ → Writer
bs_write_zeros count = if ltb 0 count then bs_write_u count 0 else (λ s. s)

-- The loop of `map_inter_cbp` from index `i` on; a miss gives the pattern itself.
unfoldable pub find_cbp : List ℕ → ℕ → ℕ → ℕ
find_cbp [] i cbp = cbp
find_cbp (c ∷ table) i cbp =
    let later = find_cbp table (i + 1) cbp in if c == cbp % 256 then i else later

-- `cbp` is not negative here.
unfoldable pub map_inter_cbp : ℕ → ℕ
unfolding find_cbp
map_inter_cbp cbp = find_cbp cbp_inter_table 0 cbp

-- A parameter outside its range is replaced by a default.
unfoldable pub clamp_mode : ℤ → ℕ → ℕ → ℕ
clamp_mode (negsuc n) top default_ = default_
clamp_mode (pos n) top default_ = if ltb top n then default_ else n

unfoldable pub cavlc_write_mb_i16x16_header : ℤ → ℤ → ℤ → ℤ → ℤ → Writer
unfolding clamp_mode
cavlc_write_mb_i16x16_header pred_mode chroma_pred_mode cbp_chroma cbp_luma qp_delta =
    let pred = clamp_mode pred_mode 3 2 in
    let chroma = clamp_mode cbp_chroma 2 0 in
    let chroma_pred = clamp_mode chroma_pred_mode 3 0 in
    let cbp_luma_flag = if pos_part cbp_luma + neg_part cbp_luma == 0 then 0 else 1 in
    bs_write_ue (1 + pred + chroma * 4 + cbp_luma_flag * 12)
    ▸ bs_write_ue chroma_pred
    ▸ bs_write_se qp_delta

unfoldable pub cavlc_write_p_skip_run : ℕ → Writer
cavlc_write_p_skip_run skip_run = bs_write_ue skip_run

unfoldable pub cavlc_write_mb_p16x16_header : ℤ → ℤ → ℕ → ℤ → Writer
cavlc_write_mb_p16x16_header mvd_x mvd_y cbp qp_delta =
    bs_write_ue 0
    ▸ bs_write_se mvd_x
    ▸ bs_write_se mvd_y
    ▸ bs_write_ue (map_inter_cbp cbp)
    ▸ (if ltb 0 cbp then bs_write_se qp_delta else (λ s. s))

unfoldable pub is_zero : ℤ → Bool
is_zero (pos zero) = true
is_zero (pos (suc n)) = false
is_zero (negsuc n) = false

-- abs (c), and `c < 0 ? 1 : 0`.
abbrev pub magnitude : ℤ → ℕ
magnitude c = pos_part c + neg_part c

abbrev pub sign_bit : ℤ → ℕ
sign_bit (pos n) = 0
sign_bit (negsuc n) = 1

-- The locals of `cavlc_scan_coeffs`. `levels` and `runs` are the entries written so far: the source
-- stores each at the next free index.
pub record Scan : Type 0 where
  pub total_coeff : ℕ
  pub trailing_ones : ℕ
  pub trailing_signs : ℕ
  pub total_zeros : ℕ
  pub prev_idx : ℕ
  pub first : Bool
  pub levels : List ℤ
  pub runs : List ℕ

-- `mask |= (1u << i)` for each nonzero coefficient.
unfoldable pub mask_loop : ℕ → List ℤ → ℕ → ℕ
unfolding is_zero
mask_loop i [] mask = mask
mask_loop i (c ∷ cs) mask = mask_loop (i + 1) cs (if is_zero c then mask else bit_or mask (2 ^ i))

-- The body of the `while` loop at the coefficient `c` of index `i`.
unfoldable pub found : ℤ → ℕ → Scan → Scan
found c i st =
    let run = st.prev_idx - i - 1 in
    let is_one = ltb st.total_coeff 3 && magnitude c == 1 && st.trailing_ones == st.total_coeff in
    record {
      total_coeff = st.total_coeff + 1;
      trailing_ones = if is_one then st.trailing_ones + 1 else st.trailing_ones;
      trailing_signs =
          if is_one then bit_or (st.trailing_signs * 2) (sign_bit c) else st.trailing_signs;
      total_zeros = if st.first then st.total_zeros else st.total_zeros + run;
      prev_idx = i;
      first = false;
      levels = if is_one then st.levels else st.levels ++ c ∷ [];
      runs = if st.first then st.runs else st.runs ++ run ∷ [];
    }

-- The `while (remaining)` loop: the highest set bit is the next coefficient. Each round clears a bit
-- of the 32, so 32 rounds are enough.
unfoldable pub scan_loop : ℕ → List ℤ → ℕ → Scan → Scan
scan_loop zero scanned remaining st = st
scan_loop (suc fuel) scanned remaining st =
    let i = 31 - bc250_clz32 remaining in
    let more =
      scan_loop fuel scanned (bit_and remaining (2 ^ 32 - 1 - 2 ^ i))
        (found (get_or scanned i (pos 0)) i st) in
    if remaining == 0 then st else more

-- The result with `last_idx`, which is `none` for -1.
unfoldable pub cavlc_scan_coeffs : List ℤ → Option ℕ × Scan
cavlc_scan_coeffs scanned =
    let mask = mask_loop 0 scanned 0 in
    let last = 31 - bc250_clz32 mask in
    let start : Scan = record {
      total_coeff = 0;
      trailing_ones = 0;
      trailing_signs = 0;
      total_zeros = 0;
      prev_idx = last;
      first = true;
      levels = [];
      runs = [];
    } in
    let st = scan_loop 32 scanned mask start in
    if mask == 0
    then (none, record start { prev_idx = 0 })
    else (some last, record st { total_zeros = st.total_zeros + st.prev_idx })
