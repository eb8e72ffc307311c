-- ===== src/Cavlc/Residual.antt =====
-- The residual block writers of approach1-compute-encoder/src/cavlc.c: levels, total_zeros,
-- run_before, and the three kinds of blocks. Each block writer returns its `total_coeff`.
use bc250_vulkan_encode_stop.Base.{
  ℕ, zero, suc, ◌+◌, ◌-◌, ◌*◌, ◌/◌, ◌%◌, ◌^◌, bit_and, Bool, true, false, ◌&&◌, ◌||◌, List, [], ◌∷◌,
  none, some, ltb, leb, ◌==◌, if◌then◌else◌, map, get_or, drop,
}
use bc250_vulkan_encode_stop.Base.Int.{ℤ, pos, negsuc}
use bc250_vulkan_encode_stop.Bitstream.{
  Bitstream, Writer, ◌▸◌, bs_write_u, bs_write1, bs_write_ue, bs_rbsp_trailing_bits,
}
use bc250_vulkan_encode_stop.Cavlc.{Scan, cavlc_scan_coeffs, bs_write_zeros, magnitude}
use bc250_vulkan_encode_stop.Cavlc.Tables.{
  entry, zigzag_4x4, coeff_token_len, coeff_token_bits, total_zeros_len, total_zeros_bits, run_len,
  run_bits, chroma_dc_coeff_token_len, chroma_dc_coeff_token_bits, chroma_dc_total_zeros_len,
  chroma_dc_total_zeros_bits,
}

-- `while ((1 << (suffix_size + 1)) <= total) suffix_size++`, for `total` below 2^31.
unfoldable pub suffix_size_loop : ℕ → ℕ → ℕ → ℕ
suffix_size_loop zero size total = size
suffix_size_loop (suc fuel) size total =
    let more = suffix_size_loop fuel (size + 1) total in
    if leb (2 ^ (size + 1)) total then more else size

-- The escape of a level prefix of 15 or more.
unfoldable pub write_escape : ℕ → Writer
write_escape total =
    let suffix_size = suffix_size_loop 31 0 total in
    bs_write_zeros (suffix_size + 3)
    ▸ bs_write1 1
    ▸ bs_write_u suffix_size (total - 2 ^ suffix_size)

unfoldable pub write_level_code : ℕ → ℕ → Writer
unfolding write_escape
write_level_code zero level_code =
    if ltb level_code 14
    then bs_write_zeros level_code ▸ bs_write1 1
    else if ltb level_code 30
    then bs_write_zeros 14 ▸ bs_write1 1 ▸ bs_write_u 4 (level_code - 14)
    else write_escape (level_code + 4066)
write_level_code (suc s) level_code =
    let prefix = level_code / 2 ^ suc s in
    if ltb prefix 15
    then bs_write_zeros prefix
      ▸ bs_write1 1
      ▸ bs_write_u (suc s) (bit_and level_code (2 ^ suc s - 1))
    else write_escape (level_code - 15 * 2 ^ suc s + 4096)

-- A negative level code, -(k + 1): no zeros are written, and the mask takes its two's complement.
unfoldable pub write_negative_code : ℕ → ℕ → Writer
write_negative_code zero k = bs_write1 1
write_negative_code (suc s) k = bs_write1 1 ▸ bs_write_u (suc s) (2 ^ suc s - 1 - k % 2 ^ suc s)

-- `level_code` less the 2 of a first level behind fewer than three trailing ones.
unfoldable pub level_code_of : ℤ → Bool → ℤ
level_code_of (pos zero) offset = if offset then negsuc 2 else negsuc 0
level_code_of (pos (suc zero)) offset = if offset then negsuc 1 else pos 0
level_code_of (pos (suc (suc n))) offset = pos (if offset then 2 * n else 2 * n + 2)
level_code_of (negsuc zero) offset = if offset then negsuc 0 else pos 1
level_code_of (negsuc (suc n)) offset = pos (if offset then 2 * n + 1 else 2 * n + 3)

-- The suffix length for the next level.
unfoldable pub next_suffix_length : ℤ → ℕ → ℕ
next_suffix_length level suffix_length =
    let sl = if suffix_length == 0 then 1 else suffix_length in
    if ltb (3 * 2 ^ (sl - 1)) (magnitude level) && ltb sl 6 then sl + 1 else sl

unfoldable pub write_signed_code : ℕ → ℤ → Writer
write_signed_code suffix_length (pos level_code) = write_level_code suffix_length level_code
write_signed_code suffix_length (negsuc k) = write_negative_code suffix_length k

unfoldable pub cavlc_write_one_level : ℤ → Bool → Bool → ℕ → Bitstream → Bitstream × ℕ
unfolding write_signed_code level_code_of next_suffix_length
cavlc_write_one_level level is_first trailing_ones_lt3 suffix_length s = (
  write_signed_code suffix_length (level_code_of level (is_first && trailing_ones_lt3)) s,
  next_suffix_length level suffix_length,
)

-- The loop over the levels.
unfoldable pub levels_loop : List ℤ → Bool → Bool → ℕ → Writer
unfolding cavlc_write_one_level
levels_loop [] is_first lt3 suffix_length s = s
levels_loop (level ∷ levels) is_first lt3 suffix_length s =
    let (t, next) = cavlc_write_one_level level is_first lt3 suffix_length s in
    levels_loop levels false lt3 next t

-- `levels` holds the `count` levels that the loop visits.
unfoldable pub cavlc_write_levels : List ℤ → ℕ → ℕ → Writer
unfolding levels_loop
cavlc_write_levels levels trailing_ones total_coeff =
    levels_loop levels true (ltb trailing_ones 3)
      (if ltb 10 total_coeff && ltb trailing_ones 3 then 1 else 0)

-- A code of a table, and `otherwise` where the table has none.
unfoldable pub write_entry : List (List ℕ) → List (List ℕ) → ℕ → ℕ → Writer → Writer
write_entry len bits row column otherwise =
    if ltb 0 (entry len row column)
    then bs_write_u (entry len row column) (entry bits row column)
    else otherwise

-- total_zeros is not coded for an empty or a full block.
abbrev pub not_coded : ℕ → ℕ → Bool
not_coded max_coeff total_coeff = total_coeff == 0 || leb max_coeff total_coeff

unfoldable pub cavlc_write_total_zeros : ℕ → ℕ → ℕ → Writer
unfolding write_entry
cavlc_write_total_zeros max_coeff total_coeff total_zeros =
    if not_coded max_coeff total_coeff
    then (λ s. s)
    else if ltb (total_coeff - 1) 15 && ltb total_zeros 16
    then write_entry total_zeros_len total_zeros_bits (total_coeff - 1) total_zeros
        (bs_write_ue total_zeros)
    else bs_write_ue total_zeros

unfoldable pub cavlc_write_chroma_dc_total_zeros : ℕ → ℕ → Writer
unfolding write_entry
cavlc_write_chroma_dc_total_zeros total_coeff total_zeros =
    if not_coded 4 total_coeff
    then (λ s. s)
    else if ltb (total_coeff - 1) 3 && ltb total_zeros 4
    then write_entry chroma_dc_total_zeros_len chroma_dc_total_zeros_bits (total_coeff - 1)
        total_zeros (λ s. s)
    else bs_write_ue total_zeros

-- The loop over `runs`, while zeros are left.
unfoldable pub runs_loop : List ℕ → ℕ → Writer
unfolding write_entry
runs_loop [] zeros_left s = s
runs_loop (run ∷ runs) zeros_left s =
    let row = if leb zeros_left 6 then zeros_left - 1 else 6 in
    let t =
      (if ltb run 16
          then write_entry run_len run_bits row run (bs_write_ue run)
          else bs_write_ue run)
        s in
    let more = runs_loop runs (zeros_left - run) t in if ltb 0 zeros_left then more else s

-- `runs` holds total_coeff - 1 entries; a run is at most the zeros that are left.
unfoldable pub cavlc_write_run_befores : List ℕ → ℕ → Writer
unfolding runs_loop
cavlc_write_run_befores runs total_zeros = runs_loop runs total_zeros

unfoldable pub vlc_index : ℕ → ℕ
vlc_index nc = if ltb nc 2 then 0 else if ltb nc 4 then 1 else if ltb nc 8 then 2 else 3

-- coeff_token, of a table of `columns` entries.
unfoldable pub write_coeff_token : List (List ℕ) → List (List ℕ) → ℕ → ℕ → ℕ → ℕ → Writer
unfolding write_entry
write_coeff_token len bits columns row total_coeff trailing_ones =
    let token_idx = total_coeff * 4 + trailing_ones in
    if ltb token_idx columns
    then write_entry len bits row token_idx (bs_write_ue total_coeff)
    else bs_write_ue total_coeff

-- The signs and the levels.
unfoldable pub write_signs_levels : Scan → Writer
unfolding cavlc_write_levels
write_signs_levels st =
    (if ltb 0 st.trailing_ones then bs_write_u st.trailing_ones st.trailing_signs else (λ s. s))
    ▸ cavlc_write_levels st.levels st.trailing_ones st.total_coeff

-- A block of 16 or 15 coefficients in scan order.
unfoldable pub write_scanned : ℕ → List ℤ → ℕ → Bitstream → Bitstream × ℕ
unfolding write_coeff_token write_signs_levels cavlc_write_total_zeros cavlc_write_run_befores
    vlc_index
write_scanned max_coeff scanned nc s =
    let (last, st) = cavlc_scan_coeffs scanned in
    elim last [
      | none ↦ (
        bs_write_u (entry coeff_token_len (vlc_index nc) 0)
            (entry coeff_token_bits (vlc_index nc) 0) s,
        0,
      )
      | some i ↦ (
        (write_coeff_token coeff_token_len coeff_token_bits 68 (vlc_index nc) st.total_coeff
                st.trailing_ones
              ▸ write_signs_levels st
              ▸ cavlc_write_total_zeros max_coeff st.total_coeff st.total_zeros
              ▸ cavlc_write_run_befores st.runs st.total_zeros)
            s,
        st.total_coeff,
      )
    ]

-- The coefficients in scan order.
unfoldable pub scan_order : List ℕ → List ℤ → List ℤ
scan_order positions coeffs = map (λ i. get_or coeffs i (pos 0)) positions

unfoldable pub cavlc_write_4x4_block : List ℤ → ℕ → Bitstream → Bitstream × ℕ
unfolding write_scanned scan_order
cavlc_write_4x4_block coeffs nc = write_scanned 16 (scan_order zigzag_4x4 coeffs) nc

unfoldable pub cavlc_write_4x4_ac_block : List ℤ → ℕ → Bitstream → Bitstream × ℕ
unfolding write_scanned scan_order
cavlc_write_4x4_ac_block coeffs nc = write_scanned 15 (scan_order (drop 1 zigzag_4x4) coeffs) nc

unfoldable pub cavlc_write_chroma_dc_block : List ℤ → Bitstream → Bitstream × ℕ
unfolding write_coeff_token write_signs_levels cavlc_write_chroma_dc_total_zeros
    cavlc_write_run_befores
cavlc_write_chroma_dc_block coeffs s =
    let (last, st) = cavlc_scan_coeffs coeffs in
    elim last [
      | none ↦ (
        bs_write_u (get_or chroma_dc_coeff_token_len 0 0) (get_or chroma_dc_coeff_token_bits 0 0) s,
        0,
      )
      | some i ↦ (
        (write_coeff_token (chroma_dc_coeff_token_len ∷ []) (chroma_dc_coeff_token_bits ∷ []) 20 0
                st.total_coeff st.trailing_ones
              ▸ write_signs_levels st
              ▸ cavlc_write_chroma_dc_total_zeros st.total_coeff st.total_zeros
              ▸ cavlc_write_run_befores st.runs st.total_zeros)
            s,
        st.total_coeff,
      )
    ]

unfoldable pub cavlc_write_slice_trailing_bits : Writer
cavlc_write_slice_trailing_bits = bs_rbsp_trailing_bits
