-- ===== src/Cavlc/Tables.antt =====
-- The constant tables of approach1-compute-encoder/src/cavlc.c, row by row. A row that the source
-- leaves short is filled with zeros in C; here it ends, and reads behind its end give 0.
use bc250_vulkan_encode_stop.Base.{ℕ, List, [], ◌∷◌, get_or}

-- table[row][column]
abbrev pub entry : List (List ℕ) → ℕ → ℕ → ℕ
entry table row column = get_or (get_or table row []) column 0

unfoldable pub zigzag_4x4 : List ℕ
zigzag_4x4 = 0 ∷ 1 ∷ 4 ∷ 8 ∷ 5 ∷ 2 ∷ 3 ∷ 6 ∷ 9 ∷ 12 ∷ 13 ∷ 10 ∷ 7 ∷ 11 ∷ 14 ∷ 15 ∷ []

unfoldable pub cbp_inter_table : List ℕ
cbp_inter_table =
    0 ∷ 16 ∷ 1 ∷ 2 ∷ 4 ∷ 8 ∷ 32 ∷ 3 ∷ 5 ∷ 10 ∷ 12 ∷ 15 ∷ 47 ∷ 7 ∷ 11 ∷ 13 ∷ 14 ∷ 6 ∷ 9 ∷ 31 ∷ 35
    ∷ 37 ∷ 42 ∷ 44 ∷ 33 ∷ 34 ∷ 36 ∷ 40 ∷ 39 ∷ 43 ∷ 45 ∷ 46 ∷ 17 ∷ 18 ∷ 20 ∷ 24 ∷ 19 ∷ 21 ∷ 26 ∷ 28
    ∷ 23 ∷ 27 ∷ 29 ∷ 30 ∷ 22 ∷ 25 ∷ 38 ∷ 41 ∷ []

unfoldable pub chroma_dc_coeff_token_len : List ℕ
chroma_dc_coeff_token_len =
    2 ∷ 0 ∷ 0 ∷ 0 ∷ 6 ∷ 1 ∷ 0 ∷ 0 ∷ 6 ∷ 6 ∷ 3 ∷ 0 ∷ 6 ∷ 7 ∷ 7 ∷ 6 ∷ 6 ∷ 8 ∷ 8 ∷ 7 ∷ []

unfoldable pub chroma_dc_coeff_token_bits : List ℕ
chroma_dc_coeff_token_bits =
    1 ∷ 0 ∷ 0 ∷ 0 ∷ 7 ∷ 1 ∷ 0 ∷ 0 ∷ 4 ∷ 6 ∷ 1 ∷ 0 ∷ 3 ∷ 3 ∷ 2 ∷ 5 ∷ 2 ∷ 3 ∷ 2 ∷ 0 ∷ []

unfoldable pub coeff_token_len : List (List ℕ)
coeff_token_len =
    (1 ∷ 0 ∷ 0 ∷ 0 ∷ 6 ∷ 2 ∷ 0 ∷ 0 ∷ 8 ∷ 6 ∷ 3 ∷ 0 ∷ 9 ∷ 8 ∷ 7 ∷ 5 ∷ 10 ∷ 9 ∷ 8 ∷ 6 ∷ 11 ∷ 10 ∷ 9
      ∷ 7 ∷ 13 ∷ 11 ∷ 10 ∷ 8 ∷ 13 ∷ 13 ∷ 11 ∷ 9 ∷ 13 ∷ 13 ∷ 13 ∷ 10 ∷ 14 ∷ 14 ∷ 13 ∷ 11 ∷ 14 ∷ 14
      ∷ 14 ∷ 13 ∷ 15 ∷ 15 ∷ 14 ∷ 14 ∷ 15 ∷ 15 ∷ 15 ∷ 14 ∷ 16 ∷ 15 ∷ 15 ∷ 15 ∷ 16 ∷ 16 ∷ 16 ∷ 15 ∷ 16
      ∷ 16 ∷ 16 ∷ 16 ∷ 16 ∷ 16 ∷ 16 ∷ 16 ∷ [])
    ∷ (2 ∷ 0 ∷ 0 ∷ 0 ∷ 6 ∷ 2 ∷ 0 ∷ 0 ∷ 6 ∷ 5 ∷ 3 ∷ 0 ∷ 7 ∷ 6 ∷ 6 ∷ 4 ∷ 8 ∷ 6 ∷ 6 ∷ 4 ∷ 8 ∷ 7 ∷ 7 ∷ 5
        ∷ 9 ∷ 8 ∷ 8 ∷ 6 ∷ 11 ∷ 9 ∷ 9 ∷ 6 ∷ 11 ∷ 11 ∷ 11 ∷ 7 ∷ 12 ∷ 11 ∷ 11 ∷ 9 ∷ 12 ∷ 12 ∷ 12 ∷ 11
        ∷ 12 ∷ 12 ∷ 12 ∷ 11 ∷ 13 ∷ 13 ∷ 13 ∷ 12 ∷ 13 ∷ 13 ∷ 13 ∷ 13 ∷ 13 ∷ 14 ∷ 13 ∷ 13 ∷ 14 ∷ 14
        ∷ 14 ∷ 13 ∷ 14 ∷ 14 ∷ 14 ∷ 14 ∷ [])
    ∷ (4 ∷ 0 ∷ 0 ∷ 0 ∷ 6 ∷ 4 ∷ 0 ∷ 0 ∷ 6 ∷ 5 ∷ 4 ∷ 0 ∷ 6 ∷ 5 ∷ 5 ∷ 4 ∷ 7 ∷ 5 ∷ 5 ∷ 4 ∷ 7 ∷ 5 ∷ 5 ∷ 4
        ∷ 7 ∷ 6 ∷ 6 ∷ 4 ∷ 7 ∷ 6 ∷ 6 ∷ 4 ∷ 8 ∷ 7 ∷ 7 ∷ 5 ∷ 8 ∷ 8 ∷ 7 ∷ 6 ∷ 9 ∷ 8 ∷ 8 ∷ 7 ∷ 9 ∷ 9 ∷ 8
        ∷ 8 ∷ 9 ∷ 9 ∷ 9 ∷ 8 ∷ 10 ∷ 9 ∷ 9 ∷ 9 ∷ 10 ∷ 10 ∷ 10 ∷ 10 ∷ 10 ∷ 10 ∷ 10 ∷ 10 ∷ 10 ∷ 10 ∷ 10
        ∷ 10 ∷ [])
    ∷ (6 ∷ 0 ∷ 0 ∷ 0 ∷ 6 ∷ 6 ∷ 0 ∷ 0 ∷ 6 ∷ 6 ∷ 6 ∷ 0 ∷ 6 ∷ 6 ∷ 6 ∷ 6 ∷ 6 ∷ 6 ∷ 6 ∷ 6 ∷ 6 ∷ 6 ∷ 6 ∷ 6
        ∷ 6 ∷ 6 ∷ 6 ∷ 6 ∷ 6 ∷ 6 ∷ 6 ∷ 6 ∷ 6 ∷ 6 ∷ 6 ∷ 6 ∷ 6 ∷ 6 ∷ 6 ∷ 6 ∷ 6 ∷ 6 ∷ 6 ∷ 6 ∷ 6 ∷ 6 ∷ 6
        ∷ 6 ∷ 6 ∷ 6 ∷ 6 ∷ 6 ∷ 6 ∷ 6 ∷ 6 ∷ 6 ∷ 6 ∷ 6 ∷ 6 ∷ 6 ∷ 6 ∷ 6 ∷ 6 ∷ 6 ∷ 6 ∷ 6 ∷ 6 ∷ 6 ∷ [])
    ∷ []

unfoldable pub coeff_token_bits : List (List ℕ)
coeff_token_bits =
    (1 ∷ 0 ∷ 0 ∷ 0 ∷ 5 ∷ 1 ∷ 0 ∷ 0 ∷ 7 ∷ 4 ∷ 1 ∷ 0 ∷ 7 ∷ 6 ∷ 5 ∷ 3 ∷ 7 ∷ 6 ∷ 5 ∷ 3 ∷ 7 ∷ 6 ∷ 5 ∷ 4
      ∷ 15 ∷ 6 ∷ 5 ∷ 4 ∷ 11 ∷ 14 ∷ 5 ∷ 4 ∷ 8 ∷ 10 ∷ 13 ∷ 4 ∷ 15 ∷ 14 ∷ 9 ∷ 4 ∷ 11 ∷ 10 ∷ 13 ∷ 12
      ∷ 15 ∷ 14 ∷ 9 ∷ 12 ∷ 11 ∷ 10 ∷ 13 ∷ 8 ∷ 15 ∷ 1 ∷ 9 ∷ 12 ∷ 11 ∷ 14 ∷ 13 ∷ 8 ∷ 7 ∷ 10 ∷ 9 ∷ 12
      ∷ 4 ∷ 6 ∷ 5 ∷ 8 ∷ [])
    ∷ (3 ∷ 0 ∷ 0 ∷ 0 ∷ 11 ∷ 2 ∷ 0 ∷ 0 ∷ 7 ∷ 7 ∷ 3 ∷ 0 ∷ 7 ∷ 10 ∷ 9 ∷ 5 ∷ 7 ∷ 6 ∷ 5 ∷ 4 ∷ 4 ∷ 6 ∷ 5
        ∷ 6 ∷ 7 ∷ 6 ∷ 5 ∷ 8 ∷ 15 ∷ 6 ∷ 5 ∷ 4 ∷ 11 ∷ 14 ∷ 13 ∷ 4 ∷ 15 ∷ 10 ∷ 9 ∷ 4 ∷ 11 ∷ 14 ∷ 13
        ∷ 12 ∷ 8 ∷ 10 ∷ 9 ∷ 8 ∷ 15 ∷ 14 ∷ 13 ∷ 12 ∷ 11 ∷ 10 ∷ 9 ∷ 12 ∷ 7 ∷ 11 ∷ 6 ∷ 8 ∷ 9 ∷ 8 ∷ 10
        ∷ 1 ∷ 7 ∷ 6 ∷ 5 ∷ 4 ∷ [])
    ∷ (15 ∷ 0 ∷ 0 ∷ 0 ∷ 15 ∷ 14 ∷ 0 ∷ 0 ∷ 11 ∷ 15 ∷ 13 ∷ 0 ∷ 8 ∷ 12 ∷ 14 ∷ 12 ∷ 15 ∷ 10 ∷ 11 ∷ 11
        ∷ 11 ∷ 8 ∷ 9 ∷ 10 ∷ 9 ∷ 14 ∷ 13 ∷ 9 ∷ 8 ∷ 10 ∷ 9 ∷ 8 ∷ 15 ∷ 14 ∷ 13 ∷ 13 ∷ 11 ∷ 14 ∷ 10 ∷ 12
        ∷ 15 ∷ 10 ∷ 13 ∷ 12 ∷ 11 ∷ 14 ∷ 9 ∷ 12 ∷ 8 ∷ 10 ∷ 13 ∷ 8 ∷ 13 ∷ 7 ∷ 9 ∷ 12 ∷ 9 ∷ 12 ∷ 11
        ∷ 10 ∷ 5 ∷ 8 ∷ 7 ∷ 6 ∷ 1 ∷ 4 ∷ 3 ∷ 2 ∷ [])
    ∷ (3 ∷ 0 ∷ 0 ∷ 0 ∷ 0 ∷ 1 ∷ 0 ∷ 0 ∷ 4 ∷ 5 ∷ 6 ∷ 0 ∷ 8 ∷ 9 ∷ 10 ∷ 11 ∷ 12 ∷ 13 ∷ 14 ∷ 15 ∷ 16 ∷ 17
        ∷ 18 ∷ 19 ∷ 20 ∷ 21 ∷ 22 ∷ 23 ∷ 24 ∷ 25 ∷ 26 ∷ 27 ∷ 28 ∷ 29 ∷ 30 ∷ 31 ∷ 32 ∷ 33 ∷ 34 ∷ 35
        ∷ 36 ∷ 37 ∷ 38 ∷ 39 ∷ 40 ∷ 41 ∷ 42 ∷ 43 ∷ 44 ∷ 45 ∷ 46 ∷ 47 ∷ 48 ∷ 49 ∷ 50 ∷ 51 ∷ 52 ∷ 53
        ∷ 54 ∷ 55 ∷ 56 ∷ 57 ∷ 58 ∷ 59 ∷ 60 ∷ 61 ∷ 62 ∷ 63 ∷ [])
    ∷ []

unfoldable pub total_zeros_len : List (List ℕ)
total_zeros_len =
    (1 ∷ 3 ∷ 3 ∷ 4 ∷ 4 ∷ 5 ∷ 5 ∷ 6 ∷ 6 ∷ 7 ∷ 7 ∷ 8 ∷ 8 ∷ 9 ∷ 9 ∷ 9 ∷ [])
    ∷ (3 ∷ 3 ∷ 3 ∷ 3 ∷ 3 ∷ 4 ∷ 4 ∷ 4 ∷ 4 ∷ 5 ∷ 5 ∷ 6 ∷ 6 ∷ 6 ∷ 6 ∷ [])
    ∷ (4 ∷ 3 ∷ 3 ∷ 3 ∷ 4 ∷ 4 ∷ 3 ∷ 3 ∷ 4 ∷ 5 ∷ 5 ∷ 6 ∷ 5 ∷ 6 ∷ [])
    ∷ (5 ∷ 3 ∷ 4 ∷ 4 ∷ 3 ∷ 3 ∷ 3 ∷ 4 ∷ 3 ∷ 4 ∷ 5 ∷ 5 ∷ 5 ∷ [])
    ∷ (4 ∷ 4 ∷ 4 ∷ 3 ∷ 3 ∷ 3 ∷ 3 ∷ 3 ∷ 4 ∷ 5 ∷ 4 ∷ 5 ∷ [])
    ∷ (6 ∷ 5 ∷ 3 ∷ 3 ∷ 3 ∷ 3 ∷ 3 ∷ 3 ∷ 4 ∷ 3 ∷ 6 ∷ [])
    ∷ (6 ∷ 5 ∷ 3 ∷ 3 ∷ 3 ∷ 2 ∷ 3 ∷ 4 ∷ 3 ∷ 6 ∷ [])
    ∷ (6 ∷ 4 ∷ 5 ∷ 3 ∷ 2 ∷ 2 ∷ 3 ∷ 3 ∷ 6 ∷ [])
    ∷ (6 ∷ 6 ∷ 4 ∷ 2 ∷ 2 ∷ 3 ∷ 2 ∷ 5 ∷ [])
    ∷ (5 ∷ 5 ∷ 3 ∷ 2 ∷ 2 ∷ 2 ∷ 4 ∷ [])
    ∷ (4 ∷ 4 ∷ 3 ∷ 3 ∷ 1 ∷ 3 ∷ [])
    ∷ (4 ∷ 4 ∷ 2 ∷ 1 ∷ 3 ∷ [])
    ∷ (3 ∷ 3 ∷ 1 ∷ 2 ∷ [])
    ∷ (2 ∷ 2 ∷ 1 ∷ [])
    ∷ (1 ∷ 1 ∷ [])
    ∷ []

unfoldable pub total_zeros_bits : List (List ℕ)
total_zeros_bits =
    (1 ∷ 3 ∷ 2 ∷ 3 ∷ 2 ∷ 3 ∷ 2 ∷ 3 ∷ 2 ∷ 3 ∷ 2 ∷ 3 ∷ 2 ∷ 3 ∷ 2 ∷ 1 ∷ [])
    ∷ (7 ∷ 6 ∷ 5 ∷ 4 ∷ 3 ∷ 5 ∷ 4 ∷ 3 ∷ 2 ∷ 3 ∷ 2 ∷ 3 ∷ 2 ∷ 1 ∷ 0 ∷ [])
    ∷ (5 ∷ 7 ∷ 6 ∷ 5 ∷ 4 ∷ 3 ∷ 4 ∷ 3 ∷ 2 ∷ 3 ∷ 2 ∷ 1 ∷ 1 ∷ 0 ∷ [])
    ∷ (3 ∷ 7 ∷ 5 ∷ 4 ∷ 6 ∷ 5 ∷ 4 ∷ 3 ∷ 3 ∷ 2 ∷ 2 ∷ 1 ∷ 0 ∷ [])
    ∷ (5 ∷ 4 ∷ 3 ∷ 7 ∷ 6 ∷ 5 ∷ 4 ∷ 3 ∷ 2 ∷ 1 ∷ 1 ∷ 0 ∷ [])
    ∷ (1 ∷ 1 ∷ 7 ∷ 6 ∷ 5 ∷ 4 ∷ 3 ∷ 2 ∷ 1 ∷ 1 ∷ 0 ∷ [])
    ∷ (1 ∷ 1 ∷ 5 ∷ 4 ∷ 3 ∷ 3 ∷ 2 ∷ 1 ∷ 1 ∷ 0 ∷ [])
    ∷ (1 ∷ 1 ∷ 1 ∷ 3 ∷ 3 ∷ 2 ∷ 2 ∷ 1 ∷ 0 ∷ [])
    ∷ (1 ∷ 0 ∷ 1 ∷ 3 ∷ 2 ∷ 1 ∷ 1 ∷ 1 ∷ [])
    ∷ (1 ∷ 0 ∷ 1 ∷ 3 ∷ 2 ∷ 1 ∷ 1 ∷ [])
    ∷ (0 ∷ 1 ∷ 1 ∷ 2 ∷ 1 ∷ 3 ∷ [])
    ∷ (0 ∷ 1 ∷ 1 ∷ 1 ∷ 1 ∷ [])
    ∷ (0 ∷ 1 ∷ 1 ∷ 1 ∷ [])
    ∷ (0 ∷ 1 ∷ 1 ∷ [])
    ∷ (0 ∷ 1 ∷ [])
    ∷ []

unfoldable pub run_len : List (List ℕ)
run_len =
    (1 ∷ 1 ∷ [])
    ∷ (1 ∷ 2 ∷ 2 ∷ [])
    ∷ (2 ∷ 2 ∷ 2 ∷ 2 ∷ [])
    ∷ (2 ∷ 2 ∷ 2 ∷ 3 ∷ 3 ∷ [])
    ∷ (2 ∷ 2 ∷ 3 ∷ 3 ∷ 3 ∷ 3 ∷ [])
    ∷ (2 ∷ 3 ∷ 3 ∷ 3 ∷ 3 ∷ 3 ∷ 3 ∷ [])
    ∷ (3 ∷ 3 ∷ 3 ∷ 3 ∷ 3 ∷ 3 ∷ 3 ∷ 4 ∷ 5 ∷ 6 ∷ 7 ∷ 8 ∷ 9 ∷ 10 ∷ 11 ∷ [])
    ∷ []

unfoldable pub run_bits : List (List ℕ)
run_bits =
    (1 ∷ 0 ∷ [])
    ∷ (1 ∷ 1 ∷ 0 ∷ [])
    ∷ (3 ∷ 2 ∷ 1 ∷ 0 ∷ [])
    ∷ (3 ∷ 2 ∷ 1 ∷ 1 ∷ 0 ∷ [])
    ∷ (3 ∷ 2 ∷ 3 ∷ 2 ∷ 1 ∷ 0 ∷ [])
    ∷ (3 ∷ 0 ∷ 1 ∷ 3 ∷ 2 ∷ 5 ∷ 4 ∷ [])
    ∷ (7 ∷ 6 ∷ 5 ∷ 4 ∷ 3 ∷ 2 ∷ 1 ∷ 1 ∷ 1 ∷ 1 ∷ 1 ∷ 1 ∷ 1 ∷ 1 ∷ 1 ∷ [])
    ∷ []

unfoldable pub chroma_dc_total_zeros_len : List (List ℕ)
chroma_dc_total_zeros_len = (1 ∷ 2 ∷ 3 ∷ 3 ∷ []) ∷ (1 ∷ 2 ∷ 2 ∷ 0 ∷ []) ∷ (1 ∷ 1 ∷ 0 ∷ 0 ∷ []) ∷ []

unfoldable pub chroma_dc_total_zeros_bits : List (List ℕ)
chroma_dc_total_zeros_bits = (1 ∷ 1 ∷ 1 ∷ 0 ∷ []) ∷ (1 ∷ 1 ∷ 0 ∷ 0 ∷ []) ∷ (1 ∷ 0 ∷ 0 ∷ 0 ∷ []) ∷ []
