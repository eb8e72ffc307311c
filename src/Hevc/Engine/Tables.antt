-- ===== src/Hevc/Engine/Tables.antt =====
-- The tables of hevc_cabac.c: the context states that follow, the shares of the range, and the
-- values that the contexts start from, for P slices first and then for I slices.
use bc250_vulkan_encode_stop.Base.{ℕ, List, [], ◌∷◌}

-- `g_hevc_next_state`.
unfoldable pub next_states : List (ℕ × ℕ)
next_states =
    (2, 1)
    ∷ (0, 3)
    ∷ (4, 0)
    ∷ (1, 5)
    ∷ (6, 2)
    ∷ (3, 7)
    ∷ (8, 4)
    ∷ (5, 9)
    ∷ (10, 4)
    ∷ (5, 11)
    ∷ (12, 8)
    ∷ (9, 13)
    ∷ (14, 8)
    ∷ (9, 15)
    ∷ (16, 10)
    ∷ (11, 17)
    ∷ (18, 12)
    ∷ (13, 19)
    ∷ (20, 14)
    ∷ (15, 21)
    ∷ (22, 16)
    ∷ (17, 23)
    ∷ (24, 18)
    ∷ (19, 25)
    ∷ (26, 18)
    ∷ (19, 27)
    ∷ (28, 22)
    ∷ (23, 29)
    ∷ (30, 22)
    ∷ (23, 31)
    ∷ (32, 24)
    ∷ (25, 33)
    ∷ (34, 26)
    ∷ (27, 35)
    ∷ (36, 26)
    ∷ (27, 37)
    ∷ (38, 30)
    ∷ (31, 39)
    ∷ (40, 30)
    ∷ (31, 41)
    ∷ (42, 32)
    ∷ (33, 43)
    ∷ (44, 32)
    ∷ (33, 45)
    ∷ (46, 36)
    ∷ (37, 47)
    ∷ (48, 36)
    ∷ (37, 49)
    ∷ (50, 38)
    ∷ (39, 51)
    ∷ (52, 38)
    ∷ (39, 53)
    ∷ (54, 42)
    ∷ (43, 55)
    ∷ (56, 42)
    ∷ (43, 57)
    ∷ (58, 44)
    ∷ (45, 59)
    ∷ (60, 44)
    ∷ (45, 61)
    ∷ (62, 46)
    ∷ (47, 63)
    ∷ (64, 48)
    ∷ (49, 65)
    ∷ (66, 48)
    ∷ (49, 67)
    ∷ (68, 50)
    ∷ (51, 69)
    ∷ (70, 52)
    ∷ (53, 71)
    ∷ (72, 52)
    ∷ (53, 73)
    ∷ (74, 54)
    ∷ (55, 75)
    ∷ (76, 54)
    ∷ (55, 77)
    ∷ (78, 56)
    ∷ (57, 79)
    ∷ (80, 58)
    ∷ (59, 81)
    ∷ (82, 58)
    ∷ (59, 83)
    ∷ (84, 60)
    ∷ (61, 85)
    ∷ (86, 60)
    ∷ (61, 87)
    ∷ (88, 60)
    ∷ (61, 89)
    ∷ (90, 62)
    ∷ (63, 91)
    ∷ (92, 64)
    ∷ (65, 93)
    ∷ (94, 64)
    ∷ (65, 95)
    ∷ (96, 66)
    ∷ (67, 97)
    ∷ (98, 66)
    ∷ (67, 99)
    ∷ (100, 66)
    ∷ (67, 101)
    ∷ (102, 68)
    ∷ (69, 103)
    ∷ (104, 68)
    ∷ (69, 105)
    ∷ (106, 70)
    ∷ (71, 107)
    ∷ (108, 70)
    ∷ (71, 109)
    ∷ (110, 70)
    ∷ (71, 111)
    ∷ (112, 72)
    ∷ (73, 113)
    ∷ (114, 72)
    ∷ (73, 115)
    ∷ (116, 72)
    ∷ (73, 117)
    ∷ (118, 74)
    ∷ (75, 119)
    ∷ (120, 74)
    ∷ (75, 121)
    ∷ (122, 74)
    ∷ (75, 123)
    ∷ (124, 76)
    ∷ (77, 125)
    ∷ (124, 76)
    ∷ (77, 125)
    ∷ (126, 126)
    ∷ (127, 127)
    ∷ []

-- `g_hevc_lps_range`.
unfoldable pub lps_ranges : List (List ℕ)
lps_ranges =
    (128 ∷ 176 ∷ 208 ∷ 240 ∷ [])
    ∷ (128 ∷ 167 ∷ 197 ∷ 227 ∷ [])
    ∷ (128 ∷ 158 ∷ 187 ∷ 216 ∷ [])
    ∷ (123 ∷ 150 ∷ 178 ∷ 205 ∷ [])
    ∷ (116 ∷ 142 ∷ 169 ∷ 195 ∷ [])
    ∷ (111 ∷ 135 ∷ 160 ∷ 185 ∷ [])
    ∷ (105 ∷ 128 ∷ 152 ∷ 175 ∷ [])
    ∷ (100 ∷ 122 ∷ 144 ∷ 166 ∷ [])
    ∷ (95 ∷ 116 ∷ 137 ∷ 158 ∷ [])
    ∷ (90 ∷ 110 ∷ 130 ∷ 150 ∷ [])
    ∷ (85 ∷ 104 ∷ 123 ∷ 142 ∷ [])
    ∷ (81 ∷ 99 ∷ 117 ∷ 135 ∷ [])
    ∷ (77 ∷ 94 ∷ 111 ∷ 128 ∷ [])
    ∷ (73 ∷ 89 ∷ 105 ∷ 122 ∷ [])
    ∷ (69 ∷ 85 ∷ 100 ∷ 116 ∷ [])
    ∷ (66 ∷ 80 ∷ 95 ∷ 110 ∷ [])
    ∷ (62 ∷ 76 ∷ 90 ∷ 104 ∷ [])
    ∷ (59 ∷ 72 ∷ 86 ∷ 99 ∷ [])
    ∷ (56 ∷ 69 ∷ 81 ∷ 94 ∷ [])
    ∷ (53 ∷ 65 ∷ 77 ∷ 89 ∷ [])
    ∷ (51 ∷ 62 ∷ 73 ∷ 85 ∷ [])
    ∷ (48 ∷ 59 ∷ 69 ∷ 80 ∷ [])
    ∷ (46 ∷ 56 ∷ 66 ∷ 76 ∷ [])
    ∷ (43 ∷ 53 ∷ 63 ∷ 72 ∷ [])
    ∷ (41 ∷ 50 ∷ 59 ∷ 69 ∷ [])
    ∷ (39 ∷ 48 ∷ 56 ∷ 65 ∷ [])
    ∷ (37 ∷ 45 ∷ 54 ∷ 62 ∷ [])
    ∷ (35 ∷ 43 ∷ 51 ∷ 59 ∷ [])
    ∷ (33 ∷ 41 ∷ 48 ∷ 56 ∷ [])
    ∷ (32 ∷ 39 ∷ 46 ∷ 53 ∷ [])
    ∷ (30 ∷ 37 ∷ 43 ∷ 50 ∷ [])
    ∷ (29 ∷ 35 ∷ 41 ∷ 48 ∷ [])
    ∷ (27 ∷ 33 ∷ 39 ∷ 45 ∷ [])
    ∷ (26 ∷ 31 ∷ 37 ∷ 43 ∷ [])
    ∷ (24 ∷ 30 ∷ 35 ∷ 41 ∷ [])
    ∷ (23 ∷ 28 ∷ 33 ∷ 39 ∷ [])
    ∷ (22 ∷ 27 ∷ 32 ∷ 37 ∷ [])
    ∷ (21 ∷ 26 ∷ 30 ∷ 35 ∷ [])
    ∷ (20 ∷ 24 ∷ 29 ∷ 33 ∷ [])
    ∷ (19 ∷ 23 ∷ 27 ∷ 31 ∷ [])
    ∷ (18 ∷ 22 ∷ 26 ∷ 30 ∷ [])
    ∷ (17 ∷ 21 ∷ 25 ∷ 28 ∷ [])
    ∷ (16 ∷ 20 ∷ 23 ∷ 27 ∷ [])
    ∷ (15 ∷ 19 ∷ 22 ∷ 25 ∷ [])
    ∷ (14 ∷ 18 ∷ 21 ∷ 24 ∷ [])
    ∷ (14 ∷ 17 ∷ 20 ∷ 23 ∷ [])
    ∷ (13 ∷ 16 ∷ 19 ∷ 22 ∷ [])
    ∷ (12 ∷ 15 ∷ 18 ∷ 21 ∷ [])
    ∷ (12 ∷ 14 ∷ 17 ∷ 20 ∷ [])
    ∷ (11 ∷ 14 ∷ 16 ∷ 19 ∷ [])
    ∷ (11 ∷ 13 ∷ 15 ∷ 18 ∷ [])
    ∷ (10 ∷ 12 ∷ 15 ∷ 17 ∷ [])
    ∷ (10 ∷ 12 ∷ 14 ∷ 16 ∷ [])
    ∷ (9 ∷ 11 ∷ 13 ∷ 15 ∷ [])
    ∷ (9 ∷ 11 ∷ 12 ∷ 14 ∷ [])
    ∷ (8 ∷ 10 ∷ 12 ∷ 14 ∷ [])
    ∷ (8 ∷ 9 ∷ 11 ∷ 13 ∷ [])
    ∷ (7 ∷ 9 ∷ 11 ∷ 12 ∷ [])
    ∷ (7 ∷ 9 ∷ 10 ∷ 12 ∷ [])
    ∷ (7 ∷ 8 ∷ 10 ∷ 11 ∷ [])
    ∷ (6 ∷ 8 ∷ 9 ∷ 11 ∷ [])
    ∷ (6 ∷ 7 ∷ 9 ∷ 10 ∷ [])
    ∷ (6 ∷ 7 ∷ 8 ∷ 9 ∷ [])
    ∷ (2 ∷ 2 ∷ 2 ∷ 2 ∷ [])
    ∷ []

unfoldable pub init_split_flag : List (List ℕ)
init_split_flag = (107 ∷ 139 ∷ 126 ∷ []) ∷ (139 ∷ 141 ∷ 157 ∷ []) ∷ []

unfoldable pub init_chroma_pred_mode : List (List ℕ)
init_chroma_pred_mode = (152 ∷ 139 ∷ []) ∷ (63 ∷ 139 ∷ []) ∷ []

unfoldable pub init_qt_cbf : List (List ℕ)
init_qt_cbf =
    (153 ∷ 111 ∷ 149 ∷ 107 ∷ 167 ∷ 154 ∷ 154 ∷ [])
    ∷ (111 ∷ 141 ∷ 94 ∷ 138 ∷ 182 ∷ 154 ∷ 154 ∷ [])
    ∷ []

unfoldable pub init_sig_flag : List (List ℕ)
init_sig_flag =
    (155 ∷ 154 ∷ 139 ∷ 153 ∷ 139 ∷ 123 ∷ 123 ∷ 63 ∷ 153 ∷ 166 ∷ 183 ∷ 140 ∷ 136 ∷ 153 ∷ 154 ∷ 166
      ∷ 183 ∷ 140 ∷ 136 ∷ 153 ∷ 154 ∷ 166 ∷ 183 ∷ 140 ∷ 136 ∷ 153 ∷ 154 ∷ 170 ∷ 153 ∷ 123 ∷ 123
      ∷ 107 ∷ 121 ∷ 107 ∷ 121 ∷ 167 ∷ 151 ∷ 183 ∷ 140 ∷ 151 ∷ 183 ∷ 140 ∷ [])
    ∷ (111 ∷ 111 ∷ 125 ∷ 110 ∷ 110 ∷ 94 ∷ 124 ∷ 108 ∷ 124 ∷ 107 ∷ 125 ∷ 141 ∷ 179 ∷ 153 ∷ 125 ∷ 107
        ∷ 125 ∷ 141 ∷ 179 ∷ 153 ∷ 125 ∷ 107 ∷ 125 ∷ 141 ∷ 179 ∷ 153 ∷ 125 ∷ 140 ∷ 139 ∷ 182 ∷ 182
        ∷ 152 ∷ 136 ∷ 152 ∷ 136 ∷ 153 ∷ 136 ∷ 139 ∷ 111 ∷ 136 ∷ 139 ∷ 111 ∷ [])
    ∷ []

unfoldable pub init_last : List (List ℕ)
init_last =
    (125 ∷ 110 ∷ 94 ∷ 110 ∷ 95 ∷ 79 ∷ 125 ∷ 111 ∷ 110 ∷ 78 ∷ 110 ∷ 111 ∷ 111 ∷ 95 ∷ 94 ∷ 108 ∷ 123
      ∷ 108 ∷ [])
    ∷ (110 ∷ 110 ∷ 124 ∷ 125 ∷ 140 ∷ 153 ∷ 125 ∷ 127 ∷ 140 ∷ 109 ∷ 111 ∷ 143 ∷ 127 ∷ 111 ∷ 79 ∷ 108
        ∷ 123 ∷ 63 ∷ [])
    ∷ []

unfoldable pub init_one_flag : List (List ℕ)
init_one_flag =
    (154 ∷ 196 ∷ 196 ∷ 167 ∷ 154 ∷ 152 ∷ 167 ∷ 182 ∷ 182 ∷ 134 ∷ 149 ∷ 136 ∷ 153 ∷ 121 ∷ 136 ∷ 137
      ∷ 169 ∷ 194 ∷ 166 ∷ 167 ∷ 154 ∷ 167 ∷ 137 ∷ 182 ∷ [])
    ∷ (140 ∷ 92 ∷ 137 ∷ 138 ∷ 140 ∷ 152 ∷ 138 ∷ 139 ∷ 153 ∷ 74 ∷ 149 ∷ 92 ∷ 139 ∷ 107 ∷ 122 ∷ 152
        ∷ 140 ∷ 179 ∷ 166 ∷ 182 ∷ 140 ∷ 227 ∷ 122 ∷ 197 ∷ [])
    ∷ []

unfoldable pub init_abs_flag : List (List ℕ)
init_abs_flag =
    (107 ∷ 167 ∷ 91 ∷ 122 ∷ 107 ∷ 167 ∷ []) ∷ (138 ∷ 153 ∷ 136 ∷ 167 ∷ 152 ∷ 152 ∷ []) ∷ []

unfoldable pub init_sig_cg_flag : List (List ℕ)
init_sig_cg_flag = (121 ∷ 140 ∷ 61 ∷ 154 ∷ []) ∷ (91 ∷ 171 ∷ 134 ∷ 141 ∷ []) ∷ []

unfoldable pub init_trans_subdiv : List (List ℕ)
init_trans_subdiv = (124 ∷ 138 ∷ 94 ∷ []) ∷ (153 ∷ 138 ∷ 138 ∷ []) ∷ []

unfoldable pub init_part_size : List ℕ
init_part_size = 154 ∷ 184 ∷ []

unfoldable pub init_intra_pred_mode : List ℕ
init_intra_pred_mode = 154 ∷ 184 ∷ []

unfoldable pub init_skip_flag : List ℕ
init_skip_flag = 197 ∷ 185 ∷ 201 ∷ []

unfoldable pub init_mvd : List ℕ
init_mvd = 140 ∷ 198 ∷ []

abbrev pub init_pred_mode : ℕ
init_pred_mode = 149

abbrev pub init_merge_flag : ℕ
init_merge_flag = 110

abbrev pub init_merge_idx : ℕ
init_merge_idx = 122

abbrev pub init_mvp_idx : ℕ
init_mvp_idx = 168

abbrev pub init_root_cbf : ℕ
init_root_cbf = 79
