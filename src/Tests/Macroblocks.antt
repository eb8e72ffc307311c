-- ===== src/Tests/Macroblocks.antt =====
-- Motion vector predictors and macroblock headers.
use bc250_vulkan_encode_stop.Blocks.{quantize_dc_luma}
use bc250_vulkan_encode_stop.Base.{
  Bool, ◌≡◌, refl, List, [], ◌∷◌, ◌++◌, some, arith, get_or, ltb, if◌then◌else◌,
}
use bc250_vulkan_encode_stop.Base.Int.{pos, negsuc, ◌-ℤ◌}
use bc250_vulkan_encode_stop.Bitstream.Writes.{Writes}
use bc250_vulkan_encode_stop.MotionVectors.{Mv, mv_predictor, skip_mv_predictor}
use bc250_vulkan_encode_stop.MotionVectors.Standard.{
  standard_mvp, standard_skip, mv_predictor-standard_mvp, skip_mv_predictor-standard_skip,
}
use bc250_vulkan_encode_stop.Cavlc.Reader.{read_p16x16, cavlc_write_mb_p16x16_header-read}
use bc250_vulkan_encode_stop.MotionVectors.Predictor.{
  left, top, corner, spec_mvp, mv_predictor-lone_corner,
}
use bc250_vulkan_encode_stop.Cavlc.{cavlc_write_mb_p16x16_header}
use bc250_vulkan_encode_stop.Cavlc.Header.{p16x16_code, cavlc_write_mb_p16x16_header-Writes}

abbrev vectors : List Mv
vectors = (pos 1, pos 2) ∷ (pos 3, negsuc 0) ∷ (pos 5, pos 4) ∷ (pos 0, pos 0) ∷ []

mv_predictor-standard_mvp_example : mv_predictor vectors 1 1 2 0 ≡ standard_mvp vectors 1 1 2 0
mv_predictor-standard_mvp_example =
    mv_predictor-standard_mvp vectors 1 1 2 0 (λ r e. omega (arith, e)) (omega arith) (omega arith)
      (omega arith)

skip_mv_predictor-standard_skip_example :
    skip_mv_predictor vectors 1 1 2 0 ≡ standard_skip vectors 1 1 2 0
skip_mv_predictor-standard_skip_example =
    skip_mv_predictor-standard_skip vectors 1 1 2 0 (omega arith) (omega arith)

mv_predictor-lone_corner_example :
    (mv_predictor vectors 0 1 2 1 ≡ (pos 0, pos 0))
    × (spec_mvp (left vectors 0 1 2 1) (top vectors 0 1 2 1) (corner vectors 0 1 2 1)
        ≡ get_or vectors 1 (pos 0, pos 0))
mv_predictor-lone_corner_example = mv_predictor-lone_corner vectors 2 (omega arith)

cavlc_write_mb_p16x16_header-Writes_example :
    Writes
      (cavlc_write_mb_p16x16_header (pos 3) (negsuc 4) 15 (negsuc 1))
      (p16x16_code (pos 3) (negsuc 4) 15 (negsuc 1))
cavlc_write_mb_p16x16_header-Writes_example =
    cavlc_write_mb_p16x16_header-Writes (pos 3) (negsuc 4) 15 (negsuc 1) (omega arith)

cavlc_write_mb_p16x16_header-read_example :
    (code : List Bool) × (Writes
        (cavlc_write_mb_p16x16_header (pos 3) (negsuc 4) 15 (negsuc 1))
        code
      × ((rest : List Bool)
          → read_p16x16 (code ++ rest)
            ≡ some (pos 3, negsuc 4, 15, (if ltb 0 15 then negsuc 1 else pos 0), rest)))
cavlc_write_mb_p16x16_header-read_example =
    cavlc_write_mb_p16x16_header-read (pos 3) (negsuc 4) 15 (negsuc 1) (omega arith) (omega arith)
      (omega arith) (omega arith)

dc_level : quantize_dc_luma (negsuc 99) 20 ≡ negsuc 1
unfolding quantize_dc_luma ◌-ℤ◌
dc_level = refl
