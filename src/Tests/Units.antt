-- ===== src/Tests/Units.antt =====
-- NAL units and parameter sets.
use bc250_vulkan_encode_stop.Base.{
  ◌+◌, ◌/◌, ◌≤◌, ◌<◌, ◌≡◌, refl, false, [], ◌∷◌, arith, length, replicate,
}
use bc250_vulkan_encode_stop.Base.Int.{pos}
use bc250_vulkan_encode_stop.Nal.{ebsp_loop, bs_rbsp_to_ebsp, ebsp_worst_case}
use bc250_vulkan_encode_stop.Nal.Emulation.{ebsp_to_rbsp, ebsp_to_rbsp-bs_rbsp_to_ebsp}
use bc250_vulkan_encode_stop.Nal.StartCode.{bs_rbsp_to_ebsp-no_start_code}
use bc250_vulkan_encode_stop.Nal.Capacity.{length-bs_rbsp_to_ebsp, ebsp_worst_case_too_small}
use bc250_vulkan_encode_stop.ParameterSets.{
  H264Sps, H264Pps, h264_sps_default, h264_pps_default, bs_write_sps,
}
use bc250_vulkan_encode_stop.ParameterSets.Codes.{IsPps, sps_code}
use bc250_vulkan_encode_stop.ParameterSets.Units.{IsNalUnit, bs_write_sps-IsNalUnit}
use bc250_vulkan_encode_stop.ParameterSets.Cropping.{
  shown_width, h264_sps_default-odd_width, h264_sps_default-IsSps,
}

six_zeros : bs_rbsp_to_ebsp 20 (0 ∷ 0 ∷ 0 ∷ 0 ∷ 0 ∷ 0 ∷ []) ≡ 0 ∷ 0 ∷ 3 ∷ 0 ∷ 0 ∷ 3 ∷ 0 ∷ 0 ∷ []
unfolding bs_rbsp_to_ebsp ebsp_loop
six_zeros = refl

ebsp_to_rbsp-bs_rbsp_to_ebsp_example :
    ebsp_to_rbsp (bs_rbsp_to_ebsp 6 (0 ∷ 0 ∷ 1 ∷ 3 ∷ [])) ≡ 0 ∷ 0 ∷ 1 ∷ 3 ∷ []
ebsp_to_rbsp-bs_rbsp_to_ebsp_example =
    ebsp_to_rbsp-bs_rbsp_to_ebsp 6 (0 ∷ 0 ∷ 1 ∷ 3 ∷ []) (omega arith)

bs_rbsp_to_ebsp-no_start_code_example : 3 ≤ 3
unfolding bs_rbsp_to_ebsp ebsp_loop
bs_rbsp_to_ebsp-no_start_code_example =
    bs_rbsp_to_ebsp-no_start_code 8 (0 ∷ 0 ∷ 1 ∷ []) [] 3 (1 ∷ []) refl

length-bs_rbsp_to_ebsp_example :
    (length (bs_rbsp_to_ebsp 4 (0 ∷ 0 ∷ 1 ∷ [])) ≤ 4)
    × (length (bs_rbsp_to_ebsp 4 (0 ∷ 0 ∷ 1 ∷ [])) ≤ 3 + 3 / 2)
length-bs_rbsp_to_ebsp_example = length-bs_rbsp_to_ebsp 4 (0 ∷ 0 ∷ 1 ∷ [])

ebsp_worst_case_too_small_example :
    length (ebsp_to_rbsp (bs_rbsp_to_ebsp (ebsp_worst_case 19) (replicate 19 0))) < 19
ebsp_worst_case_too_small_example = ebsp_worst_case_too_small 19 (omega arith)

h264_sps_default-odd_width_example : shown_width (h264_sps_default 1919 1080 60 100) ≡ 1919 + 1
h264_sps_default-odd_width_example = h264_sps_default-odd_width 1919 1080 60 100 (omega arith) refl

abbrev full_hd : H264Sps
full_hd = h264_sps_default 1920 1080 60 100

bs_write_sps-IsNalUnit_example :
    IsNalUnit 7 (sps_code full_hd) (bs_write_sps (replicate 1024 0) (replicate 600 0) 600 full_hd)
bs_write_sps-IsNalUnit_example =
    bs_write_sps-IsNalUnit (replicate 1024 0) (replicate 600 0) 600 full_hd
      (h264_sps_default-IsSps 1920 1080 60 100 (omega arith)) (omega arith) (omega arith)
      (omega arith)

abbrev cavlc_pps : H264Pps
cavlc_pps = h264_pps_default 0 false (pos 26)

cavlc_pps-IsPps : IsPps cavlc_pps
unfolding h264_pps_default
cavlc_pps-IsPps = omega arith
