-- ===== src/ParameterSets/Codes.antt =====
-- The payloads of the parameter sets as the syntax tables 7.3.2.1.1, 7.3.2.2 and E.1.1 of H.264 list
-- them, and that the writers write them.
use bc250_vulkan_encode_stop.Base.{
  ℕ, ◌+◌, ◌*◌, ◌^◌, ◌≤◌, ◌<◌, Bool, true, false, not, List, [], ◌∷◌, ◌++◌, arith, length, ◌==◌,
  if◌then◌else◌, length-append,
}
use bc250_vulkan_encode_stop.Base.Int.{pos}
use bc250_vulkan_encode_stop.Bitstream.{bs_write1}
use bc250_vulkan_encode_stop.Bitstream.Writes.{Writes, Writes-seq}
use bc250_vulkan_encode_stop.ParameterSets.{
  H264Sps, H264Pps, flag, sub32, profile_high, sps_vui_writer, sps_writer, pps_writer,
}
use bc250_vulkan_encode_stop.ParameterSets.Elements.{
  AllElements, Element, u, ue, se, elements_code, Writes-elements, Writes-when,
  length-elements_code,
}

-- The fields have the widths of their C types.
pub record IsSps (sps : H264Sps) : Type 0 where
  pub profile_idc : sps.profile_idc < 2 ^ 8
  pub level_idc : sps.level_idc < 2 ^ 8
  pub sps_id : sps.sps_id < 2 ^ 8
  pub chroma_format_idc : sps.chroma_format_idc < 2 ^ 8
  pub log2_max_frame_num : sps.log2_max_frame_num < 2 ^ 8
  pub pic_order_cnt_type : sps.pic_order_cnt_type < 2 ^ 8
  pub log2_max_poc_lsb : sps.log2_max_poc_lsb < 2 ^ 8
  pub max_num_ref_frames : sps.max_num_ref_frames < 2 ^ 32
  pub crop_left : sps.crop_left < 2 ^ 32
  pub crop_right : sps.crop_right < 2 ^ 32
  pub crop_top : sps.crop_top < 2 ^ 32
  pub crop_bottom : sps.crop_bottom < 2 ^ 32
  pub sar_width : sps.sar_width < 2 ^ 32
  pub sar_height : sps.sar_height < 2 ^ 32
  pub num_units_in_tick : sps.num_units_in_tick < 2 ^ 32
  pub time_scale : sps.time_scale < 2 ^ 32

abbrev bit : Bool → Element
bit b = u 1 (flag b)

abbrev off : Element
off = u 1 0

-- A code of at most `n` syntax elements, which take 65 bits at most.
record IsShort (code : List Bool) (n : ℕ) : Type 0 where
  at_most : length code ≤ 65 * n

elements-IsShort : (es : List Element) → AllElements es → IsShort (elements_code es) (length es)
elements-IsShort es h = record { at_most = length-elements_code es h }

append-IsShort : {a b : List Bool} {n m : ℕ} → IsShort a n → IsShort b m → IsShort (a ++ b) (n + m)
append-IsShort {a} {b} h k = record {
  at_most = omega (arith, length-append a b, h.at_most, k.at_most);
}

if-IsShort : (t : Bool) {a : List Bool} {n : ℕ} → IsShort a n → IsShort (if t then a else []) n
if-IsShort true h = h
if-IsShort false h = record { at_most = omega arith }

module _ (sps : H264Sps) where
  abbrev sps_head : List Element
  sps_head =
      u 8 sps.profile_idc
      ∷ off
      ∷ off
      ∷ off
      ∷ off
      ∷ off
      ∷ off
      ∷ u 2 0
      ∷ u 8 sps.level_idc
      ∷ ue sps.sps_id
      ∷ []

  abbrev sps_high : List Element
  sps_high =
      ue sps.chroma_format_idc
      ∷ ue (sub32 sps.bit_depth_luma 8)
      ∷ ue (sub32 sps.bit_depth_chroma 8)
      ∷ off
      ∷ off
      ∷ []

  abbrev sps_frame_num : List Element
  sps_frame_num = ue sps.log2_max_frame_num ∷ ue sps.pic_order_cnt_type ∷ []

  abbrev sps_size : List Element
  sps_size =
      ue sps.max_num_ref_frames
      ∷ off
      ∷ ue (sub32 sps.pic_width_in_mbs 1)
      ∷ ue (sub32 sps.pic_height_in_mbs 1)
      ∷ bit sps.frame_mbs_only
      ∷ []

  abbrev sps_flags : List Element
  sps_flags = bit sps.direct_8x8_inference ∷ bit sps.frame_cropping ∷ []

  abbrev sps_crop : List Element
  sps_crop = ue sps.crop_left ∷ ue sps.crop_right ∷ ue sps.crop_top ∷ ue sps.crop_bottom ∷ []

  abbrev vui_head : List Element
  vui_head =
      u 1 1
      ∷ u 8 255
      ∷ u 16 sps.sar_width
      ∷ u 16 sps.sar_height
      ∷ off
      ∷ off
      ∷ off
      ∷ bit sps.timing_info_present
      ∷ []

  abbrev vui_timing : List Element
  vui_timing = u 32 sps.num_units_in_tick ∷ u 32 sps.time_scale ∷ off ∷ []

  unfoldable pub vui_code : List Bool
  vui_code =
      elements_code vui_head
      ++ ((if sps.timing_info_present then elements_code vui_timing else [])
          ++ elements_code (off ∷ off ∷ off ∷ off ∷ []))

  unfoldable pub sps_code : List Bool
  unfolding vui_code
  sps_code =
      elements_code sps_head
      ++ ((if sps.profile_idc == profile_high then elements_code sps_high else [])
          ++ (elements_code sps_frame_num
              ++ ((if sps.pic_order_cnt_type == 0
                    then elements_code (ue sps.log2_max_poc_lsb ∷ [])
                    else [])
                  ++ (elements_code sps_size
                      ++ ((if not sps.frame_mbs_only then elements_code (off ∷ []) else [])
                          ++ (elements_code sps_flags
                              ++ ((if sps.frame_cropping then elements_code sps_crop else [])
                                  ++ (elements_code (bit sps.vui_present ∷ [])
                                      ++ (if sps.vui_present then vui_code else [])))))))))

  vui-Writes : IsSps sps → Writes (sps_vui_writer sps) vui_code
  unfolding sps_vui_writer vui_code bs_write1
  vui-Writes h = Writes-seq (Writes-elements vui_head (ground arith)) (
      Writes-seq (Writes-when sps.timing_info_present (Writes-elements vui_timing (omega arith)))
        (Writes-elements (off ∷ off ∷ off ∷ off ∷ []) (omega arith)))

  pub sps_writer-Writes : IsSps sps → Writes (sps_writer sps) sps_code
  unfolding sps_writer sps_code bs_write1
  sps_writer-Writes h = Writes-seq (Writes-elements sps_head (omega arith)) (
      Writes-seq
        (Writes-when (sps.profile_idc == profile_high) (Writes-elements sps_high (omega arith)))
        (Writes-seq (Writes-elements sps_frame_num (omega arith)) (
          Writes-seq
            (Writes-when (sps.pic_order_cnt_type == 0)
              (Writes-elements (ue sps.log2_max_poc_lsb ∷ []) (omega arith)))
            (Writes-seq (Writes-elements sps_size (ground arith)) (
              Writes-seq
                (Writes-when (not sps.frame_mbs_only) (Writes-elements (off ∷ []) (omega arith)))
                (Writes-seq (Writes-elements sps_flags (ground arith)) (
                  Writes-seq
                    (Writes-when sps.frame_cropping (Writes-elements sps_crop (omega arith)))
                    (Writes-seq (Writes-elements (bit sps.vui_present ∷ []) (ground arith))
                      (Writes-when sps.vui_present (vui-Writes h))))))))))

  vui_code-IsShort : IsSps sps → IsShort vui_code 15
  unfolding vui_code
  vui_code-IsShort h = append-IsShort (elements-IsShort vui_head (ground arith)) (
      append-IsShort
        (if-IsShort sps.timing_info_present (elements-IsShort vui_timing (omega arith)))
        (elements-IsShort (off ∷ off ∷ off ∷ off ∷ []) (omega arith)))

  sps_code-IsShort : IsSps sps → IsShort sps_code 46
  unfolding sps_code
  sps_code-IsShort h = append-IsShort (elements-IsShort sps_head (omega arith)) (
      append-IsShort
        (if-IsShort (sps.profile_idc == profile_high) (elements-IsShort sps_high (omega arith)))
        (append-IsShort (elements-IsShort sps_frame_num (omega arith)) (
          append-IsShort
            (if-IsShort (sps.pic_order_cnt_type == 0)
              (elements-IsShort (ue sps.log2_max_poc_lsb ∷ []) (omega arith)))
            (append-IsShort (elements-IsShort sps_size (ground arith)) (
              append-IsShort
                (if-IsShort (not sps.frame_mbs_only) (elements-IsShort (off ∷ []) (omega arith)))
                (append-IsShort (elements-IsShort sps_flags (ground arith)) (
                  append-IsShort
                    (if-IsShort sps.frame_cropping (elements-IsShort sps_crop (omega arith)))
                    (append-IsShort (elements-IsShort (bit sps.vui_present ∷ []) (ground arith))
                      (if-IsShort sps.vui_present (vui_code-IsShort h))))))))))

  -- The payload is far below the 1024 bytes of the array `rbsp`.
  pub length-sps_code : IsSps sps → length sps_code ≤ 65 * 46
  length-sps_code h = (sps_code-IsShort h).at_most

pub record IsPps (pps : H264Pps) : Type 0 where
  pub pps_id : pps.pps_id < 2 ^ 8
  pub sps_id : pps.sps_id < 2 ^ 8
  pub num_ref_idx_l0_default : pps.num_ref_idx_l0_default < 2 ^ 8
  pub num_ref_idx_l1_default : pps.num_ref_idx_l1_default < 2 ^ 8
  pub weighted_bipred_idc : pps.weighted_bipred_idc < 2 ^ 8

module _ (pps : H264Pps) where
  abbrev pps_head : List Element
  pps_head =
      ue pps.pps_id
      ∷ ue pps.sps_id
      ∷ bit pps.entropy_coding_mode
      ∷ bit pps.pic_order_present
      ∷ ue 0
      ∷ ue pps.num_ref_idx_l0_default
      ∷ ue pps.num_ref_idx_l1_default
      ∷ bit pps.weighted_pred
      ∷ u 2 pps.weighted_bipred_idc
      ∷ se pps.pic_init_qp
      ∷ se (pos 0)
      ∷ se pps.chroma_qp_offset
      ∷ bit pps.deblocking_filter_control
      ∷ bit pps.constrained_intra_pred
      ∷ off
      ∷ []

  abbrev pps_high : List Element
  pps_high = u 1 1 ∷ off ∷ se pps.second_chroma_qp_offset ∷ []

  pps_head-AllElements : IsPps pps → AllElements pps_head
  pps_head-AllElements h = ground arith

  unfoldable pub pps_code : List Bool
  pps_code =
      elements_code pps_head ++ (if pps.transform_8x8_mode then elements_code pps_high else [])

  pub pps_writer-Writes : IsPps pps → Writes (pps_writer pps) pps_code
  unfolding pps_writer pps_code bs_write1
  pps_writer-Writes h =
      Writes-seq (Writes-elements pps_head (pps_head-AllElements h))
        (Writes-when pps.transform_8x8_mode (Writes-elements pps_high (omega arith)))

  pub length-pps_code : IsPps pps → length pps_code ≤ 65 * 18
  unfolding pps_code
  length-pps_code h = short.at_most
    where
      short : IsShort pps_code 18
      short =
          append-IsShort (elements-IsShort pps_head (pps_head-AllElements h))
            (if-IsShort pps.transform_8x8_mode (elements-IsShort pps_high (omega arith)))
