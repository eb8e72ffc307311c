-- ===== src/ParameterSets.antt =====
-- The H.264 parameter sets of approach1-compute-encoder/src/bitstream.h and bitstream.c: `h264_sps_t`,
-- `h264_pps_t`, `bs_write_sps`, `bs_write_pps`, `h264_sps_default`, `h264_pps_default`.
-- The local array `rbsp[1024]` is not initialised in C: its bytes are the argument `rbsp`.
pub mod Elements
pub mod Codes
pub mod Units
pub mod Cropping
use bc250_vulkan_encode_stop.Base.{
  ℕ, ◌+◌, ◌-◌, ◌*◌, ◌/◌, ◌%◌, ◌^◌, Bool, true, false, not, ◌||◌, List, [], ◌++◌, leb, ◌==◌,
  if◌then◌else◌, take,
}
use bc250_vulkan_encode_stop.Base.Int.{ℤ, pos, ◌-ℤ◌}
use bc250_vulkan_encode_stop.Bitstream.{
  Bitstream, Writer, ◌▸◌, bs_init, bs_write_u, bs_write1, bs_write_ue, bs_write_se,
  bs_rbsp_trailing_bits, bs_bytes_written,
}
use bc250_vulkan_encode_stop.Nal.{
  nal_header_writer, bs_rbsp_to_ebsp, nal_ref_idc_high, nal_type_sps, nal_type_pps,
}

abbrev pub profile_high : ℕ
profile_high = 100

pub record H264Sps : Type 0 where
  pub profile_idc : ℕ
  pub level_idc : ℕ
  pub sps_id : ℕ
  pub chroma_format_idc : ℕ
  pub bit_depth_luma : ℕ
  pub bit_depth_chroma : ℕ
  pub log2_max_frame_num : ℕ
  pub pic_order_cnt_type : ℕ
  pub log2_max_poc_lsb : ℕ
  pub max_num_ref_frames : ℕ
  pub pic_width_in_mbs : ℕ
  pub pic_height_in_mbs : ℕ
  pub frame_mbs_only : Bool
  pub direct_8x8_inference : Bool
  pub frame_cropping : Bool
  pub crop_left : ℕ
  pub crop_right : ℕ
  pub crop_top : ℕ
  pub crop_bottom : ℕ
  pub vui_present : Bool
  pub sar_width : ℕ
  pub sar_height : ℕ
  pub timing_info_present : Bool
  pub num_units_in_tick : ℕ
  pub time_scale : ℕ

pub record H264Pps : Type 0 where
  pub pps_id : ℕ
  pub sps_id : ℕ
  pub entropy_coding_mode : Bool
  pub pic_order_present : Bool
  pub num_ref_idx_l0_default : ℕ
  pub num_ref_idx_l1_default : ℕ
  pub weighted_pred : Bool
  pub weighted_bipred_idc : ℕ
  pub pic_init_qp : ℤ
  pub chroma_qp_offset : ℤ
  pub second_chroma_qp_offset : ℤ
  pub deblocking_filter_control : Bool
  pub constrained_intra_pred : Bool
  pub transform_8x8_mode : Bool

-- `if (b) { f }`, and `b ? 1 : 0`.
abbrev pub when : Bool → Writer → Writer
when b f = if b then f else (λ s. s)

abbrev pub flag : Bool → ℕ
flag b = if b then 1 else 0

-- Subtraction in uint32_t.
abbrev pub sub32 : ℕ → ℕ → ℕ
sub32 a b = (a + 2 ^ 32 - b) % 2 ^ 32

unfoldable pub sps_vui_writer : H264Sps → Writer
sps_vui_writer sps =
    bs_write1 1
    ▸ bs_write_u 8 255
    ▸ bs_write_u 16 sps.sar_width
    ▸ bs_write_u 16 sps.sar_height
    ▸ bs_write1 0
    ▸ bs_write1 0
    ▸ bs_write1 0
    ▸ bs_write1 (flag sps.timing_info_present)
    ▸ when sps.timing_info_present
        (bs_write_u 32 sps.num_units_in_tick ▸ bs_write_u 32 sps.time_scale ▸ bs_write1 0)
    ▸ bs_write1 0
    ▸ bs_write1 0
    ▸ bs_write1 0
    ▸ bs_write1 0

unfoldable pub sps_writer : H264Sps → Writer
unfolding sps_vui_writer
sps_writer sps =
    bs_write_u 8 sps.profile_idc
    ▸ bs_write1 0
    ▸ bs_write1 0
    ▸ bs_write1 0
    ▸ bs_write1 0
    ▸ bs_write1 0
    ▸ bs_write1 0
    ▸ bs_write_u 2 0
    ▸ bs_write_u 8 sps.level_idc
    ▸ bs_write_ue sps.sps_id
    ▸ when (sps.profile_idc == profile_high) (
        bs_write_ue sps.chroma_format_idc
        ▸ bs_write_ue (sub32 sps.bit_depth_luma 8)
        ▸ bs_write_ue (sub32 sps.bit_depth_chroma 8)
        ▸ bs_write1 0
        ▸ bs_write1 0)
    ▸ bs_write_ue sps.log2_max_frame_num
    ▸ bs_write_ue sps.pic_order_cnt_type
    ▸ when (sps.pic_order_cnt_type == 0) (bs_write_ue sps.log2_max_poc_lsb)
    ▸ bs_write_ue sps.max_num_ref_frames
    ▸ bs_write1 0
    ▸ bs_write_ue (sub32 sps.pic_width_in_mbs 1)
    ▸ bs_write_ue (sub32 sps.pic_height_in_mbs 1)
    ▸ bs_write1 (flag sps.frame_mbs_only)
    ▸ when (not sps.frame_mbs_only) (bs_write1 0)
    ▸ bs_write1 (flag sps.direct_8x8_inference)
    ▸ bs_write1 (flag sps.frame_cropping)
    ▸ when sps.frame_cropping (
        bs_write_ue sps.crop_left
        ▸ bs_write_ue sps.crop_right
        ▸ bs_write_ue sps.crop_top
        ▸ bs_write_ue sps.crop_bottom)
    ▸ bs_write1 (flag sps.vui_present)
    ▸ when sps.vui_present (sps_vui_writer sps)

unfoldable pub pps_writer : H264Pps → Writer
pps_writer pps =
    bs_write_ue pps.pps_id
    ▸ bs_write_ue pps.sps_id
    ▸ bs_write1 (flag pps.entropy_coding_mode)
    ▸ bs_write1 (flag pps.pic_order_present)
    ▸ bs_write_ue 0
    ▸ bs_write_ue pps.num_ref_idx_l0_default
    ▸ bs_write_ue pps.num_ref_idx_l1_default
    ▸ bs_write1 (flag pps.weighted_pred)
    ▸ bs_write_u 2 pps.weighted_bipred_idc
    ▸ bs_write_se pps.pic_init_qp
    ▸ bs_write_se (pos 0)
    ▸ bs_write_se pps.chroma_qp_offset
    ▸ bs_write1 (flag pps.deblocking_filter_control)
    ▸ bs_write1 (flag pps.constrained_intra_pred)
    ▸ bs_write1 0
    ▸ when pps.transform_8x8_mode
        (bs_write1 1 ▸ bs_write1 0 ▸ bs_write_se pps.second_chroma_qp_offset)

-- The end of both functions: the NAL header in `buf`, and the escaped payload behind it. The result is
-- the bytes that the returned size counts.
unfoldable pub write_unit : ℕ → Bitstream → List ℕ → ℕ → List ℕ
write_unit nal_type bs buf buf_size =
    let out_bs = nal_header_writer nal_ref_idc_high nal_type (bs_init buf buf_size) in
    let payload_offset = bs_bytes_written out_bs in
    if leb buf_size payload_offset
    then []
    else take payload_offset out_bs.buffer
      ++ bs_rbsp_to_ebsp (buf_size - payload_offset) (take (bs_bytes_written bs) bs.buffer)

unfoldable pub bs_write_sps : List ℕ → List ℕ → ℕ → H264Sps → List ℕ
unfolding sps_writer write_unit
bs_write_sps rbsp buf buf_size sps =
    write_unit nal_type_sps ((sps_writer sps ▸ bs_rbsp_trailing_bits) (bs_init rbsp 1024)) buf
      buf_size

unfoldable pub bs_write_pps : List ℕ → List ℕ → ℕ → H264Pps → List ℕ
unfolding pps_writer write_unit
bs_write_pps rbsp buf buf_size pps =
    write_unit nal_type_pps ((pps_writer pps ▸ bs_rbsp_trailing_bits) (bs_init rbsp 1024)) buf
      buf_size

unfoldable pub mbs : ℕ → ℕ
mbs pixels = (pixels + 15) % 2 ^ 32 / 16

unfoldable pub h264_sps_default : ℕ → ℕ → ℕ → ℕ → H264Sps
unfolding mbs
h264_sps_default width height fps profile = record {
  profile_idc = profile;
  level_idc = 40;
  sps_id = 0;
  chroma_format_idc = 1;
  bit_depth_luma = 8;
  bit_depth_chroma = 8;
  log2_max_frame_num = 4;
  pic_order_cnt_type = 0;
  log2_max_poc_lsb = 4;
  max_num_ref_frames = 1;
  pic_width_in_mbs = mbs width;
  pic_height_in_mbs = mbs height;
  frame_mbs_only = true;
  direct_8x8_inference = true;
  frame_cropping = not (width % 16 == 0) || not (height % 16 == 0);
  crop_left = 0;
  crop_right = sub32 (mbs width * 16 % 2 ^ 32) width / 2;
  crop_top = 0;
  crop_bottom = sub32 (mbs height * 16 % 2 ^ 32) height / 2;
  vui_present = true;
  sar_width = 1;
  sar_height = 1;
  timing_info_present = true;
  num_units_in_tick = 1;
  time_scale = fps * 2 % 2 ^ 32;
}

-- `pic_init_qp` is an int8_t: `qp` is a QP, so that `qp - 26` fits.
unfoldable pub h264_pps_default : ℕ → Bool → ℤ → H264Pps
h264_pps_default sps_id cabac qp = record {
  pps_id = 0;
  sps_id = sps_id;
  entropy_coding_mode = cabac;
  pic_order_present = false;
  num_ref_idx_l0_default = 0;
  num_ref_idx_l1_default = 0;
  weighted_pred = false;
  weighted_bipred_idc = 0;
  pic_init_qp = qp -ℤ pos 26;
  chroma_qp_offset = pos 0;
  second_chroma_qp_offset = pos 0;
  deblocking_filter_control = true;
  constrained_intra_pred = false;
  transform_8x8_mode = false;
}
