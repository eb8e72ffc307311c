-- ===== src/Encoder.antt =====
-- The settings of an H.264 encoder and the framing of its output, from
-- approach1-compute-encoder/src/encoder_h264.c. Tests for a null encoder and diagnostics are left out.
pub mod Settings
pub mod Filler
use bc250_vulkan_encode_stop.Base.{
  ℕ, zero, suc, ◌+◌, ◌-◌, ◌*◌, ◌/◌, ◌%◌, ◌^◌, Bool, true, false, ◌&&◌, ◌||◌, not, List, [], ◌∷◌,
  ◌++◌, Option, none, some, ltb, leb, ◌==◌, if◌then◌else◌, take, drop, set, length,
}
use bc250_vulkan_encode_stop.Base.Int.{ℤ, pos, negsuc, ltb_ℤ, ◌-ℤ◌, ◌+ℤ◌}
use bc250_vulkan_encode_stop.Bitstream.{Bitstream, bs_bytes_written}
use bc250_vulkan_encode_stop.Nal.{filler_stream}
use bc250_vulkan_encode_stop.ParameterSets.{H264Sps, H264Pps}
use bc250_vulkan_encode_stop.RateControl.{
  Doubles, RateControl, Mode, rc_cbr, rc_vbr, rc_low_latency, rc_cqp, at_least, at_most, half,
  rc_init, rc_set_quality_level, rc_set_max_frame_size,
}

-- The fields of `h264_encoder_t` that the settings and the framing touch.
pub record Encoder (D : Type 0) : Type 0 where
  pub width : ℕ
  pub height : ℕ
  pub fps : ℕ
  pub gop_size : ℕ
  pub force_idr : Bool
  pub sps : H264Sps
  pub pps : H264Pps
  pub rc : RateControl D
  pub cbr_intent : Bool
  pub qp_hint_applied : ℤ
  pub num_slices : ℤ
  pub quality_level : ℕ
  pub max_frame_bits : ℕ
  pub output_buf : List ℕ
  pub output_buf_size : ℕ

-- The value that `atoi` gives for BC250_FORCE_QP; `none` without the variable.
unfoldable pub apply_qp_override : Option ℤ → ℤ → ℤ
apply_qp_override none qp = qp
apply_qp_override (some forced) qp =
    if not (ltb_ℤ forced (pos 0)) && not (ltb_ℤ (pos 51) forced) then forced else qp

-- The access unit delimiter, at the start of `buf`, and its length.
unfoldable pub write_aud : List ℕ → ℕ → Bool → List ℕ × ℕ
write_aud buf buf_size is_idr =
    if ltb buf_size 6
    then (buf, 0)
    else (0x00 ∷ 0x00 ∷ 0x00 ∷ 0x01 ∷ 0x09 ∷ (if is_idr then 0x10 else 0x30) ∷ drop 6 buf, 6)

-- Whether a mode is padded: RC_CBR or RC_LOW_LATENCY.
unfoldable pub is_padded : Mode → Bool
is_padded rc_cbr = true
is_padded rc_low_latency = true
is_padded rc_vbr = false
is_padded rc_cqp = false

unfoldable pub set_buffer_mode : Mode → ℕ → ℕ → ℤ → ℤ
set_buffer_mode rc_low_latency target_bits target_bitrate size = pos (target_bits * 2 % 2 ^ 32)
set_buffer_mode rc_cbr target_bits target_bitrate size = pos target_bitrate
set_buffer_mode rc_vbr target_bits target_bitrate size = pos target_bitrate
set_buffer_mode rc_cqp target_bits target_bitrate size = size

unfoldable pub same_ℤ : ℤ → ℤ → Bool
same_ℤ a b = not (ltb_ℤ a b) && not (ltb_ℤ b a)

module _ {D : Type 0} where
  unfoldable pub target_bytes : Encoder D → ℕ
  target_bytes encoder = (encoder.rc.target_bits_per_frame + 7) % 2 ^ 32 / 8

  -- The output buffer and the number of its bytes in use.
  unfoldable pub maybe_append_filler : Encoder D → ℕ → List ℕ × ℕ
  unfolding target_bytes is_padded
  maybe_append_filler encoder total_written =
      let target = target_bytes encoder in
      let shortfall = target - total_written in
      let filler =
        filler_stream (drop total_written encoder.output_buf)
          (encoder.output_buf_size - total_written) (shortfall - 6) in
      if not encoder.cbr_intent || not (is_padded encoder.rc.mode)
      then (encoder.output_buf, total_written)
      else if leb target total_written
      then (encoder.output_buf, total_written)
      else if ltb shortfall 6
      then (encoder.output_buf, total_written)
      else if ltb encoder.output_buf_size (total_written + shortfall)
      then (encoder.output_buf, total_written)
      else (
        take total_written encoder.output_buf ++ filler.buffer,
        total_written + bs_bytes_written filler,
      )

  unfoldable pub h264_encoder_force_idr : Encoder D → Encoder D
  h264_encoder_force_idr encoder = record encoder { force_idr = true }

  unfoldable pub h264_encoder_set_cbr_intent : Encoder D → Bool → Encoder D
  h264_encoder_set_cbr_intent encoder cbr_intent = record encoder { cbr_intent = cbr_intent }

  unfoldable pub h264_encoder_set_gop_size : Encoder D → ℕ → Encoder D
  h264_encoder_set_gop_size encoder gop_size =
      if ltb 0 gop_size then record encoder { gop_size = gop_size } else encoder

  unfoldable pub h264_encoder_set_cropping : Encoder D → ℤ → ℕ → ℕ → ℕ → ℕ → Encoder D
  unfolding same_ℤ
  h264_encoder_set_cropping encoder enable left right top bottom =
      let on = not (same_ℤ enable (pos 0)) in
      let sps = encoder.sps in
      record encoder {
        sps = record sps {
          frame_cropping = on;
          crop_left = if on then left else 0;
          crop_right = if on then right else 0;
          crop_top = if on then top else 0;
          crop_bottom = if on then bottom else 0;
        };
      }

  unfoldable pub h264_encoder_set_num_slices : Encoder D → ℤ → Encoder D
  h264_encoder_set_num_slices encoder num_slices =
      if not (ltb_ℤ num_slices (pos 1)) && not (ltb_ℤ (pos 16) num_slices)
      then record encoder { num_slices = num_slices }
      else encoder

  unfoldable pub h264_encoder_set_rc_mode : Encoder D → Mode → Encoder D
  unfolding set_buffer_mode at_least half
  h264_encoder_set_rc_mode encoder mode =
      let rc = encoder.rc in
      let size =
        at_least (pos 1000)
          (set_buffer_mode mode rc.target_bits_per_frame rc.target_bitrate rc.buffer_size) in
      record encoder {
        rc = record rc {
          mode = mode;
          buffer_size = size;
          buffer_fullness = half size;
          error_integral = pos 0;
        };
      }

  unfoldable pub h264_encoder_set_qp : Encoder D → ℤ → Encoder D
  unfolding at_least at_most same_ℤ
  h264_encoder_set_qp encoder qp =
      let clamped = at_most (pos 51) (at_least (pos 0) qp) in
      let rc = encoder.rc in
      let pps = encoder.pps in
      let hinted = if same_ℤ clamped encoder.qp_hint_applied then encoder else record encoder {
        rc = record rc { base_qp = clamped; current_qp = clamped };
        qp_hint_applied = clamped;
      } in
      record hinted { pps = record pps { pic_init_qp = clamped -ℤ pos 26 } }

module _ {D : Type 0} (d : Doubles D) where
  unfoldable pub h264_encoder_set_bitrate : Encoder D → ℕ → Encoder D
  unfolding rc_init
  h264_encoder_set_bitrate encoder bitrate_bps =
      let rc = encoder.rc in
      if ltb 0 bitrate_bps && not (bitrate_bps == rc.target_bitrate)
      then record encoder {
        rc =
            rc_init d rc rc.mode bitrate_bps (d.of_ℤ (pos encoder.fps)) encoder.width
              encoder.height;
      }
      else encoder

  unfoldable pub h264_encoder_set_fps : Encoder D → ℕ → Encoder D
  unfolding rc_init
  h264_encoder_set_fps encoder fps =
      let rc = encoder.rc in
      if ltb 0 fps && not (fps == encoder.fps)
      then record encoder {
        fps = fps;
        rc = rc_init d rc rc.mode rc.target_bitrate (d.of_ℤ (pos fps)) encoder.width encoder.height;
      }
      else encoder

  unfoldable pub h264_encoder_set_quality_level : Encoder D → ℕ → Encoder D
  unfolding rc_set_quality_level
  h264_encoder_set_quality_level encoder quality_level =
      let low = if ltb quality_level 1 then 1 else quality_level in
      let level = if ltb 7 low then 7 else low in
      record encoder { quality_level = level; rc = rc_set_quality_level d encoder.rc level }

  unfoldable pub h264_encoder_set_max_frame_size : Encoder D → ℕ → Encoder D
  unfolding rc_set_max_frame_size
  h264_encoder_set_max_frame_size encoder max_frame_bits = record encoder {
    max_frame_bits = max_frame_bits;
    rc = rc_set_max_frame_size d encoder.rc max_frame_bits;
  }
