-- ===== src/Tests/Controls.antt =====
-- The rate controller and the encoder's settings, with whole numbers for doubles.
use bc250_vulkan_encode_stop.Base.{
  ◌≡◌, ◌/◌, ◌-◌, refl, true, false, [], ◌∷◌, none, some, arith, replicate, take, drop,
}
use bc250_vulkan_encode_stop.Base.Int.{ℤ, pos, negsuc, pos_part, ltb_ℤ, ◌+ℤ◌, ◌-ℤ◌, ◌*ℤ◌}
use bc250_vulkan_encode_stop.Bitstream.Content.{bytes_bits}
use bc250_vulkan_encode_stop.Nal.Header.{filler_nal}
use bc250_vulkan_encode_stop.ParameterSets.{h264_sps_default, h264_pps_default}
use bc250_vulkan_encode_stop.RateControl.{
  Doubles, RateControl, Process, rc_cbr, is_cqp, rc_init, rc_get_frame_qp, max_step,
}
use bc250_vulkan_encode_stop.RateControl.Init.{Between}
use bc250_vulkan_encode_stop.RateControl.Invariant.{
  IsController, rc_init-IsController, rc_get_frame_qp-step,
}
use bc250_vulkan_encode_stop.RateControl.Reach.{start, then, frame, Reached-IsController}
use bc250_vulkan_encode_stop.Encoder.{
  Encoder, maybe_append_filler, target_bytes, is_padded, h264_encoder_set_qp,
}
use bc250_vulkan_encode_stop.Encoder.Filler.{
  Padded, maybe_append_filler-Padded, maybe_append_filler-reaches,
}

abbrev pub crude : Doubles ℤ
crude = record {
  of_ℤ = λ n. n;
  decimal = λ m n. pos (m / n);
  plus = λ a b. a +ℤ b;
  minus = λ a b. a -ℤ b;
  times = λ a b. a *ℤ b;
  over = λ a b. pos (pos_part a / pos_part b);
  log = λ a. a;
  less = λ a b. ltb_ℤ a b;
  less_eq = λ a b. ltb_ℤ a (b +ℤ pos 1);
  truncate = λ a. a;
  nearest = λ a. a;
}

abbrev blank : RateControl ℤ
blank = record {
  mode = rc_cbr;
  target_bitrate = 8000;
  max_bitrate = 12000;
  qp_min = pos 12;
  qp_max = pos 51;
  framerate = pos 10;
  target_bits_per_frame = 800;
  buffer_fullness = pos 4000;
  buffer_size = pos 8000;
  base_qp = pos 26;
  current_qp = pos 26;
  prev_frame_sad = 0;
  error_integral = pos 0;
  last_frame_ns = 0;
  measured_fps = pos 0;
  max_frame_bits = 0;
  quality_level = 4;
}

abbrev started : RateControl ℤ
started = rc_init crude blank rc_cbr 8000 (pos 10) 64 64

rc_get_frame_qp-step_example :
    ((rc_get_frame_qp crude started 9).0.current_qp ≡ (rc_get_frame_qp crude started 9).1)
    × Between (pos 12) (pos 51) (rc_get_frame_qp crude started 9).1
    × Between
        (started.current_qp -ℤ max_step crude started)
        (started.current_qp +ℤ max_step crude started)
        (rc_get_frame_qp crude started 9).1
    × Between (pos 2) (pos 3) (max_step crude started)
unfolding rc_init is_cqp
rc_get_frame_qp-step_example =
    rc_get_frame_qp-step crude started 9
      (rc_init-IsController crude blank rc_cbr 8000 (pos 10) 64 64) refl

Reached-IsController_example : IsController crude (rc_get_frame_qp crude started 9).0
Reached-IsController_example =
    Reached-IsController crude (then (start blank rc_cbr 8000 (pos 10) 64 64) (frame started 9))

abbrev ffmpeg : Process
ffmpeg = record { nominal_drain = none; wallclock_drain = none; short_name = some (102 ∷ 102 ∷ []) }

abbrev encoder : Encoder ℤ
encoder = record {
  width = 64;
  height = 64;
  fps = 10;
  gop_size = 30;
  force_idr = false;
  sps = h264_sps_default 64 64 10 100;
  pps = h264_pps_default 0 false (pos 26);
  rc = blank;
  cbr_intent = true;
  qp_hint_applied = negsuc 0;
  num_slices = pos 1;
  quality_level = 4;
  max_frame_bits = 0;
  output_buf = replicate 120 0;
  output_buf_size = 120;
}

maybe_append_filler-Padded_example : Padded encoder 10 (maybe_append_filler encoder 10)
maybe_append_filler-Padded_example =
    maybe_append_filler-Padded encoder 10 (omega arith) (omega arith)

maybe_append_filler-reaches_example :
    ((maybe_append_filler encoder 10).1 ≡ target_bytes encoder)
    × (bytes_bits (take (target_bytes encoder - 10) (drop 10 (maybe_append_filler encoder 10).0))
        ≡ bytes_bits (filler_nal (target_bytes encoder - 10 - 6)))
unfolding target_bytes is_padded
maybe_append_filler-reaches_example =
    maybe_append_filler-reaches encoder 10 (omega arith) refl refl (omega arith) (omega arith)

abbrev hinted : Encoder ℤ
hinted = h264_encoder_set_qp encoder (pos 30)
