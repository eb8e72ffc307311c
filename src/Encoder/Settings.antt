-- ===== src/Encoder/Settings.antt =====
-- The setters of encoder_h264.c: hints that are sent again change nothing, and the controller's
-- invariant survives them.
use bc250_vulkan_encode_stop.Base.{ℕ, ◌≡◌, refl, some, sym, true, arith, if_split}
use bc250_vulkan_encode_stop.Base.Int.{ℤ, pos, ◌-ℤ◌, int_laws}
use bc250_vulkan_encode_stop.RateControl.{Doubles, RateControl, Mode, at_least, at_most, rc_init}
use bc250_vulkan_encode_stop.RateControl.Init.{Between, at_least-≤, half-Between, integral_cap-≤}
use bc250_vulkan_encode_stop.RateControl.Invariant.{IsController}
use bc250_vulkan_encode_stop.Encoder.{
  Encoder, same_ℤ, set_buffer_mode, h264_encoder_set_qp, h264_encoder_set_bitrate,
  h264_encoder_set_rc_mode, apply_qp_override,
}

same_ℤ_refl : (a : ℤ) → same_ℤ a a ≡ true
unfolding same_ℤ
same_ℤ_refl a = ground arith

same_ℤ-≡ : (a b : ℤ) → same_ℤ a b ≡ true → a ≡ b
unfolding same_ℤ
same_ℤ-≡ a b h = ground arith

-- A forced QP in 0..51 replaces the controller's; anything else leaves it.
pub apply_qp_override-Between :
    (forced qp : ℤ)
    → Between (pos 0) (pos 51) qp
    → Between (pos 0) (pos 51) (apply_qp_override (some forced) qp)
      × (Between (pos 0) (pos 51) forced → apply_qp_override (some forced) qp ≡ forced)
unfolding apply_qp_override
apply_qp_override-Between forced qp h = ground arith

module _ {D : Type 0} where
  unchanged_hint :
      (encoder : Encoder D) (qp : ℤ)
      → encoder.qp_hint_applied ≡ at_most (pos 51) (at_least (pos 0) qp)
      → encoder.pps.pic_init_qp ≡ at_most (pos 51) (at_least (pos 0) qp) -ℤ pos 26
      → h264_encoder_set_qp encoder qp ≡ encoder
  unfolding h264_encoder_set_qp
  unchanged_hint encoder qp h k =
      let clamped : ℤ = at_most (pos 51) (at_least (pos 0) qp) in
      let same : same_ℤ clamped encoder.qp_hint_applied ≡ true = rw h (same_ℤ_refl clamped) in
      simp (same, sym k) refl

  applied_hint :
      (encoder : Encoder D) (qp : ℤ)
      → (h264_encoder_set_qp encoder qp).qp_hint_applied ≡ at_most (pos 51) (at_least (pos 0) qp)
  unfolding h264_encoder_set_qp
  applied_hint encoder qp =
      let clamped : ℤ = at_most (pos 51) (at_least (pos 0) qp) in
      if_split (λ (e : Encoder D). e.qp_hint_applied ≡ clamped)
        (same_ℤ clamped encoder.qp_hint_applied)
        (λ e. sym (same_ℤ-≡ clamped encoder.qp_hint_applied e)) (λ e. refl)

  -- A QP hint that is sent again leaves the encoder alone, whatever the hint is and however the
  -- controller has moved on since.
  pub h264_encoder_set_qp-again :
      (encoder : Encoder D) (moved : RateControl D) (qp : ℤ)
      → let hinted = h264_encoder_set_qp encoder qp in
        h264_encoder_set_qp (record hinted { rc = moved }) qp ≡ record hinted { rc = moved }
  unfolding h264_encoder_set_qp
  h264_encoder_set_qp-again encoder moved qp =
      let hinted = h264_encoder_set_qp encoder qp in
      unchanged_hint (record hinted { rc = moved }) qp (applied_hint encoder qp) refl

module _ {D : Type 0} (d : Doubles D) where
  -- Setting the same bitrate a second time changes nothing.
  pub h264_encoder_set_bitrate-again :
      (encoder : Encoder D) (bitrate_bps : ℕ)
      → h264_encoder_set_bitrate d (h264_encoder_set_bitrate d encoder bitrate_bps) bitrate_bps
        ≡ h264_encoder_set_bitrate d encoder bitrate_bps
  unfolding h264_encoder_set_bitrate rc_init
  h264_encoder_set_bitrate-again encoder bitrate_bps = ground arith

  -- A change of the mode by h264_encoder_set_rc_mode keeps the invariant of the rate controller.
  pub h264_encoder_set_rc_mode-IsController :
      (encoder : Encoder D) (mode : Mode)
      → IsController d encoder.rc
      → IsController d (h264_encoder_set_rc_mode encoder mode).rc
  unfolding h264_encoder_set_rc_mode
  h264_encoder_set_rc_mode-IsController encoder mode h =
      let rc = encoder.rc in
      let size : ℤ =
        at_least (pos 1000)
          (set_buffer_mode mode rc.target_bits_per_frame rc.target_bitrate rc.buffer_size) in
      let big =
        at_least-≤ (pos 1000)
          (set_buffer_mode mode rc.target_bits_per_frame rc.target_bitrate rc.buffer_size) in
      record {
        lowest = h.lowest;
        highest = h.highest;
        qp = h.qp;
        size = big;
        fullness = half-Between size (omega arith);
        integral = let one = integral_cap-≤ d size in omega int_laws;
        quality = h.quality;
      }
