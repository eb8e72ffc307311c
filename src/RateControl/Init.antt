-- ===== src/RateControl/Init.antt =====
-- The clamps of rate_control.c, and the bounds of its estimate and its buffers.
use bc250_vulkan_encode_stop.Base.{ℕ, ◌*◌, ◌%◌, ◌^◌, Bool, true, false, arith, if◌then◌else◌}
use bc250_vulkan_encode_stop.Base.Int.{ℤ, pos, negsuc, ◌+ℤ◌, ◌-ℤ◌, ◌≤ℤ◌, int_laws}
use bc250_vulkan_encode_stop.RateControl.{
  Doubles, Mode, at_least, at_most, half, target_level, integral_cap, initial_buffer,
  bounded_fullness, rc_estimate_base_qp, qp_of_bpp, whole, is_low_latency, positive_or_60,
}

-- Both ends of a range.
abbrev pub Between : ℤ → ℤ → ℤ → Type 0
Between low high x = (low ≤ℤ x) × (x ≤ℤ high)

pub at_least-≤ : (low x : ℤ) → low ≤ℤ at_least low x
unfolding at_least
at_least-≤ low x = ground arith

pub clamp-Between :
    (low high x : ℤ) → low ≤ℤ high → Between low high (at_most high (at_least low x))
unfolding at_least at_most
clamp-Between low high x h = ground arith

pub clamp_below-Between :
    (low high x : ℤ) → low ≤ℤ high → Between low high (at_least low (at_most high x))
unfolding at_least at_most
clamp_below-Between low high x h = ground arith

pub half-Between : (n : ℤ) → pos 0 ≤ℤ n → Between (pos 0) n (half n)
unfolding half
half-Between (pos n) h = omega arith
half-Between (negsuc n) h = omega arith

if-Between :
    (low high : ℤ) (b : Bool) (x y : ℤ)
    → Between low high x
    → Between low high y
    → Between low high (if b then x else y)
if-Between low high true x y h k = h
if-Between low high false x y h k = k

-- A clamp to a range keeps what holds another range's ends, where the two ranges meet.
clamp-keeps :
    (low high bottom top x : ℤ)
    → low ≤ℤ top
    → bottom ≤ℤ high
    → Between bottom top x
    → Between bottom top (at_most high (at_least low x))
unfolding at_least at_most
clamp-keeps low high bottom top x h k b = ground arith

shift-Between :
    (qp step delta : ℤ)
    → Between (pos 0 -ℤ step) step delta
    → Between (qp -ℤ step) (qp +ℤ step) (qp +ℤ delta)
shift-Between qp step delta b = omega int_laws

-- A step that is clamped to `step` and then to the range moves a QP of the range by at most `step`.
pub step-Between :
    (low high step wanted qp : ℤ)
    → pos 0 ≤ℤ step
    → Between low high qp
    → Between
        (qp -ℤ step)
        (qp +ℤ step)
        (at_most high (at_least low (qp +ℤ at_least (pos 0 -ℤ step) (at_most step wanted))))
step-Between low high step wanted qp h b =
    clamp-keeps low high (qp -ℤ step) (qp +ℤ step)
      (qp +ℤ at_least (pos 0 -ℤ step) (at_most step wanted)) (omega int_laws) (omega int_laws)
      (shift-Between qp step (at_least (pos 0 -ℤ step) (at_most step wanted))
        (clamp_below-Between (pos 0 -ℤ step) step wanted (omega int_laws)))

module _ {D : Type 0} (d : Doubles D) where
  qp_of_bpp-Between : (bpp : D) → Between (pos 12) (pos 51) (qp_of_bpp d bpp)
  unfolding qp_of_bpp
  qp_of_bpp-Between bpp =
      let doublings = d.over (d.log (d.over bpp (d.decimal 36169 1000000))) (d.log (whole d 2)) in
      if-Between (pos 12) (pos 51) (d.less_eq bpp (whole d 0)) (pos 51)
        (at_most (pos 51)
          (at_least (pos 12) (d.nearest (d.minus (whole d 26) (d.times (whole d 6) doublings)))))
        (omega arith)
        (clamp-Between (pos 12) (pos 51)
          (d.nearest (d.minus (whole d 26) (d.times (whole d 6) doublings))) (omega arith))

  pub rc_estimate_base_qp-Between :
      (bitrate : ℕ) (fps : D) (width height : ℕ)
      → Between (pos 12) (pos 51) (rc_estimate_base_qp d bitrate fps width height)
  unfolding rc_estimate_base_qp
  rc_estimate_base_qp-Between bitrate fps width height =
      let rate =
        d.times (d.times (d.of_ℤ (pos width)) (d.of_ℤ (pos height))) (positive_or_60 d fps) in
      let bpp = d.over (d.of_ℤ (pos bitrate)) rate in
      if-Between (pos 12) (pos 51) (d.less_eq rate (whole d 0)) (pos 26) (qp_of_bpp d bpp)
        (omega arith) (qp_of_bpp-Between bpp)

  pub initial_buffer-≤ :
      (mode : Mode) (bitrate bits : ℕ) → pos 1000 ≤ℤ initial_buffer d mode bitrate bits
  unfolding initial_buffer
  initial_buffer-≤ mode bitrate bits =
      at_least-≤ (pos 1000) (pos (if is_low_latency mode then bits * 2 % 2 ^ 32 else bitrate))

  pub integral_cap-≤ : (size : ℤ) → pos 1 ≤ℤ integral_cap d size
  unfolding integral_cap
  integral_cap-≤ size =
      at_least-≤ (pos 1) (d.truncate (d.times (d.of_ℤ (target_level d size)) (whole d 150)))

  pub bounded_fullness-Between :
      (size fullness : ℤ) → pos 0 ≤ℤ size → Between (pos 0) size (bounded_fullness d size fullness)
  unfolding bounded_fullness
  bounded_fullness-Between size fullness h = ground arith
