-- ===== src/RateControl/Invariant.antt =====
-- The controller's invariant, through every operation of rate_control.c.
use bc250_vulkan_encode_stop.Base.{
  ℕ, ◌%◌, ◌^◌, ◌≤◌, ◌≡◌, refl, Bool, true, false, not, ◌&&◌, Option, some, arith, ltb,
  if◌then◌else◌,
}
use bc250_vulkan_encode_stop.Base.Int.{ℤ, pos, pos_part, ltb_ℤ, ◌+ℤ◌, ◌-ℤ◌, ◌≤ℤ◌, int_laws}
use bc250_vulkan_encode_stop.RateControl.{
  Doubles, RateControl, Mode, Process, at_least, at_most, target_level, integral_cap,
  initial_buffer, rc_estimate_base_qp, rc_init, rc_get_frame_qp, rc_update_stats,
  rc_set_max_frame_size, rc_set_quality_level, is_cqp, next_integral, saturated, step_qp, max_step,
  qp_adjust, positive_or_60, drained, account, adapt_qp, clock_ns, drain_mode,
}
use bc250_vulkan_encode_stop.RateControl.Init.{
  Between, clamp-Between, clamp_below-Between, half-Between, step-Between,
  rc_estimate_base_qp-Between, initial_buffer-≤, integral_cap-≤, bounded_fullness-Between,
}

-- The QP in its range, the buffer's level in the buffer, the integral within its cap.
pub record IsController {D : Type 0} (d : Doubles D) (rc : RateControl D) : Type 0 where
  pub lowest : rc.qp_min ≡ pos 12
  pub highest : rc.qp_max ≡ pos 51
  pub qp : Between (pos 12) (pos 51) rc.current_qp
  pub size : pos 1000 ≤ℤ rc.buffer_size
  pub fullness : Between (pos 0) rc.buffer_size rc.buffer_fullness
  pub integral :
      Between
        (pos 0 -ℤ integral_cap d rc.buffer_size)
        (integral_cap d rc.buffer_size)
        rc.error_integral
  pub quality : (1 ≤ rc.quality_level) × (rc.quality_level ≤ 7)

if_keeps : {A : Type 0} → (P : A → Type 0) (b : Bool) (x y : A) → P x → P y → P (if b then x else y)
if_keeps P true x y h k = h
if_keeps P false x y h k = k

module _ {D : Type 0} (d : Doubles D) where
  initial_qp :
      (qp estimate : ℤ) (cqp : Bool)
      → Between (pos 12) (pos 51) estimate
      → Between
          (pos 12)
          (pos 51)
          (if cqp && not (ltb_ℤ qp (pos 12)) && not (ltb_ℤ (pos 51) qp) then qp else estimate)
  initial_qp qp estimate cqp h = ground arith

  -- `rc_init` establishes the invariant from any state, also one never initialised.
  pub rc_init-IsController :
      (rc : RateControl D) (mode : Mode) (bitrate : ℕ) (fps : D) (width height : ℕ)
      → IsController d (rc_init d rc mode bitrate fps width height)
  unfolding rc_init
  rc_init-IsController rc mode bitrate fps width height =
      let target = if ltb 0 bitrate then bitrate else 5000000 in
      let framerate = positive_or_60 d fps in
      let bits = pos_part (d.truncate (d.over (d.of_ℤ (pos target)) framerate)) % 2 ^ 32 in
      let size : ℤ = initial_buffer d mode target (if ltb bits 100 then 100 else bits) in
      let big = initial_buffer-≤ d mode target (if ltb bits 100 then 100 else bits) in
      record {
        lowest = refl;
        highest = refl;
        qp =
            initial_qp rc.current_qp (rc_estimate_base_qp d target framerate width height)
              (is_cqp mode) (rc_estimate_base_qp-Between d target framerate width height);
        size = big;
        fullness = half-Between size (omega arith);
        integral = let one = integral_cap-≤ d size in omega int_laws;
        quality = omega arith;
      }

  next_integral-Between :
      (rc : RateControl D) (error : ℤ)
      → Between
          (pos 0 -ℤ integral_cap d rc.buffer_size)
          (integral_cap d rc.buffer_size)
          rc.error_integral
      → Between
          (pos 0 -ℤ integral_cap d rc.buffer_size)
          (integral_cap d rc.buffer_size)
          (next_integral d rc error)
  unfolding next_integral
  next_integral-Between rc error h =
      let cap : ℤ = integral_cap d rc.buffer_size in
      let one = integral_cap-≤ d rc.buffer_size in
      if_keeps (Between (pos 0 -ℤ cap) cap) (saturated d rc error) rc.error_integral
        (at_least (pos 0 -ℤ cap) (at_most cap (rc.error_integral +ℤ error))) h
        (clamp_below-Between (pos 0 -ℤ cap) cap (rc.error_integral +ℤ error) (omega int_laws))

  pub max_step-Between : (rc : RateControl D) → Between (pos 2) (pos 3) (max_step d rc)
  unfolding max_step
  max_step-Between rc = ground arith

  -- Whatever is wanted, the next QP is in the range.
  step_qp-range :
      (rc : RateControl D) (wanted : ℤ)
      → IsController d rc
      → Between (pos 12) (pos 51) (step_qp d rc wanted)
  unfolding step_qp
  step_qp-range rc wanted h =
      let step : ℤ = max_step d rc in
      let delta : ℤ = at_least (pos 0 -ℤ step) (at_most step (wanted -ℤ rc.current_qp)) in
      simp (h.lowest, h.highest)
        (clamp-Between (pos 12) (pos 51) (rc.current_qp +ℤ delta) (omega arith))

  step_qp-near :
      (rc : RateControl D) (wanted : ℤ)
      → IsController d rc
      → Between
          (rc.current_qp -ℤ max_step d rc)
          (rc.current_qp +ℤ max_step d rc)
          (step_qp d rc wanted)
  unfolding step_qp
  step_qp-near rc wanted h =
      let step : ℤ = max_step d rc in
      let few = max_step-Between rc in
      simp (h.lowest, h.highest)
        (step-Between (pos 12) (pos 51) step (wanted -ℤ rc.current_qp) rc.current_qp (omega arith)
          h.qp)

  adapt_qp-IsController :
      (rc : RateControl D) (est_sad : ℕ)
      → IsController d rc
      → IsController d (adapt_qp d rc est_sad).0
  unfolding adapt_qp
  adapt_qp-IsController rc est_sad h = record {
    lowest = h.lowest;
    highest = h.highest;
    qp =
        let error : ℤ = rc.buffer_fullness -ℤ target_level d rc.buffer_size in
        step_qp-range rc (rc.base_qp +ℤ qp_adjust d rc est_sad error (next_integral d rc error)) h;
    size = h.size;
    fullness = h.fullness;
    integral =
        next_integral-Between rc (rc.buffer_fullness -ℤ target_level d rc.buffer_size) h.integral;
    quality = h.quality;
  }

  -- `rc_get_frame_qp` keeps the invariant.
  pub rc_get_frame_qp-IsController :
      (rc : RateControl D) (est_sad : ℕ)
      → IsController d rc
      → IsController d (rc_get_frame_qp d rc est_sad).0
  unfolding rc_get_frame_qp
  rc_get_frame_qp-IsController rc est_sad h =
      if_keeps (λ r. IsController d r.0) (is_cqp rc.mode) (rc, rc.current_qp)
        (adapt_qp d rc est_sad) h (adapt_qp-IsController rc est_sad h)

  account-IsController :
      (rc : RateControl D) (bits_used : ℤ) (now_ns : ℕ)
      → IsController d rc
      → IsController d (account d rc bits_used now_ns)
  unfolding account
  account-IsController rc bits_used now_ns h = record {
    lowest = h.lowest;
    highest = h.highest;
    qp = h.qp;
    size = h.size;
    fullness =
        bounded_fullness-Between d rc.buffer_size
          (rc.buffer_fullness +ℤ bits_used -ℤ (drained d rc now_ns).0)
          (let big = h.size in omega arith);
    integral = h.integral;
    quality = h.quality;
  }

  pub rc_update_stats-IsController :
      (process : Process) (clock : Option (ℕ × ℕ)) (decided : Option Bool) (rc : RateControl D)
      (bits_used : ℤ)
      → IsController d rc
      → IsController d (rc_update_stats d process clock decided rc bits_used).1
  unfolding rc_update_stats
  rc_update_stats-IsController process clock decided rc bits_used h =
      let by_clock = drain_mode process decided in
      let after = account d rc bits_used (clock_ns by_clock clock) in
      if_keeps (λ (r : Option Bool × RateControl D). IsController d r.1) (is_cqp rc.mode)
        (decided, rc) (some by_clock, after) h
        (account-IsController rc bits_used (clock_ns by_clock clock) h)

  pub rc_set_max_frame_size-IsController :
      (rc : RateControl D) (n : ℕ)
      → IsController d rc
      → IsController d (rc_set_max_frame_size d rc n)
  unfolding rc_set_max_frame_size
  rc_set_max_frame_size-IsController rc n h = record {
    lowest = h.lowest;
    highest = h.highest;
    qp = h.qp;
    size = h.size;
    fullness = h.fullness;
    integral = h.integral;
    quality = h.quality;
  }

  pub rc_set_quality_level-IsController :
      (rc : RateControl D) (n : ℕ)
      → IsController d rc
      → IsController d (rc_set_quality_level d rc n)
  unfolding rc_set_quality_level
  rc_set_quality_level-IsController rc n h = record {
    lowest = h.lowest;
    highest = h.highest;
    qp = h.qp;
    size = h.size;
    fullness = h.fullness;
    integral = h.integral;
    quality = ground arith;
  }

  -- For a controller that keeps its invariant, outside the constant QP mode, the QP of a frame is
  -- the one kept in the state, lies in 12..51, and is at most max_step (2 or 3) away from the one
  -- before.
  pub rc_get_frame_qp-step :
      (rc : RateControl D) (est_sad : ℕ)
      → IsController d rc
      → is_cqp rc.mode ≡ false
      → ((rc_get_frame_qp d rc est_sad).0.current_qp ≡ (rc_get_frame_qp d rc est_sad).1)
        × Between (pos 12) (pos 51) (rc_get_frame_qp d rc est_sad).1
        × Between
            (rc.current_qp -ℤ max_step d rc)
            (rc.current_qp +ℤ max_step d rc)
            (rc_get_frame_qp d rc est_sad).1
        × Between (pos 2) (pos 3) (max_step d rc)
  unfolding rc_get_frame_qp adapt_qp
  rc_get_frame_qp-step rc est_sad h active =
      let error : ℤ = rc.buffer_fullness -ℤ target_level d rc.buffer_size in
      let wanted : ℤ = rc.base_qp +ℤ qp_adjust d rc est_sad error (next_integral d rc error) in
      rw active (refl, step_qp-range rc wanted h, step_qp-near rc wanted h, max_step-Between rc)
