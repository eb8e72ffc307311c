-- ===== src/RateControl.antt =====
-- The rate controller of approach1-compute-encoder/src/rate_control.c. Doubles, libm and C's
-- conversions are a parameter; signed sums are integers, since their overflow is undefined in C.
-- Diagnostics printed under BC250_DEBUG_RC are left out, and so is the test for a null controller.
pub mod Init
pub mod Invariant
pub mod Reach
pub mod Drain
use bc250_vulkan_encode_stop.Base.{
  ℕ, ◌+◌, ◌-◌, ◌*◌, ◌/◌, ◌%◌, ◌^◌, Bool, true, false, ◌&&◌, ◌||◌, not, List, [], ◌∷◌, Option, none,
  some, ltb, leb, ◌==◌, if◌then◌else◌,
}
use bc250_vulkan_encode_stop.Base.Int.{ℤ, pos, negsuc, pos_part, ltb_ℤ, ◌+ℤ◌, ◌-ℤ◌}

pub data Mode : Type 0 where
  rc_cbr : Mode
  rc_vbr : Mode
  rc_low_latency : Mode
  rc_cqp : Mode

unfoldable pub is_cqp : Mode → Bool
is_cqp rc_cqp = true
is_cqp rc_cbr = false
is_cqp rc_vbr = false
is_cqp rc_low_latency = false

unfoldable pub is_vbr : Mode → Bool
is_vbr rc_vbr = true
is_vbr rc_cbr = false
is_vbr rc_low_latency = false
is_vbr rc_cqp = false

unfoldable pub is_low_latency : Mode → Bool
is_low_latency rc_low_latency = true
is_low_latency rc_cbr = false
is_low_latency rc_vbr = false
is_low_latency rc_cqp = false

-- C's double with libm: `decimal m n` is the literal m / n, `truncate` the conversion to an integer,
-- `nearest` is `round` and `lround`.
pub record Doubles (D : Type 0) : Type 0 where
  pub of_ℤ : ℤ → D
  pub decimal : ℕ → ℕ → D
  pub plus : D → D → D
  pub minus : D → D → D
  pub times : D → D → D
  pub over : D → D → D
  pub log : D → D
  pub less : D → D → Bool
  pub less_eq : D → D → Bool
  pub truncate : D → ℤ
  pub nearest : D → ℤ

pub record RateControl (D : Type 0) : Type 0 where
  pub mode : Mode
  pub target_bitrate : ℕ
  pub max_bitrate : ℕ
  pub qp_min : ℤ
  pub qp_max : ℤ
  pub framerate : D
  pub target_bits_per_frame : ℕ
  pub buffer_fullness : ℤ
  pub buffer_size : ℤ
  pub base_qp : ℤ
  pub current_qp : ℤ
  pub prev_frame_sad : ℕ
  pub error_integral : ℤ
  pub last_frame_ns : ℕ
  pub measured_fps : D
  pub max_frame_bits : ℕ
  pub quality_level : ℕ

-- `if (x < low) x = low;` and `if (x > high) x = high;`
unfoldable pub at_least : ℤ → ℤ → ℤ
at_least low x = if ltb_ℤ x low then low else x

unfoldable pub at_most : ℤ → ℤ → ℤ
at_most high x = if ltb_ℤ high x then high else x

-- x / 2, toward 0.
unfoldable pub half : ℤ → ℤ
half (pos n) = pos (n / 2)
half (negsuc n) = pos 0 -ℤ pos ((n + 1) / 2)

module _ {D : Type 0} (d : Doubles D) where
  abbrev pub whole : ℕ → D
  whole n = d.decimal n 1

  unfoldable pub positive_or_60 : D → D
  positive_or_60 fps = if d.less (whole 0) fps then fps else whole 60

  -- The QP of a number of bits per pixel.
  unfoldable pub qp_of_bpp : D → ℤ
  unfolding at_least at_most
  qp_of_bpp bpp =
      let doublings = d.over (d.log (d.over bpp (d.decimal 36169 1000000))) (d.log (whole 2)) in
      if d.less_eq bpp (whole 0)
      then pos 51
      else at_most (pos 51)
          (at_least (pos 12) (d.nearest (d.minus (whole 26) (d.times (whole 6) doublings))))

  unfoldable pub rc_estimate_base_qp : ℕ → D → ℕ → ℕ → ℤ
  unfolding positive_or_60 qp_of_bpp
  rc_estimate_base_qp bitrate fps width height =
      let pixels_per_sec =
        d.times (d.times (d.of_ℤ (pos width)) (d.of_ℤ (pos height))) (positive_or_60 fps) in
      if d.less_eq pixels_per_sec (whole 0)
      then pos 26
      else qp_of_bpp (d.over (d.of_ℤ (pos bitrate)) pixels_per_sec)

  -- The buffer of a mode, of at least 1000 bits.
  unfoldable pub initial_buffer : Mode → ℕ → ℕ → ℤ
  unfolding at_least is_low_latency
  initial_buffer mode target_bitrate target_bits =
      at_least (pos 1000)
        (pos (if is_low_latency mode then target_bits * 2 % 2 ^ 32 else target_bitrate))

  unfoldable pub rc_init : RateControl D → Mode → ℕ → D → ℕ → ℕ → RateControl D
  unfolding rc_estimate_base_qp initial_buffer half positive_or_60 is_cqp
  rc_init rc mode bitrate fps width height =
      let target = if ltb 0 bitrate then bitrate else 5000000 in
      let framerate = positive_or_60 fps in
      let bits = pos_part (d.truncate (d.over (d.of_ℤ (pos target)) framerate)) % 2 ^ 32 in
      let target_bits = if ltb bits 100 then 100 else bits in
      let buffer_size = initial_buffer mode target target_bits in
      let keep =
        is_cqp mode && not (ltb_ℤ rc.current_qp (pos 12)) && not (ltb_ℤ (pos 51) rc.current_qp) in
      let base_qp =
        if keep then rc.current_qp else rc_estimate_base_qp target framerate width height in
      record {
        mode = mode;
        target_bitrate = target;
        max_bitrate = target * 3 % 2 ^ 32 / 2;
        qp_min = pos 12;
        qp_max = pos 51;
        framerate = framerate;
        target_bits_per_frame = target_bits;
        buffer_fullness = half buffer_size;
        buffer_size = buffer_size;
        base_qp = base_qp;
        current_qp = base_qp;
        prev_frame_sad = 0;
        error_integral = pos 0;
        last_frame_ns = 0;
        measured_fps = whole 0;
        max_frame_bits = 0;
        quality_level = 4;
      }

  unfoldable pub target_level : ℤ → ℤ
  unfolding half at_least
  target_level buffer_size = at_least (pos 1) (half buffer_size)

  unfoldable pub integral_cap : ℤ → ℤ
  unfolding target_level at_least
  integral_cap buffer_size =
      at_least (pos 1) (d.truncate (d.times (d.of_ℤ (target_level buffer_size)) (whole 150)))

  -- `saturated_high || saturated_low`: the QP is at the end that the error pushes it to.
  unfoldable pub saturated : RateControl D → ℤ → Bool
  saturated rc error =
      not (ltb_ℤ rc.current_qp rc.qp_max) && ltb_ℤ (pos 0) error
      || not (ltb_ℤ rc.qp_min rc.current_qp) && ltb_ℤ error (pos 0)

  -- The integral after this frame.
  unfoldable pub next_integral : RateControl D → ℤ → ℤ
  unfolding integral_cap at_most at_least saturated
  next_integral rc error =
      let cap = integral_cap rc.buffer_size in
      if saturated rc error
      then rc.error_integral
      else at_least (pos 0 -ℤ cap) (at_most cap (rc.error_integral +ℤ error))

  -- VBR: the change in complexity since the previous frame.
  unfoldable pub complexity_adjust : RateControl D → ℕ → ℤ
  unfolding is_vbr
  complexity_adjust rc est_sad =
      let ratio = d.over (d.of_ℤ (pos est_sad)) (d.of_ℤ (pos rc.prev_frame_sad)) in
      if is_vbr rc.mode && ltb 0 rc.prev_frame_sad
      then (if d.less (d.decimal 13 10) ratio
          then pos 2
          else (if d.less ratio (d.decimal 7 10) then negsuc 1 else pos 0))
      else pos 0

  -- The bias of a maximal frame size near the budget.
  unfoldable pub frame_size_adjust : RateControl D → ℤ
  frame_size_adjust rc =
      if ltb 0 rc.max_frame_bits && ltb 0 rc.target_bits_per_frame
      then (if ltb rc.max_frame_bits rc.target_bits_per_frame
          then pos 2
          else (if ltb rc.max_frame_bits (rc.target_bits_per_frame * 3 % 2 ^ 32 / 2)
              then pos 1
              else pos 0))
      else pos 0

  unfoldable pub qp_adjust : RateControl D → ℕ → ℤ → ℤ → ℤ
  unfolding complexity_adjust frame_size_adjust target_level integral_cap
  qp_adjust rc est_sad error integral =
      let p_term =
        d.times (d.over (d.of_ℤ error) (d.of_ℤ (target_level rc.buffer_size))) (whole 6) in
      let i_term =
        d.times (d.over (d.of_ℤ integral) (d.of_ℤ (integral_cap rc.buffer_size))) (whole 40) in
      d.nearest (d.plus p_term i_term) +ℤ complexity_adjust rc est_sad +ℤ frame_size_adjust rc

  unfoldable pub max_step : RateControl D → ℤ
  unfolding is_low_latency
  max_step rc = if is_low_latency rc.mode || leb 5 rc.quality_level then pos 3 else pos 2

  -- The QP after a step toward `wanted`.
  unfoldable pub step_qp : RateControl D → ℤ → ℤ
  unfolding max_step at_least at_most
  step_qp rc wanted =
      let step = max_step rc in
      let delta = at_least (pos 0 -ℤ step) (at_most step (wanted -ℤ rc.current_qp)) in
      at_most rc.qp_max (at_least rc.qp_min (rc.current_qp +ℤ delta))

  -- The controller and its answer, outside the constant QP mode.
  unfoldable pub adapt_qp : RateControl D → ℕ → RateControl D × ℤ
  unfolding next_integral qp_adjust step_qp target_level
  adapt_qp rc est_sad =
      let error = rc.buffer_fullness -ℤ target_level rc.buffer_size in
      let integral = next_integral rc error in
      let qp = step_qp rc (rc.base_qp +ℤ qp_adjust rc est_sad error integral) in
      (record rc { error_integral = integral; current_qp = qp; prev_frame_sad = est_sad }, qp)

  unfoldable pub rc_get_frame_qp : RateControl D → ℕ → RateControl D × ℤ
  unfolding adapt_qp is_cqp
  rc_get_frame_qp rc est_sad = if is_cqp rc.mode then (rc, rc.current_qp) else adapt_qp rc est_sad

  unfoldable pub rc_set_max_frame_size : RateControl D → ℕ → RateControl D
  rc_set_max_frame_size rc max_frame_bits = record rc { max_frame_bits = max_frame_bits }

  unfoldable pub rc_set_quality_level : RateControl D → ℕ → RateControl D
  rc_set_quality_level rc quality_level =
      let low = if ltb quality_level 1 then 1 else quality_level in
      record rc { quality_level = if ltb 7 low then 7 else low }

-- The bytes of a C string.
abbrev pub CString : Type 0
CString = List ℕ

unfoldable pub same_string : CString → CString → Bool
same_string [] [] = true
same_string [] (b ∷ t) = false
same_string (a ∷ s) [] = false
same_string (a ∷ s) (b ∷ t) = a == b && same_string s t

-- A string that is there and equal to `t`.
unfoldable pub is_string : Option CString → CString → Bool
unfolding same_string
is_string none t = false
is_string (some s) t = same_string s t

abbrev pub one_string : CString
one_string = 49 ∷ []

abbrev pub sunshine : CString
sunshine = 115 ∷ 117 ∷ 110 ∷ 115 ∷ 104 ∷ 105 ∷ 110 ∷ 101 ∷ []

abbrev pub wivrn : CString
wivrn = 119 ∷ 105 ∷ 118 ∷ 114 ∷ 110 ∷ []

abbrev pub wivrn_server : CString
wivrn_server = 119 ∷ 105 ∷ 118 ∷ 114 ∷ 110 ∷ 45 ∷ 115 ∷ 101 ∷ 114 ∷ 118 ∷ 101 ∷ 114 ∷ []

-- What the drain's choice reads of the process.
pub record Process : Type 0 where
  pub nominal_drain : Option CString
  pub wallclock_drain : Option CString
  pub short_name : Option CString

-- Whether the drain goes by the clock.
unfoldable pub choose_drain : Process → Bool
unfolding is_string
choose_drain process =
    if is_string process.nominal_drain one_string
    then false
    else if is_string process.wallclock_drain one_string
    then true
    else is_string process.short_name sunshine
      || is_string process.short_name wivrn_server
      || is_string process.short_name wivrn

-- The static `drain_mode`: `none` while undecided.
unfoldable pub drain_mode : Process → Option Bool → Bool
unfolding choose_drain
drain_mode process none = choose_drain process
drain_mode process (some decided) = decided

-- CLOCK_MONOTONIC in nanoseconds; 0 without the clock.
unfoldable pub clock_ns : Bool → Option (ℕ × ℕ) → ℕ
clock_ns false clock = 0
clock_ns true none = 0
clock_ns true (some (sec, nsec)) = (sec * 1000000000 + nsec) % 2 ^ 64

module _ {D : Type 0} (d : Doubles D) where
  -- The seconds since the last frame, from 1 ms to 250 ms.
  unfoldable pub elapsed_seconds : ℕ → D
  elapsed_seconds ns =
      let elapsed = d.over (d.of_ℤ (pos ns)) (whole d 1000000000) in
      let low = if d.less elapsed (d.decimal 1 1000) then d.decimal 1 1000 else elapsed in
      if d.less (d.decimal 250 1000) low then d.decimal 250 1000 else low

  unfoldable pub next_fps : D → D → D
  next_fps measured_fps elapsed =
      let inst_fps = d.over (whole d 1) elapsed in
      if d.less (whole d 0) measured_fps
      then d.plus (d.times measured_fps (d.decimal 95 100)) (d.times inst_fps (d.decimal 5 100))
      else inst_fps

  -- The bits that leave the buffer, and the frame rate measured.
  unfoldable pub drained : RateControl D → ℕ → ℤ × D
  unfolding elapsed_seconds next_fps
  drained rc now_ns =
      let elapsed = elapsed_seconds (now_ns - rc.last_frame_ns) in
      if not (now_ns == 0) && not (rc.last_frame_ns == 0) && ltb rc.last_frame_ns now_ns
      then (
        d.truncate (d.times (d.of_ℤ (pos rc.target_bitrate)) elapsed),
        next_fps rc.measured_fps elapsed,
      )
      else (pos rc.target_bits_per_frame, rc.measured_fps)

  unfoldable pub bounded_fullness : ℤ → ℤ → ℤ
  bounded_fullness buffer_size fullness =
      if ltb_ℤ fullness (pos 0)
      then pos 0
      else (if ltb_ℤ buffer_size fullness then buffer_size else fullness)

  -- The buffer after a frame of `bits_used` bits at the time `now_ns`, which is 0 without a clock.
  unfoldable pub account : RateControl D → ℤ → ℕ → RateControl D
  unfolding drained bounded_fullness
  account rc bits_used now_ns =
      let (drain, fps) = drained rc now_ns in
      record rc {
        buffer_fullness =
            bounded_fullness rc.buffer_size (rc.buffer_fullness +ℤ bits_used -ℤ drain);
        measured_fps = fps;
        last_frame_ns = if now_ns == 0 then rc.last_frame_ns else now_ns;
      }

  -- The static `drain_mode` and the controller after a frame.
  unfoldable pub rc_update_stats :
      Process → Option (ℕ × ℕ) → Option Bool → RateControl D → ℤ → Option Bool × RateControl D
  unfolding drain_mode clock_ns account is_cqp
  rc_update_stats process clock decided rc bits_used =
      let by_clock = drain_mode process decided in
      if is_cqp rc.mode
      then (decided, rc)
      else (some by_clock, account rc bits_used (clock_ns by_clock clock))
