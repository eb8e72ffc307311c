-- ===== src/RateControl/Reach.antt =====
-- Sessions of the rate controller: the operations of rate_control.c in any order, with any clock.
use bc250_vulkan_encode_stop.Base.{ℕ, Bool, Option}
use bc250_vulkan_encode_stop.Base.Int.{ℤ}
use bc250_vulkan_encode_stop.RateControl.{
  Doubles, RateControl, Mode, Process, rc_init, rc_get_frame_qp, rc_update_stats,
  rc_set_max_frame_size, rc_set_quality_level,
}
use bc250_vulkan_encode_stop.RateControl.Invariant.{
  IsController, rc_init-IsController, rc_get_frame_qp-IsController, rc_update_stats-IsController,
  rc_set_max_frame_size-IsController, rc_set_quality_level-IsController,
}

module _ {D : Type 0} (d : Doubles D) where
  -- One call; `init` starts over.
  pub data Step : RateControl D → RateControl D → Type 0 where
    init :
        (rc : RateControl D) (mode : Mode) (bitrate : ℕ) (fps : D) (width height : ℕ)
        → Step rc (rc_init d rc mode bitrate fps width height)
    frame : (rc : RateControl D) (est_sad : ℕ) → Step rc (rc_get_frame_qp d rc est_sad).0
    stats :
        (process : Process) (clock : Option (ℕ × ℕ)) (decided : Option Bool) (rc : RateControl D)
        (bits_used : ℤ)
        → Step rc (rc_update_stats d process clock decided rc bits_used).1
    max_frame_size : (rc : RateControl D) (n : ℕ) → Step rc (rc_set_max_frame_size d rc n)
    quality : (rc : RateControl D) (n : ℕ) → Step rc (rc_set_quality_level d rc n)

  -- What a session can reach, from an initialised controller on.
  pub data Reached : RateControl D → Type 0 where
    start :
        (rc : RateControl D) (mode : Mode) (bitrate : ℕ) (fps : D) (width height : ℕ)
        → Reached (rc_init d rc mode bitrate fps width height)
    then : {rc after : RateControl D} → Reached rc → Step rc after → Reached after

  Step-IsController :
      {rc after : RateControl D} → IsController d rc → Step rc after → IsController d after
  Step-IsController h (init rc mode bitrate fps width height) =
      rc_init-IsController d rc mode bitrate fps width height
  Step-IsController h (frame rc est_sad) = rc_get_frame_qp-IsController d rc est_sad h
  Step-IsController h (stats process clock decided rc bits_used) =
      rc_update_stats-IsController d process clock decided rc bits_used h
  Step-IsController h (max_frame_size rc n) = rc_set_max_frame_size-IsController d rc n h
  Step-IsController h (quality rc n) = rc_set_quality_level-IsController d rc n h

  -- In every state that a session of controller calls reaches, in any order and with any clock
  -- and doubles, the QP is in 12..51, the level in the buffer, the integral within its cap and
  -- the quality level in 1..7.
  pub Reached-IsController : {rc : RateControl D} → Reached rc → IsController d rc
  Reached-IsController (start rc mode bitrate fps width height) =
      rc_init-IsController d rc mode bitrate fps width height
  Reached-IsController (then r s) = Step-IsController (Reached-IsController r) s
