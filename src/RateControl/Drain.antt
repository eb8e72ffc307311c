-- ===== src/RateControl/Drain.antt =====
-- The drain of the buffer in rate_control.c: the nominal quota, the clock, and the choice between them.
use bc250_vulkan_encode_stop.Base.{ℕ, Bool, false, ◌≡◌, refl, Option, some, arith}
use bc250_vulkan_encode_stop.Base.Int.{ℤ, pos, ◌-ℤ◌, ◌+ℤ◌}
use bc250_vulkan_encode_stop.RateControl.{
  Doubles, RateControl, Process, rc_update_stats, is_cqp, drain_mode, clock_ns, account, drained,
  bounded_fullness,
}

module _ {D : Type 0} (d : Doubles D) where
  -- Outside the constant QP mode and with the nominal drain, the accounting of a frame does not
  -- depend on the clock: the buffer takes the bits of the frame, loses target_bits_per_frame and
  -- is clamped to its size, and nothing else changes.
  pub rc_update_stats-nominal :
      (process : Process) (clock : Option (ℕ × ℕ)) (decided : Option Bool) (rc : RateControl D)
      (bits_used : ℤ)
      → is_cqp rc.mode ≡ false
      → drain_mode process decided ≡ false
      → rc_update_stats d process clock decided rc bits_used ≡ (
        some false,
        record rc {
          buffer_fullness =
              bounded_fullness d rc.buffer_size
                (rc.buffer_fullness +ℤ bits_used -ℤ pos rc.target_bits_per_frame);
        },
      )
  unfolding rc_update_stats account drained clock_ns
  rc_update_stats-nominal process clock decided rc bits_used active nominal =
      rw (active, nominal) refl

  -- Outside the constant QP mode, the drain that the first frame chose stands for the next one,
  -- whatever environment and controller it sees.
  pub rc_update_stats-sticky :
      (process later : Process) (clock now : Option (ℕ × ℕ)) (decided : Option Bool)
      (rc next : RateControl D) (bits_used bits_next : ℤ)
      → is_cqp rc.mode ≡ false
      → (rc_update_stats d later now
          (rc_update_stats d process clock decided rc bits_used).0
          next
          bits_next).0
        ≡ (rc_update_stats d process clock decided rc bits_used).0
  unfolding rc_update_stats drain_mode
  rc_update_stats-sticky process later clock now decided rc next bits_used bits_next active =
      rw active (ground arith)
