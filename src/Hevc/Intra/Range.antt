-- ===== src/Hevc/Intra/Range.antt =====
-- The predictions of hevc_intra.c lie between the references they are made of.
use bc250_vulkan_encode_stop.Base.{ℕ, ◌≤◌, ◌<◌}
use bc250_vulkan_encode_stop.Hevc.Intra.Order.{References}

-- Between two values.
unfoldable pub Between : ℕ → ℕ → ℕ → Type 0
Between lo hi v = (lo ≤ v) × (v ≤ hi)

-- The `side` references on each side and the corner lie between two values.
pub record AreBetween (lo hi side : ℕ) (r : References) : Type 0 where
  pub left : (y : ℕ) → y < side → Between lo hi (r.left y)
  pub top : (x : ℕ) → x < side → Between lo hi (r.top x)
  pub corner : Between lo hi r.corner
