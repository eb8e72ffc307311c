-- ===== src/MotionVectors/Median.antt =====
-- `median3` is the median of H.264 (5.7), the middle one of its arguments.
use bc250_vulkan_encode_stop.Base.{◌≡◌, arith}
use bc250_vulkan_encode_stop.Base.Int.{ℤ, ◌+ℤ◌, ◌-ℤ◌, int_laws}
use bc250_vulkan_encode_stop.MotionVectors.{median3, min_ℤ, max_ℤ}

-- The sum of three numbers less two of them is the third.
less_ab : (a b c : ℤ) → a +ℤ b +ℤ c -ℤ a -ℤ b ≡ c
less_ab a b c = omega int_laws

less_ba : (a b c : ℤ) → a +ℤ b +ℤ c -ℤ b -ℤ a ≡ c
less_ba a b c = omega int_laws

less_ac : (a b c : ℤ) → a +ℤ b +ℤ c -ℤ a -ℤ c ≡ b
less_ac a b c = omega int_laws

less_ca : (a b c : ℤ) → a +ℤ b +ℤ c -ℤ c -ℤ a ≡ b
less_ca a b c = omega int_laws

less_bc : (a b c : ℤ) → a +ℤ b +ℤ c -ℤ b -ℤ c ≡ a
less_bc a b c = omega int_laws

less_cb : (a b c : ℤ) → a +ℤ b +ℤ c -ℤ c -ℤ b ≡ a
less_cb a b c = omega int_laws

-- The sum of three numbers less the smallest and the largest is the middle one, found by
-- comparisons alone.
pub median3-middle : (a b c : ℤ) → median3 a b c ≡ max_ℤ (min_ℤ a b) (min_ℤ (max_ℤ a b) c)
unfolding median3
median3-middle a b c =
    let ab = less_ab a b c in
    let ba = less_ba a b c in
    let ac = less_ac a b c in
    let ca = less_ca a b c in let bc = less_bc a b c in let cb = less_cb a b c in ground arith
