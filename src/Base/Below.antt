-- ===== src/Base/Below.antt =====
-- Facts of a whole table, by evaluating a test on every number below a bound.
use native.Mathlib.Decide.{ℕ_discrete}
use bc250_vulkan_encode_stop.Base.{ℕ, zero, suc, ◌<◌, ◌≡◌, Bool, true, ◌&&◌, arith}

-- Whether a test holds of every number below a bound.
unfoldable pub all_below : (ℕ → Bool) → ℕ → Bool
all_below test zero = true
all_below test (suc n) = test n && all_below test n

pub and-left : (a b : Bool) → (a && b) ≡ true → a ≡ true
and-left a b h = ground arith

pub and-right : (a b : Bool) → (a && b) ≡ true → b ≡ true
and-right a b h = ground arith

pub all_below-holds : (test : ℕ → Bool) (n i : ℕ) → i < n → all_below test n ≡ true → test i ≡ true
unfolding all_below
all_below-holds test zero i h all = elim h [ ]
all_below-holds test (suc n) i h all = elim (ℕ_discrete i n) [
  | yes e ↦ rw e (and-left (test n) (all_below test n) all)
  | no e ↦ all_below-holds test n i (omega (arith, e)) (and-right (test n) (all_below test n) all)
]
