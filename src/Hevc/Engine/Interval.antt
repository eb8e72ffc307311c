-- ===== src/Hevc/Engine/Interval.antt =====
-- The interval of the bin coder of hevc_cabac.c against the exact arithmetic coder.
use bc250_vulkan_encode_stop.Base.{
  ℕ, ◌+◌, ◌-◌, ◌*◌, ◌/◌, ◌%◌, ◌≤◌, ◌≡◌, refl, arith, Bool, true, false, ◌&&◌, ◌||◌, [], ltb, leb,
  leb→le, ltb→lt, ◌==◌, get_or,
}
use bc250_vulkan_encode_stop.Base.Below.{all_below, all_below-holds, and-left, and-right}
use bc250_vulkan_encode_stop.Cabac.{range_lps, next_state}
use bc250_vulkan_encode_stop.Cabac.Exact.{doublings}
use bc250_vulkan_encode_stop.Cabac.Tables.{cabac_range_lps, cabac_transition}
use bc250_vulkan_encode_stop.Hevc.Engine.{state_after, lps_of, lps_num_bits, mps_num_bits}
use bc250_vulkan_encode_stop.Hevc.Engine.Drain.{counterpart}
use bc250_vulkan_encode_stop.Hevc.Engine.Start.{IsUsable}
use bc250_vulkan_encode_stop.Hevc.Engine.Tables.{next_states, lps_ranges}

state_test : ℕ → Bool
unfolding state_after next_state
state_test s =
    (counterpart (state_after s true) == next_state (counterpart s) true)
    && (counterpart (state_after s false) == next_state (counterpart s) false)

states_tested : all_below state_test 126 ≡ true
unfolding all_below state_test next_states cabac_transition
states_tested = refl

lps_test : ℕ → ℕ → Bool
lps_test s col =
    let lps = get_or (get_or lps_ranges (s / 2) []) col 0 in
    (lps == get_or (get_or cabac_range_lps (counterpart s / 2) []) col 0)
    && (lps_num_bits s lps == doublings 8 lps)

room_test : ℕ → ℕ → Bool
room_test s col = leb (get_or (get_or lps_ranges (s / 2) []) col 0 + 128) (256 + 64 * col)

room_tested : all_below (λ s. all_below (λ col. room_test s col) 4) 126 ≡ true
unfolding all_below room_test lps_ranges
room_tested = refl

lps_tested : all_below (λ s. all_below (λ col. lps_test s col) 4) 126 ≡ true
unfolding all_below lps_test lps_num_bits lps_ranges cabac_range_lps doublings
lps_tested = refl

both_equal : (a b c d : ℕ) → ((a == b) && (c == d)) ≡ true → (a ≡ b) × (c ≡ d)
both_equal a b c d h = ground arith

range_test : ℕ → Bool
range_test r = ltb r 128 || (mps_num_bits r == doublings 8 r)

ranges_tested : all_below range_test 511 ≡ true
unfolding all_below range_test mps_num_bits doublings
ranges_tested = refl

-- A state goes on as its counterpart does.
pub state_after-next_state :
    (s : ℕ) (bin : Bool)
    → IsUsable s
    → (counterpart (state_after s bin) ≡ next_state (counterpart s) bin)
unfolding state_test
state_after-next_state s bin h =
    let (one, other) =
      both_equal (counterpart (state_after s true)) (next_state (counterpart s) true)
        (counterpart (state_after s false)) (next_state (counterpart s) false)
        (all_below-holds state_test 126 s h states_tested) in
    elim bin as (λ b. counterpart (state_after s b) ≡ next_state (counterpart s) b) [
      | true ↦ one
      | false ↦ other
    ]

usable_test : ℕ → Bool
usable_test s = ltb (state_after s true) 126 && ltb (state_after s false) 126

usables_tested : all_below usable_test 126 ≡ true
unfolding all_below usable_test state_after next_states
usables_tested = refl

pub state_after-IsUsable : (s : ℕ) (bin : Bool) → IsUsable s → IsUsable (state_after s bin)
unfolding usable_test
state_after-IsUsable s bin h =
    let tested = all_below-holds usable_test 126 s h usables_tested in
    let one = and-left (ltb (state_after s true) 126) (ltb (state_after s false) 126) tested in
    let other = and-right (ltb (state_after s true) 126) (ltb (state_after s false) 126) tested in
    elim bin as (λ b. IsUsable (state_after s b)) [
      | true ↦ ltb→lt (state_after s true) 126 one
      | false ↦ ltb→lt (state_after s false) 126 other
    ]

-- The share of the range and the number of doublings after it.
pub lps_of-range_lps :
    (s range : ℕ)
    → IsUsable s
    → 256 ≤ range
    → range ≤ 510
    → (lps_of s range ≡ range_lps (counterpart s) range)
      × (lps_num_bits s (lps_of s range) ≡ doublings 8 (lps_of s range))
unfolding lps_test lps_of range_lps
lps_of-range_lps s range h low high =
    let col = range / 64 - 4 in
    let lps = get_or (get_or lps_ranges (s / 2) []) col 0 in
    let same : range / 64 % 4 ≡ col = omega (arith, low, high) in
    rw same (
      both_equal lps (get_or (get_or cabac_range_lps (counterpart s / 2) []) col 0)
        (lps_num_bits s lps) (doublings 8 lps)
        (all_below-holds (λ c. lps_test s c) 4 col (omega (arith, low, high))
          (all_below-holds (λ r. all_below (λ c. lps_test r c) 4) 126 s h lps_tested)))

-- The other part of the range has at least 128.
pub lps_of-room :
    (s range : ℕ) → IsUsable s → 256 ≤ range → range ≤ 510 → lps_of s range + 128 ≤ range
unfolding room_test lps_of
lps_of-room s range h low high =
    let col = range / 64 - 4 in
    let same : range / 64 % 4 ≡ col = omega (arith, low, high) in
    let room : get_or (get_or lps_ranges (s / 2) []) col 0 + 128 ≤ 256 + 64 * col =
      leb→le (get_or (get_or lps_ranges (s / 2) []) col 0 + 128) (256 + 64 * col) (
        all_below-holds (λ c. room_test s c) 4 col (omega (arith, low, high))
          (all_below-holds (λ r. all_below (λ c. room_test r c) 4) 126 s h room_tested)) in
    rw same (omega (arith, room, low))

pub mps_num_bits-doublings : (r : ℕ) → 128 ≤ r → r ≤ 510 → mps_num_bits r ≡ doublings 8 r
unfolding range_test
mps_num_bits-doublings r low high =
    let tested : range_test r ≡ true =
      all_below-holds range_test 511 r (omega arith) ranges_tested in
    ground (arith, tested)
