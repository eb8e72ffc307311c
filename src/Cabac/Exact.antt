-- ===== src/Cabac/Exact.antt =====
-- The exact arithmetic coder that the engine of cabac.c implements: an interval of whole
-- numbers, as in H.264 9.3.4.2, with a register of any length, so no carry and no bytes.
use bc250_vulkan_encode_stop.Base.{
  ℕ, zero, suc, ◌+◌, ◌-◌, ◌*◌, ◌/◌, ◌^◌, ◌≤◌, ◌<◌, ◌≡◌, refl, arith, Bool, true, false, ◌&&◌, ◌||◌,
  List, [], ◌∷◌, if◌then◌else◌, ltb, leb, ◌==◌, set, get_or, ltb-false,
}
use bc250_vulkan_encode_stop.Base.Below.{all_below, all_below-holds}
use bc250_vulkan_encode_stop.Bits.{odd}
use bc250_vulkan_encode_stop.Cabac.{range_lps, next_state, differs}
use bc250_vulkan_encode_stop.Cabac.Tables.{cabac_renorm_shift, cabac_range_lps, cabac_transition}

-- What the coder puts out: a bin with its context, one without, or the bin that says that the
-- slice goes on.
pub data Bin : Type 0 where
  decision : ℕ → Bool → Bin
  bypass : Bool → Bin
  terminal : Bin

pub record Coder : Type 0 where
  pub low : ℕ
  pub range : ℕ
  pub shifts : ℕ
  pub state : List ℕ

-- RenormE: how often a range is doubled before it is 256 or more.
unfoldable pub doublings : ℕ → ℕ → ℕ
doublings zero range = 0
doublings (suc fuel) range =
    let more = doublings fuel (range * 2) in if leb 256 range then 0 else suc more

-- `delta` and `range` are the chosen part of the interval.
unfoldable pub narrow : Coder → ℕ → ℕ → Coder
unfolding doublings
narrow c delta range =
    let s = doublings 8 range in
    record c { low = (c.low + delta) * 2 ^ s; range = range * 2 ^ s; shifts = c.shifts + s }

unfoldable pub narrow_to : Coder → Bool → ℕ → Coder
unfolding narrow
narrow_to c is_lps lps = if is_lps then narrow c (c.range - lps) lps else narrow c 0 (c.range - lps)

unfoldable pub code_decision : Coder → ℕ → Bool → Coder
unfolding narrow_to range_lps next_state differs
code_decision c ctx bit =
    let p = get_or c.state ctx 0 in
    record (narrow_to c (differs bit (odd p)) (range_lps p c.range)) {
      state = set c.state ctx (next_state p bit);
    }

unfoldable pub code_bin : Coder → Bin → Coder
unfolding code_decision narrow
code_bin c (decision ctx bit) = code_decision c ctx bit
code_bin c (bypass bit) = record c {
  low = c.low * 2 + (if bit then c.range else 0);
  shifts = c.shifts + 1;
}
code_bin c terminal = narrow c 0 (c.range - 2)

unfoldable pub code_bins : Coder → List Bin → Coder
unfolding code_bin
code_bins c [] = c
code_bins c (b ∷ bs) = code_bins (code_bin c b) bs

-- The states that are ever coded with: 0 and 1 stand for the terminal probability.
unfoldable pub IsState : ℕ → Type 0
IsState p = (2 ≤ p) × (p ≤ 127)

lps_test : ℕ → ℕ → Bool
lps_test row col =
    let lps = get_or (get_or cabac_range_lps row []) col 0 in
    (row == 0) || (leb 6 lps && leb lps 240 && leb (lps + 6) (256 + 64 * col))

lps_tested : all_below (λ row. all_below (λ col. lps_test row col) 4) 64 ≡ true
unfolding all_below lps_test cabac_range_lps
lps_tested = refl

shift_test : ℕ → Bool
unfolding doublings
shift_test r =
    let s = doublings 8 r in
    ltb r 6
    || ((get_or cabac_renorm_shift (r / 8) 0 == s)
        && leb s 6
        && leb 256 (r * 2 ^ s)
        && leb (r * 2 ^ s) 510)

shift_tested : all_below shift_test 511 ≡ true
unfolding all_below shift_test cabac_renorm_shift
shift_tested = refl

usable : ℕ → Bool
usable p = leb 2 p && leb p 127

usable_lem : (p : ℕ) → usable p ≡ true → IsState p
unfolding usable IsState
usable_lem p h = ground arith

state_test : ℕ → Bool
unfolding next_state usable
state_test p = ltb p 2 || (usable (next_state p true) && usable (next_state p false))

both_hold : (a b c : Bool) → (a || (b && c)) ≡ true → a ≡ false → (b ≡ true) × (c ≡ true)
both_hold a b c h k = ground arith

state_tested : all_below state_test 128 ≡ true
unfolding all_below state_test usable cabac_transition
state_tested = refl

row_bounds :
    (row col : ℕ)
    → 1 ≤ row
    → row < 64
    → col < 4
    → (6 ≤ get_or (get_or cabac_range_lps row []) col 0)
      × (get_or (get_or cabac_range_lps row []) col 0 ≤ 240)
      × (get_or (get_or cabac_range_lps row []) col 0 + 6 ≤ 256 + 64 * col)
unfolding lps_test
row_bounds row col positive h k =
    let tested : lps_test row col ≡ true =
      all_below-holds (λ c. lps_test row c) 4 col k
        (all_below-holds (λ r. all_below (λ c. lps_test r c) 4) 64 row h lps_tested) in
    ground (arith, tested)

-- A share of the range is left to either value of a bin.
pub range_lps-bounds :
    (p range : ℕ)
    → IsState p
    → 256 ≤ range
    → range ≤ 510
    → (6 ≤ range_lps p range) × (range_lps p range ≤ 240) × (range_lps p range + 6 ≤ range)
unfolding range_lps IsState
range_lps-bounds p range (two, top) low high =
    let (least, most, rest) =
      row_bounds (p / 2) (range / 64 - 4) (omega arith) (omega arith) (omega arith) in
    (least, most, omega (arith, rest, low, high))

-- For a range of 6..510 the table of shifts has the number of doublings of RenormE, at most 6,
-- and they bring the range into 256..510.
pub shift-doublings :
    (range : ℕ)
    → 6 ≤ range
    → range ≤ 510
    → (get_or cabac_renorm_shift (range / 8) 0 ≡ doublings 8 range)
      × (doublings 8 range ≤ 6)
      × (256 ≤ range * 2 ^ doublings 8 range)
      × (range * 2 ^ doublings 8 range ≤ 510)
unfolding shift_test
shift-doublings range low high =
    let tested : shift_test range ≡ true =
      all_below-holds shift_test 511 range (omega arith) shift_tested in
    ground (arith, tested)

pub next_state-IsState : (p : ℕ) (bit : Bool) → IsState p → IsState (next_state p bit)
unfolding IsState state_test
next_state-IsState p bit (two, top) =
    let (after_one, after_zero) =
      both_hold (ltb p 2) (usable (next_state p true)) (usable (next_state p false))
        (all_below-holds state_test 128 p (omega arith) state_tested) (ltb-false p 2 two) in
    elim bit as (λ b. IsState (next_state p b)) [
      | true ↦ usable_lem (next_state p true) after_one
      | false ↦ usable_lem (next_state p false) after_zero
    ]
