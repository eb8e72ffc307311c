-- ===== src/Cabac/Moves.antt =====
-- Shifting the register of the engine in cabac.c and choosing a part of its interval, against
-- the exact coder that the engine stands for.
use native.Mathlib.Nat.{mul-le-mul_right, add-mul, mul_assoc, mul_comm}
use bc250_vulkan_encode_stop.Base.{
  ℕ, ◌+◌, ◌-◌, ◌*◌, ◌/◌, ◌%◌, ◌^◌, ◌==◌, bit_and, ◌≤◌, ◌<◌, ◌≡◌, refl, ap, ◌∙◌, arith, false, List,
  length, get_or, if_split, ltb, tests,
}
use bc250_vulkan_encode_stop.Bits.{two_pow_add}
use bc250_vulkan_encode_stop.Cabac.{CabacEngine, put_out, cabac_putbyte}
use bc250_vulkan_encode_stop.Cabac.Value.{committed}
use bc250_vulkan_encode_stop.Cabac.Invariant.{IsOpen, Keeps, value, shifts, cabac_putbyte-Keeps}
use bc250_vulkan_encode_stop.Cabac.Exact.{Coder, IsState}

-- The exact coder that an engine stands for.
unfoldable pub view : CabacEngine → Coder
unfolding value shifts
view e = record { low = value e; range = e.range; shifts = shifts e; state = e.state }

unfoldable pub HasStates : List ℕ → Type 0
HasStates state = (length state ≡ 276) × ((i : ℕ) → i < 276 → IsState (get_or state i 0))

unfoldable pub IsCoder : CabacEngine → Type 0
unfolding HasStates
IsCoder e = (256 ≤ e.range) × (e.range ≤ 510) × (e.queue ≤ 8) × IsOpen e.range e × HasStates e.state

put_out-queue : (out : ℕ) (e : CabacEngine) → (put_out out e).queue ≡ e.queue
unfolding put_out
put_out-queue out e =
    if_split (λ (after : CabacEngine). after.queue ≡ e.queue) (out % 256 == 255) (λ h. refl)
      (λ h. refl)

cabac_putbyte-queue : (e : CabacEngine) → e.queue ≤ 16 → (cabac_putbyte e).queue ≤ 8
unfolding cabac_putbyte
cabac_putbyte-queue e h =
    if_split (λ (after : CabacEngine). after.queue ≤ 8) (ltb e.queue 9)
      (λ early. omega (tests, early))
      (λ late.
        let drained = record e {
          low = bit_and e.low (2 ^ (e.queue + 1) - 1);
          queue = e.queue - 8;
        } in
        omega (arith, put_out-queue (e.low / 2 ^ (e.queue + 1)) drained))

pub coder_eq :
    (c d : Coder)
    → c.low ≡ d.low
    → c.range ≡ d.range
    → c.shifts ≡ d.shifts
    → c.state ≡ d.state
    → c ≡ d
coder_eq c d h k l m = grind (arith, h, k, l, m)

-- The register after `s` shifts and the addition of `d`, with the range `r`.
abbrev pub moved : CabacEngine → ℕ → ℕ → ℕ → List ℕ → CabacEngine
moved e s d r state = record e {
  low = e.low * 2 ^ s + d;
  range = r;
  queue = e.queue + s;
  state = state;
}

scaled : (low range n d r t : ℕ) → low + range ≤ n → d + r ≤ range * t → low * t + d + r ≤ n * t
scaled low range n d r t h k =
    omega (arith, mul-le-mul_right {m = low + range} {n = n} t h, add-mul low range t)

pow_shift : (q s k : ℕ) → 2 ^ (q + s + k) ≡ 2 ^ (q + k) * 2 ^ s
pow_shift q s k =
    let swapped : q + s + k ≡ q + k + s = omega arith in
    ap (λ (n : ℕ). 2 ^ n) swapped ∙ two_pow_add (q + k) s ∙ mul_comm (2 ^ s) (2 ^ (q + k))

pub moved-IsOpen :
    (w : ℕ) (e : CabacEngine) (s d r : ℕ) (state : List ℕ)
    → IsOpen w e
    → d + r ≤ w * 2 ^ s
    → IsOpen r (moved e s d r state)
unfolding IsOpen
moved-IsOpen w e s d r state (window, first, last, byte) h = (
  omega (
    arith,
    scaled e.low w (3 * 2 ^ (e.queue + 8)) d r (2 ^ s) window h,
    pow_shift e.queue s 8,
    mul_assoc 3 (2 ^ (e.queue + 8)) (2 ^ s),
  ),
  λ empty. omega (
    arith,
    scaled e.low w (2 ^ (e.queue + 9)) d r (2 ^ s) (first empty) h,
    pow_shift e.queue s 9,
  ),
  last,
  byte,
)

pub moved-value :
    (e : CabacEngine) (s d r : ℕ) (state : List ℕ)
    → value (moved e s d r state) ≡ value e * 2 ^ s + d
unfolding value
moved-value e s d r state =
    let c = committed e.bytes_outstanding e.buffer.written in
    rw (pow_shift e.queue s 9) (
      omega (
        arith,
        mul_assoc c (2 ^ (e.queue + 9)) (2 ^ s),
        add-mul (c * 2 ^ (e.queue + 9)) e.low (2 ^ s),
      ))

pub moved-shifts :
    (e : CabacEngine) (s d r : ℕ) (state : List ℕ) → shifts (moved e s d r state) ≡ shifts e + s
unfolding shifts
moved-shifts e s d r state = omega arith

-- `after` is in order, stands for the coder `c`, and its bytes come from those of `e`.
unfoldable pub Reaches : CabacEngine → Coder → CabacEngine → Type 0
Reaches e c after =
    IsCoder after
    × (view after ≡ c)
    × (after.buffer.before ≡ e.buffer.before)
    × (e.buffer.overflow ≡ false)

pub moved-Reaches :
    (e : CabacEngine) (s d r : ℕ) (state : List ℕ)
    → IsCoder e
    → s ≤ 8
    → d + r ≤ e.range * 2 ^ s
    → 256 ≤ r
    → r ≤ 510
    → HasStates state
    → (cabac_putbyte (moved e s d r state)).buffer.overflow ≡ false
    → Reaches e
        (record { low = value e * 2 ^ s + d; range = r; shifts = shifts e + s; state = state })
        (cabac_putbyte (moved e s d r state))
unfolding Reaches IsCoder view Keeps
moved-Reaches e s d r state (low_range, high_range, queue, fits, has) small h low high states ok =
    let before_put = moved e s d r state in
    let (still, same_value, same_shifts, same_before, unflagged, same_range, same_state) =
      cabac_putbyte-Keeps r before_put (omega arith) (omega arith)
        (moved-IsOpen e.range e s d r state fits h) ok in
    (
      (
        rw same_range low,
        rw same_range high,
        cabac_putbyte-queue before_put (omega (arith, queue, small)),
        rw same_range still,
        rw same_state states,
      ),
      coder_eq (view (cabac_putbyte before_put))
          (record { low = value e * 2 ^ s + d; range = r; shifts = shifts e + s; state = state })
          (same_value ∙ moved-value e s d r state) same_range
          (same_shifts ∙ moved-shifts e s d r state) same_state,
      same_before,
      unflagged,
    )
