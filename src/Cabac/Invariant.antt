-- ===== src/Cabac/Invariant.antt =====
-- The invariant of the engine in cabac.c: the register and the bytes leave no carry that the
-- bytes already written could not take.
use native.Mathlib.Nat.{div-add-mod', mod-lt, div-lt_iff_lt-mul, pow-le-pow_right}
use bc250_vulkan_encode_stop.Base.{
  ℕ, suc, ◌+◌, ◌-◌, ◌*◌, ◌/◌, ◌%◌, ◌^◌, bit_and, ◌≤◌, ◌<◌, ◌≡◌, ◌≢◌, refl, sym, ap, ◌∙◌, arith,
  false, [], length, ltb, ◌==◌, if_split, ==_iff, ==-differs, ltb_false→le,
}
use bc250_vulkan_encode_stop.Bits.{and_mask, two_pow_pos, two_pow_add}
use bc250_vulkan_encode_stop.Cabac.{CabacEngine, put_bytes, put_out, cabac_putbyte}
use bc250_vulkan_encode_stop.Cabac.Value.{
  committed, ones-committed, LastBelow, Absorbs, put_bytes-Absorbs,
}

-- The number the engine stands for, and the number of shifts its register has had.
unfoldable pub value : CabacEngine → ℕ
value e = committed e.bytes_outstanding e.buffer.written * 2 ^ (e.queue + 9) + e.low

unfoldable pub shifts : CabacEngine → ℕ
shifts e = e.queue + 8 * (e.bytes_outstanding + length e.buffer.written)

-- The interval of width `w` at the register reaches no carry that is lost: not above the one bit
-- in front of a byte, and above no bit at all while there is no byte.
unfoldable pub IsOpen : ℕ → CabacEngine → Type 0
IsOpen w e =
    (e.low + w ≤ 3 * 2 ^ (e.queue + 8))
    × (e.buffer.written ≡ [] → e.low + w ≤ 2 ^ (e.queue + 9))
    × LastBelow e.buffer.written
    × (e.buffer.before < 256)

power_at : (n p k : ℕ) → n ≡ p + k → 2 ^ n ≡ 2 ^ k * 2 ^ p
power_at n p k e = ap (λ (t : ℕ). 2 ^ t) e ∙ two_pow_add p k

-- The powers of a queue that gives a byte out, at 2^(queue - 8).
queue_powers :
    (q : ℕ)
    → 9 ≤ q
    → (2 ^ (q + 8) ≡ 65536 * 2 ^ (q - 8))
      × (2 ^ (q + 9) ≡ 131072 * 2 ^ (q - 8))
      × (2 ^ (q + 1) ≡ 512 * 2 ^ (q - 8))
      × (2 ^ (q - 8 + 9) ≡ 512 * 2 ^ (q - 8))
      × (2 ^ (q - 8 + 8) ≡ 256 * 2 ^ (q - 8))
      × (2 ≤ 2 ^ (q - 8))
queue_powers q h = (
  power_at (q + 8) (q - 8) 16 (omega arith),
  power_at (q + 9) (q - 8) 17 (omega arith),
  power_at (q + 1) (q - 8) 9 (omega arith),
  two_pow_add (q - 8) 9,
  two_pow_add (q - 8) 8,
  pow-le-pow_right {n = 2} (omega arith) {i = 1} {j = q - 8} (omega arith),
)

-- What `cabac_putbyte` keeps, at an interval of width `w`.
unfoldable pub Keeps : ℕ → CabacEngine → CabacEngine → Type 0
unfolding value shifts IsOpen
Keeps w e after =
    IsOpen w after
    × (value after ≡ value e)
    × (shifts after ≡ shifts e)
    × (after.buffer.before ≡ e.buffer.before)
    × (e.buffer.overflow ≡ false)
    × (after.range ≡ e.range)
    × (after.state ≡ e.state)

module _ (w : ℕ) (e : CabacEngine) (positive : 1 ≤ w) (narrow : w ≤ 512) (wide : 9 ≤ e.queue) where
  -- The byte with its carry, and what stays in the register.
  abbrev out : ℕ
  out = e.low / 2 ^ (e.queue + 1)

  abbrev kept : ℕ
  kept = bit_and e.low (2 ^ (e.queue + 1) - 1)

  split_low : (out * 2 ^ (e.queue + 1) + kept ≡ e.low) × (kept < 2 ^ (e.queue + 1))
  split_low =
      rw (and_mask (e.queue + 1) e.low)
        (div-add-mod' e.low (2 ^ (e.queue + 1)), mod-lt e.low (two_pow_pos (e.queue + 1)))

  out_below : (n : ℕ) → e.low < n * 2 ^ (e.queue + 1) → out < n
  out_below n h =
      (div-lt_iff_lt-mul {k = 2 ^ (e.queue + 1)} {x = e.low} {y = n} (two_pow_pos (e.queue + 1))).1
        h

  out_bounds : IsOpen w e → (out ≤ 383) × (256 ≤ out → e.buffer.written ≢ [])
  unfolding IsOpen
  out_bounds (window, first, last, byte) =
      let (p8, p9, p1, n9, n8, two) = queue_powers e.queue wide in
      (
        let below : out < 384 = out_below 384 (omega (arith, p8, p1)) in omega arith,
        λ big empty.
            let below : out < 256 = out_below 256 (omega (arith, first empty, p9, p1)) in
            omega arith,
      )

  abbrev drained : CabacEngine
  drained = record e { low = kept; queue = e.queue - 8 }

  kept_window : kept + w ≤ 3 * 2 ^ (e.queue - 8 + 8)
  kept_window =
      let (p8, p9, p1, n9, n8, two) = queue_powers e.queue wide in
      let (sum, small) = split_low in omega (arith, sum, small, p1, n8)

  -- The number, as bytes in front of the byte that goes out.
  value-out :
      (c : ℕ) → (c * 256 + out) * 2 ^ (e.queue - 8 + 9) + kept ≡ c * 2 ^ (e.queue + 9) + e.low
  value-out c =
      let (p8, p9, p1, n9, n8, two) = queue_powers e.queue wide in
      let (sum, small) = split_low in
      let lower : 2 ^ (e.queue - 8 + 9) ≡ 2 ^ (e.queue + 1) = omega (arith, p1, n9) in
      let upper : 2 ^ (e.queue + 9) ≡ 256 * 2 ^ (e.queue + 1) = omega (arith, p9, p1) in
      rw (lower, upper) (grind (arith, sum))

  ones-Keeps :
      out % 256 ≡ 255
      → e.buffer.overflow ≡ false
      → IsOpen w e
      → Keeps w e (record drained { bytes_outstanding = suc e.bytes_outstanding })
  unfolding Keeps IsOpen value shifts
  ones-Keeps ones ok fits =
      let (window, first, last, byte) = fits in
      let (bound, some_byte) = out_bounds fits in
      let all_ones : out ≡ 255 = omega (arith, ones, bound) in
      let (p8, p9, p1, n9, n8, two) = queue_powers e.queue wide in
      let (sum, small) = split_low in
      let k = e.bytes_outstanding in
      let c = committed k e.buffer.written in
      let product = ap (λ (t : ℕ). t * 2 ^ (e.queue + 1)) all_ones in
      (
        (kept_window, λ empty. omega (arith, first empty, sum, product, p9, p1, n9), last, byte),
        ap (λ (t : ℕ). t * 2 ^ (e.queue - 8 + 9) + kept)
              (ones-committed k e.buffer.written ∙ ap (λ (t : ℕ). c * 256 + t) (sym all_ones))
            ∙ value-out c,
        omega (arith, wide),
        refl,
        ok,
        refl,
        refl,
      )

  bytes-Keeps :
      out % 256 ≢ 255
      → (put_bytes e.bytes_outstanding out e.buffer).overflow ≡ false
      → IsOpen w e
      → Keeps w e (record drained {
        buffer = put_bytes e.bytes_outstanding out e.buffer;
        bytes_outstanding = 0;
      })
  unfolding Keeps IsOpen value shifts Absorbs
  bytes-Keeps not_ones ok fits =
      let (window, first, last, byte) = fits in
      let (bound, some_byte) = out_bounds fits in
      let k = e.bytes_outstanding in
      let c = committed k e.buffer.written in
      let (sum, last_after, unflagged, kept_before, nonempty, count) =
        put_bytes-Absorbs k out e.buffer byte last bound not_ones some_byte ok in
      (
        (kept_window, λ empty. absurd (nonempty empty), last_after, rw kept_before byte),
        ap (λ (t : ℕ). t * 2 ^ (e.queue - 8 + 9) + kept) sum ∙ value-out c,
        omega (arith, wide, count),
        kept_before,
        unflagged,
        refl,
        refl,
      )

  put_out-Keeps :
      IsOpen w e → (put_out out drained).buffer.overflow ≡ false → Keeps w e (put_out out drained)
  unfolding put_out
  put_out-Keeps fits =
      if_split (λ (after : CabacEngine). after.buffer.overflow ≡ false → Keeps w e after)
        (out % 256 == 255) (λ ones fine. ones-Keeps ((==_iff (out % 256) 255).0 ones) fine fits)
        (λ other fine. bytes-Keeps (==-differs (out % 256) 255 other) fine fits)

Keeps-refl : (w : ℕ) (e : CabacEngine) → IsOpen w e → e.buffer.overflow ≡ false → Keeps w e e
unfolding Keeps
Keeps-refl w e fits ok = (fits, refl, refl, refl, ok, refl, refl)

-- At an interval of width 1..512 that leaves no lost carry, cabac_putbyte without overflow keeps
-- the number that bytes, outstanding bytes and register stand for, the count of shifts, that
-- interval, the range and the states, and leaves the byte in front of the slice as it was.
pub cabac_putbyte-Keeps :
    (w : ℕ) (e : CabacEngine)
    → 1 ≤ w
    → w ≤ 512
    → IsOpen w e
    → (cabac_putbyte e).buffer.overflow ≡ false
    → Keeps w e (cabac_putbyte e)
unfolding cabac_putbyte
cabac_putbyte-Keeps w e positive narrow fits =
    if_split (λ (after : CabacEngine). after.buffer.overflow ≡ false → Keeps w e after)
      (ltb e.queue 9) (λ early fine. Keeps-refl w e fits fine)
      (λ late fine. put_out-Keeps w e positive narrow (ltb_false→le e.queue 9 late) fits fine)
