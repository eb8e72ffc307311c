-- ===== src/Cabac/Flush.antt =====
-- The end of a slice: what `cabac_encode_flush` of cabac.c writes behind the last bin.
use native.Mathlib.Nat.{mod-lt, pow-le-pow_right, mul_assoc}
use native.Mathlib.Decide.{dec_le}
use bc250_vulkan_encode_stop.Base.{
  ℕ, zero, suc, ◌+◌, ◌-◌, ◌*◌, ◌/◌, ◌%◌, ◌^◌, bit_and, bit_or, ◌≤◌, ◌<◌, ◌≡◌, ◌≢◌, ◌⊎◌, inl, inr,
  refl, ap, ◌∙◌, arith, true, false, ◌++◌, replicate, ◌==◌, ltb-false, lt→ltb, if_split,
}
use bc250_vulkan_encode_stop.Bits.{
  and_mask, or_fields, or_one, or_zero, or_set_bit, two_pow_add, two_pow_pos,
}
use bc250_vulkan_encode_stop.Cabac.{
  CabacEngine, OutBuffer, store, cabac_putbyte, put_out, flush_outstanding,
}
use bc250_vulkan_encode_stop.Cabac.Value.{store-written, replicate-last}
use bc250_vulkan_encode_stop.Cabac.Invariant.{IsOpen, Keeps, value, shifts, cabac_putbyte-Keeps}
use bc250_vulkan_encode_stop.Cabac.Exact.{Coder}
use bc250_vulkan_encode_stop.Cabac.Moves.{moved-IsOpen, moved-value, moved-shifts}

-- EncodeFlush of 9.3.4.5: the last number that the bin 1 leaves, with the stop bit.
unfoldable pub final_number : Coder → ℕ
final_number c = bit_or (c.low + (c.range - 2)) 1

pub or_one-even : (c a : ℕ) → bit_or (2 * c + a) 1 ≡ 2 * c + bit_or a 1
or_one-even c a = omega (arith, or_one (2 * c + a), or_one a)

one_bit : (dc : ℕ) → dc ≤ 1 → (dc ≡ 0) ⊎ (dc ≡ 1)
one_bit dc h = omega arith

-- With a full byte the don't-care bit is the stop bit itself.
aligned_full :
    (low q z dc : ℕ)
    → q ≡ 8
    → dc ≤ 1
    → low ≡ z * 2 ^ 9
    → (q ≡ 8 → z % 2 ≡ 1)
    → (d : ℕ) × (bit_or (low * 2 ^ (9 - q)) (dc * 2 ^ 10) ≡ low * 2 ^ (9 - q) + d)
      × (d + 1 ≤ 512 * 2 ^ (9 - q))
aligned_full low q z dc full bit multiple stop =
    let odd_stop : z ≡ 2 * (z / 2) + 1 = omega (arith, stop full) in
    let shifted : low * 2 ^ 1 ≡ (2 * (z / 2) + 1) * 2 ^ 10 = omega (arith, odd_stop, multiple) in
    let ored : bit_or ((2 * (z / 2) + 1) * 2 ^ 10) (dc * 2 ^ 10) ≡ (2 * (z / 2) + 1) * 2 ^ 10 =
      elim (one_bit dc bit) [
        | inl e ↦ rw e (or_zero ((2 * (z / 2) + 1) * 2 ^ 10))
        | inr e ↦ rw e (or_set_bit 10 (z / 2))
      ] in
    rw full (0, rw shifted (ored ∙ omega arith), omega arith)

aligned_part :
    (low q z dc : ℕ)
    → 1 ≤ q
    → q ≤ 7
    → dc ≤ 1
    → low ≡ z * 2 ^ 9
    → (d : ℕ) × (bit_or (low * 2 ^ (9 - q)) (dc * 2 ^ 10) ≡ low * 2 ^ (9 - q) + d)
      × (d + 1 ≤ 512 * 2 ^ (9 - q))
aligned_part low q z dc least most bit multiple =
    let four : 4 ≤ 2 ^ (9 - q) =
      pow-le-pow_right {n = 2} (omega arith) {i = 2} {j = 9 - q} (omega arith) in
    let wide = two_pow_add (9 - q) 9 in
    let shifted : low * 2 ^ (9 - q) ≡ z * 2 ^ (9 - q + 9) =
      rw (multiple, wide) (mul_assoc z (2 ^ 9) (2 ^ (9 - q))) in
    (
      dc * 2 ^ 10,
      rw shifted (or_fields (9 - q + 9) z (dc * 2 ^ 10) (omega (arith, wide, four, bit))),
      omega (arith, four, bit),
    )

-- The don't-care bit changes the register only below the stop bit.
pub aligned :
    (low q z dc : ℕ)
    → 1 ≤ q
    → q ≤ 8
    → dc ≤ 1
    → low ≡ z * 2 ^ 9
    → (q ≡ 8 → z % 2 ≡ 1)
    → (d : ℕ) × (bit_or (low * 2 ^ (9 - q)) (dc * 2 ^ 10) ≡ low * 2 ^ (9 - q) + d)
      × (d + 1 ≤ 512 * 2 ^ (9 - q))
aligned low q z dc least most bit multiple stop = elim (dec_le 8 q) [
  | yes last ↦ aligned_full low q z dc (omega (arith, last, most)) bit multiple stop
  | no more ↦ aligned_part low q z dc least (omega (arith, more)) bit multiple
]

-- The register moved to the left by `s` bits, and a byte put out.
pub shifted-Keeps :
    (w : ℕ) (e : CabacEngine) (s d r low queue : ℕ)
    → IsOpen w e
    → low ≡ e.low * 2 ^ s + d
    → queue ≡ e.queue + s
    → d + r ≤ w * 2 ^ s
    → 1 ≤ r
    → r ≤ 512
    → (cabac_putbyte (record e { low = low; queue = queue })).buffer.overflow ≡ false
    → IsOpen r (cabac_putbyte (record e { low = low; queue = queue }))
      × (value (cabac_putbyte (record e { low = low; queue = queue })) ≡ value e * 2 ^ s + d)
      × (shifts (cabac_putbyte (record e { low = low; queue = queue })) ≡ shifts e + s)
      × ((cabac_putbyte (record e { low = low; queue = queue })).buffer.before ≡ e.buffer.before)
unfolding Keeps IsOpen value shifts
shifted-Keeps w e s d r low queue fits same_low same_queue h least most ok =
    let start = moved-IsOpen w e s d r e.state fits h in
    let opened : IsOpen r (record e { low = low; queue = queue }) =
      rw (same_low, same_queue) start in
    let (still, same_value, same_shifts, same_before, unflagged, same_range, same_state) =
      cabac_putbyte-Keeps r (record e { low = low; queue = queue }) least most opened ok in
    let valued : value (record e { low = low; queue = queue }) ≡ value e * 2 ^ s + d =
      rw (same_low, same_queue) (moved-value e s d r e.state) in
    let counted : shifts (record e { low = low; queue = queue }) ≡ shifts e + s =
      rw same_queue (moved-shifts e s d r e.state) in
    (still, same_value ∙ valued, same_shifts ∙ counted, same_before)

-- A byte goes out when the queue is full, and the register keeps the bits below it.
put_out-registers :
    (out : ℕ) (e : CabacEngine) → ((put_out out e).queue ≡ e.queue) × ((put_out out e).low ≡ e.low)
unfolding put_out
put_out-registers out e =
    if_split (λ (after : CabacEngine). (after.queue ≡ e.queue) × (after.low ≡ e.low))
      (out % 256 == 255) (λ h. (refl, refl)) (λ h. (refl, refl))

pub cabac_putbyte-drains :
    (e : CabacEngine)
    → 9 ≤ e.queue
    → ((cabac_putbyte e).queue ≡ e.queue - 8) × ((cabac_putbyte e).low < 2 ^ (e.queue + 1))
unfolding cabac_putbyte
cabac_putbyte-drains e h =
    let n = e.queue + 1 in
    let drained = record e { low = bit_and e.low (2 ^ n - 1); queue = e.queue - 8 } in
    let (queue, low) = put_out-registers (e.low / 2 ^ n) drained in
    rw (ltb-false e.queue 9 h) (queue, rw (low, and_mask n e.low) (mod-lt e.low (two_pow_pos n)))

pub cabac_putbyte-idle : (e : CabacEngine) → e.queue < 9 → cabac_putbyte e ≡ e
unfolding cabac_putbyte
cabac_putbyte-idle e h = rw (lt→ltb e.queue 9 h) refl

full_store : (byte : ℕ) (b : OutBuffer) → (b.room == 0) ≡ true → (store byte b).overflow ≢ false
unfolding store
full_store byte b full ok = ground arith

pub flush_outstanding-written :
    (n : ℕ) (e : CabacEngine)
    → (flush_outstanding n e).buffer.overflow ≡ false
    → ((flush_outstanding n e).buffer.written ≡ replicate n 255 ++ e.buffer.written)
      × (e.buffer.overflow ≡ false)
      × ((flush_outstanding n e).buffer.before ≡ e.buffer.before)
unfolding flush_outstanding
flush_outstanding-written zero e = λ ok. (refl, ok, refl)
flush_outstanding-written (suc n) e =
    let stored = record e { buffer = store 255 e.buffer; bytes_outstanding = n } in
    if_split
      (λ (after : CabacEngine).
        after.buffer.overflow ≡ false
        → (after.buffer.written ≡ replicate (suc n) 255 ++ e.buffer.written)
          × (e.buffer.overflow ≡ false)
          × (after.buffer.before ≡ e.buffer.before))
      (e.buffer.room == 0) (λ full ok. absurd (full_store 255 e.buffer full ok))
      (λ more ok.
        let (times, ok_times, kept) = flush_outstanding-written n stored ok in
        let (one, ok_one, kept_one) = store-written 255 e.buffer ok_times in
        (
          times ∙ ap (λ l. replicate n 255 ++ l) one ∙ replicate-last n 255 e.buffer.written,
          ok_one,
          kept ∙ kept_one,
        ))
