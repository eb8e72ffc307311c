-- ===== src/Cabac/Final.antt =====
-- The bytes that `cabac_encode_flush` of cabac.c leaves: their number lies in the interval of the
-- last bin, where the decoder finds the bin 1.
use native.Mathlib.Nat.{div-lt_iff_lt-mul, le-div_iff_mul-le, suc-mul}
use native.Mathlib.Decide.{dec_le}
use bc250_vulkan_encode_stop.Base.{
  ℕ, suc, ◌+◌, ◌-◌, ◌*◌, ◌/◌, ◌%◌, ◌^◌, bit_and, bit_or, ◌≤◌, ◌<◌, ◌≡◌, refl, ap, ◌∙◌, arith, false,
  List, [], ◌∷◌, ◌++◌, length, length-append, length-replicate, replicate,
}
use bc250_vulkan_encode_stop.Bits.{and_mask, or_one, two_pow_add, two_pow_pos, two_pow_suc}
use bc250_vulkan_encode_stop.Cabac.{
  CabacEngine, cabac_putbyte, flush_low, flush_align, cabac_encode_flush,
}
use bc250_vulkan_encode_stop.Cabac.Value.{committed, base256, Bytes, LastBelow, Bytes-replicate}
use bc250_vulkan_encode_stop.Cabac.Invariant.{IsOpen, Keeps, value, shifts, cabac_putbyte-Keeps}
use bc250_vulkan_encode_stop.Cabac.Exact.{Coder}
use bc250_vulkan_encode_stop.Cabac.Moves.{view, IsCoder}
use bc250_vulkan_encode_stop.Cabac.Sequence.{cabac_putbyte-unflagged}
use bc250_vulkan_encode_stop.Cabac.Flush.{
  final_number, or_one-even, aligned, shifted-Keeps, cabac_putbyte-drains, cabac_putbyte-idle,
  flush_outstanding-written,
}

pub odd_up :
    (a low range : ℕ)
    → 2 ≤ range
    → a ≡ low + (range - 2)
    → (low ≤ bit_or a 1) × (bit_or a 1 + 1 ≤ low + range)
odd_up a low range h same = omega (arith, or_one a, same, h)

final-value :
    (e : CabacEngine)
    → final_number (view e)
      ≡ committed e.bytes_outstanding e.buffer.written * 2 ^ (e.queue + 9)
        + bit_or (e.low + (e.range - 2)) 1
unfolding final_number view value
final-value e =
    let c = committed e.bytes_outstanding e.buffer.written in
    let a = e.low + (e.range - 2) in
    let power : 2 ^ (e.queue + 9) ≡ 2 * 2 ^ (e.queue + 8) =
      omega (arith, two_pow_add e.queue 9, two_pow_add e.queue 8) in
    let even : c * 2 ^ (e.queue + 9) ≡ 2 * (c * 2 ^ (e.queue + 8)) =
      ap (λ (t : ℕ). c * t) power ∙ omega arith in
    let sum : c * 2 ^ (e.queue + 9) + e.low + (e.range - 2) ≡ 2 * (c * 2 ^ (e.queue + 8)) + a =
      omega (arith, even) in
    ap (λ (t : ℕ). bit_or t 1) sum ∙ or_one-even (c * 2 ^ (e.queue + 8)) a ∙ omega (arith, even)

final-above :
    (e : CabacEngine)
    → e.low ≤ bit_or (e.low + (e.range - 2)) 1
    → final_number (view e) ≡ value e + (bit_or (e.low + (e.range - 2)) 1 - e.low)
unfolding value
final-above e h = omega (arith, final-value e, h)

-- The register and the bytes after the first of the three calls.
flush_low-Keeps :
    (e : CabacEngine)
    → IsCoder e
    → (cabac_putbyte (flush_low e)).buffer.overflow ≡ false
    → IsOpen 512 (cabac_putbyte (flush_low e))
      × (value (cabac_putbyte (flush_low e)) ≡ final_number (view e) * 2 ^ 9)
      × (shifts (cabac_putbyte (flush_low e)) ≡ shifts e + 9)
      × ((cabac_putbyte (flush_low e)).buffer.before ≡ e.buffer.before)
      × ((cabac_putbyte (flush_low e)).queue ≡ e.queue + 1)
unfolding flush_low IsCoder
flush_low-Keeps e (low, high, queue, fits, has) ok =
    let last = bit_or (e.low + (e.range - 2)) 1 in
    let (above, below) = odd_up (e.low + (e.range - 2)) e.low e.range (omega (arith, low)) refl in
    let d = (last - e.low) * 2 ^ 9 in
    let (still, same_value, same_shifts, same_before) =
      shifted-Keeps e.range e 9 d 512 (last * 2 ^ 9) (e.queue + 9) fits (omega (arith, above)) refl
        (omega (arith, above, below)) (omega arith) (omega arith) ok in
    let (queue_after, low_after) =
      cabac_putbyte-drains (record e { low = last * 2 ^ 9; queue = e.queue + 9 }) (omega arith) in
    (
      still,
      same_value ∙ omega (arith, final-above e above),
      same_shifts,
      same_before,
      queue_after ∙ omega arith,
    )

-- The last number is in the register and the bytes, and less than a byte is in the queue.
unfoldable Prepared : CabacEngine → CabacEngine → Type 0
Prepared e a =
    IsOpen 512 a
    × (value a ≡ final_number (view e) * 2 ^ 9)
    × (shifts a ≡ shifts e + 9)
    × (a.buffer.before ≡ e.buffer.before)
    × (1 ≤ a.queue)
    × (a.queue ≤ 8)

second_queue :
    (e : CabacEngine)
    → 1 ≤ e.queue
    → e.queue ≤ 9
    → (1 ≤ (cabac_putbyte e).queue) × ((cabac_putbyte e).queue ≤ 8)
second_queue e least most = elim (dec_le 9 e.queue) [
  | yes full ↦
      let (queue, low) = cabac_putbyte-drains e full in (omega (arith, queue), omega (arith, queue))
  | no more ↦ rw (cabac_putbyte-idle e (omega (arith, more))) (least, omega (arith, more))
]

prepared :
    (e : CabacEngine)
    → IsCoder e
    → (cabac_putbyte (cabac_putbyte (flush_low e))).buffer.overflow ≡ false
    → Prepared e (cabac_putbyte (cabac_putbyte (flush_low e)))
unfolding Prepared Keeps IsCoder
prepared e coding ok =
    let a = cabac_putbyte (flush_low e) in
    let (fits, first_value, first_shifts, first_before, queue) =
      flush_low-Keeps e coding (cabac_putbyte-unflagged a ok) in
    let (still, same_value, same_shifts, same_before, unflagged, same_range, same_state) =
      cabac_putbyte-Keeps 512 a (omega arith) (omega arith) fits ok in
    let (least, most) = second_queue a (omega (arith, queue)) (omega (arith, queue, coding.2)) in
    (
      still,
      same_value ∙ first_value,
      same_shifts ∙ first_shifts,
      same_before ∙ first_before,
      least,
      most,
    )

-- The bits of the register behind the last number are 0, and its own last bit is the stop bit.
register_end :
    (e a : CabacEngine)
    → final_number (view e) % 2 ≡ 1
    → Prepared e a
    → (a.low ≡ a.low / 2 ^ 9 * 2 ^ 9) × (a.queue ≡ 8 → a.low / 2 ^ 9 % 2 ≡ 1)
unfolding Prepared value
register_end e a stop (fits, same_value, same_shifts, same_before, least, most) =
    let c = committed a.bytes_outstanding a.buffer.written in
    let power = ap (λ (t : ℕ). c * t) (two_pow_add a.queue 9) in
    let spread : c * (512 * 2 ^ a.queue) ≡ 512 * (c * 2 ^ a.queue) = omega arith in
    (
      omega (arith, same_value, power, spread),
      λ full.
          let eight : c * 2 ^ a.queue ≡ c * 256 = ap (λ (t : ℕ). c * 2 ^ t) full in
          omega (arith, same_value, power, spread, eight, stop),
    )

-- Everything but the outstanding bytes is written, `q` bits of the last byte before the last number's end.
unfoldable pub Finished : CabacEngine → ℕ → CabacEngine → Type 0
Finished e q a =
    IsOpen 1 a
    × ((d : ℕ) × (value a ≡ final_number (view e) * 2 ^ 9 * 2 ^ (9 - q) + d)
        × (d + 1 ≤ 512 * 2 ^ (9 - q)))
    × (shifts a ≡ shifts e + 9 + (9 - q))
    × (a.buffer.before ≡ e.buffer.before)
    × (a.queue ≡ 1)
    × (a.low < 2 ^ 10)

flush_align-Finished :
    (e a : CabacEngine) (frame_count : ℕ)
    → final_number (view e) % 2 ≡ 1
    → Prepared e a
    → (cabac_putbyte (flush_align frame_count a)).buffer.overflow ≡ false
    → Finished e a.queue (cabac_putbyte (flush_align frame_count a))
unfolding Finished Prepared flush_align
flush_align-Finished e a frame_count stop ready ok =
    let (fits, same_value, same_shifts, same_before, least, most) = ready in
    let (multiple, odd_end) = register_end e a stop ready in
    let dc = bit_and (0x35a4e4f5 / 2 ^ bit_and frame_count 31) 1 in
    let bit : dc ≤ 1 = omega (arith, and_mask 1 (0x35a4e4f5 / 2 ^ bit_and frame_count 31)) in
    let (d, same_low, small) =
      aligned a.low a.queue (a.low / 2 ^ 9) dc least most bit multiple odd_end in
    let low = bit_or (a.low * 2 ^ (9 - a.queue)) (dc * 2 ^ 10) in
    let (still, new_value, new_shifts, new_before) =
      shifted-Keeps 512 a (9 - a.queue) d 1 low 9 fits same_low (omega (arith, most)) small
        (omega arith) (omega arith) ok in
    let (queue, drained) = cabac_putbyte-drains (record a { low = low; queue = 9 }) (omega arith) in
    (
      still,
      (d, new_value ∙ ap (λ (t : ℕ). t * 2 ^ (9 - a.queue) + d) same_value, small),
      new_shifts ∙ omega (arith, same_shifts),
      new_before ∙ same_before,
      queue,
      drained,
    )

quotient_between : (x n u : ℕ) → 1 ≤ u → n * u ≤ x → x < n * u + u → x / u ≡ n
quotient_between x n u positive low high =
    let at_least = (le-div_iff_mul-le {k = u} {x = n} {y = x} positive).1 low in
    let below =
      (div-lt_iff_lt-mul {k = u} {x = x} {y = suc n} positive).1
        (omega (arith, high, suc-mul n u)) in
    omega (arith, at_least, below)

Finished-number :
    (e : CabacEngine) (q : ℕ) (a : CabacEngine)
    → 1 ≤ q
    → q ≤ 8
    → Finished e q a
    → (base256 (replicate a.bytes_outstanding 255 ++ a.buffer.written) / 2 ^ (8 - q)
        ≡ final_number (view e))
      × (8 * length (replicate a.bytes_outstanding 255 ++ a.buffer.written)
          ≡ 9 + shifts e + (8 - q))
unfolding Finished value committed shifts
Finished-number e q a least most (fits, (d, same_value, small), same_shifts, kept, queue, low) =
    let x = base256 (replicate a.bytes_outstanding 255 ++ a.buffer.written) in
    let n = final_number (view e) in
    let u = 2 ^ (8 - q) in
    let exponent : 9 - q ≡ suc (8 - q) = omega (arith, most) in
    let twice : 2 ^ (9 - q) ≡ 2 * u = ap (λ (t : ℕ). 2 ^ t) exponent ∙ two_pow_suc (8 - q) in
    let register : x * 2 ^ (a.queue + 9) ≡ x * 1024 = ap (λ (t : ℕ). x * 2 ^ (t + 9)) queue in
    let scaled : n * 2 ^ 9 * 2 ^ (9 - q) ≡ 1024 * (n * u) =
      ap (λ (t : ℕ). n * 512 * t) twice ∙ omega arith in
    (
      quotient_between x n u (two_pow_pos (8 - q))
          (omega (arith, same_value, register, scaled, low))
          (omega (arith, same_value, register, scaled, twice, small)),
      omega (
        arith,
        length-append (replicate {A = ℕ} a.bytes_outstanding 255) a.buffer.written,
        length-replicate {A = ℕ} a.bytes_outstanding 255,
        same_shifts,
        queue,
        most,
      ),
    )

last-Bytes : (ws : List ℕ) → LastBelow ws → Bytes ws
unfolding LastBelow Bytes
last-Bytes [] h = tt
last-Bytes (w ∷ ws) (h, all) = (omega (arith, h), all)

final-odd : (c : Coder) → final_number c % 2 ≡ 1
unfolding final_number
final-odd c = omega (arith, or_one (c.low + (c.range - 2)))

-- What the flush leaves: whole bytes whose number begins with the last number of the coder.
pub cabac_encode_flush-number :
    (e : CabacEngine) (frame_count : ℕ)
    → IsCoder e
    → (cabac_encode_flush e frame_count).buffer.overflow ≡ false
    → (k : ℕ) × (base256 (cabac_encode_flush e frame_count).buffer.written / 2 ^ k
        ≡ final_number (view e))
      × (8 * length (cabac_encode_flush e frame_count).buffer.written ≡ 9 + shifts e + k)
      × Bytes (cabac_encode_flush e frame_count).buffer.written
      × ((cabac_encode_flush e frame_count).buffer.before ≡ e.buffer.before)
unfolding cabac_encode_flush Prepared Finished IsOpen
cabac_encode_flush-number e frame_count coding ok =
    let second = cabac_putbyte (cabac_putbyte (flush_low e)) in
    let aligned_register = flush_align frame_count second in
    let whole = cabac_putbyte aligned_register in
    let (all, unflagged, kept) = flush_outstanding-written whole.bytes_outstanding whole ok in
    let ready = prepared e coding (cabac_putbyte-unflagged aligned_register unflagged) in
    let finished = flush_align-Finished e second frame_count (final-odd (view e)) ready unflagged in
    let (number, count) = Finished-number e second.queue whole ready.4 ready.5 finished in
    (
      8 - second.queue,
      rw all number,
      rw all count,
      rw all (
          Bytes-replicate whole.bytes_outstanding 255 whole.buffer.written (omega arith)
            (last-Bytes whole.buffer.written finished.0.2)),
      kept ∙ finished.3,
    )
