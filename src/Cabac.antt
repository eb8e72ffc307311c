-- ===== src/Cabac.antt =====
-- The arithmetic coder of H.264's CABAC: the engine of cabac.c and cabac.h that puts out bins.
-- The field `queue` is i_queue + 9, which is never negative. The pointers p_start, p and p_end are a
-- buffer: `written` are the bytes from p_start to p, the last one first, `before` is the byte in
-- front of p_start, and `room` is p_end - p.
pub mod Tables
pub mod Initial
pub mod Value
pub mod Invariant
pub mod Exact
pub mod Moves
pub mod Steps
pub mod Decoder
pub mod Inverse
pub mod Sequence
pub mod Flush
pub mod Final
pub mod RoundTrip
pub mod Room
pub mod Contexts
pub mod Escape
pub mod Golomb
pub mod Elements
pub mod Binarization
pub mod Residual
pub mod Levels
pub mod Coded
use bc250_vulkan_encode_stop.Base.{
  ℕ, zero, suc, ◌+◌, ◌-◌, ◌*◌, ◌/◌, ◌%◌, ◌^◌, bit_and, bit_or, List, [], ◌∷◌, map, Bool, true,
  false, if◌then◌else◌, ltb, leb, ◌==◌, set, get_or,
}
use bc250_vulkan_encode_stop.Base.Int.{ℤ, pos, negsuc, pos_part, neg_part, ◌+ℤ◌, ◌*ℤ◌, ltb_ℤ}
use bc250_vulkan_encode_stop.Bits.{odd, bit_value}
use Tables.{cabac_range_lps, cabac_transition, cabac_renorm_shift, cabac_bypass_lut}
use Initial.{cabac_init_i, cabac_init_pb0}

pub record OutBuffer : Type 0 where
  pub before : ℕ
  pub written : List ℕ
  pub room : ℕ
  pub overflow : Bool

pub record CabacEngine : Type 0 where
  pub low : ℕ
  pub range : ℕ
  pub queue : ℕ
  pub bytes_outstanding : ℕ
  pub buffer : OutBuffer
  pub state : List ℕ

-- `*(p++) = byte` with the check against p_end.
unfoldable pub store : ℕ → OutBuffer → OutBuffer
store byte b =
    if b.room == 0
    then record b { overflow = true }
    else record b { written = byte ∷ b.written; room = b.room - 1 }

-- The loop over the outstanding bytes; at the end of the buffer nothing more is written.
unfoldable pub store_times : ℕ → ℕ → OutBuffer → OutBuffer
unfolding store
store_times zero byte b = b
store_times (suc n) byte b = store_times n byte (store byte b)

-- `p[-1] += carry`, on the last byte or on the one before p_start.
unfoldable pub add_to_last : ℕ → List ℕ → OutBuffer → OutBuffer
add_to_last carry [] b = record b { before = (b.before + carry) % 256 }
add_to_last carry (last ∷ others) b = record b { written = (last + carry) % 256 ∷ others }

-- The bytes of the branch that writes: the carry, the outstanding bytes and the new one.
unfoldable pub put_bytes : ℕ → ℕ → OutBuffer → OutBuffer
unfolding store store_times add_to_last
put_bytes bytes_outstanding out b =
    let carry = out / 256 in
    store (out % 256)
      (store_times bytes_outstanding ((carry + 255) % 256) (add_to_last carry b.written b))

-- What `cabac_putbyte` does with the bits above the queue.
unfoldable pub put_out : ℕ → CabacEngine → CabacEngine
unfolding put_bytes
put_out out e =
    if out % 256 == 255
    then record e { bytes_outstanding = suc e.bytes_outstanding }
    else record e { buffer = put_bytes e.bytes_outstanding out e.buffer; bytes_outstanding = 0 }

unfoldable pub cabac_putbyte : CabacEngine → CabacEngine
unfolding put_out
cabac_putbyte e =
    if ltb e.queue 9
    then e
    else put_out (e.low / 2 ^ (e.queue + 1))
        (record e { low = bit_and e.low (2 ^ (e.queue + 1) - 1); queue = e.queue - 8 })

unfoldable pub cabac_encode_renorm : CabacEngine → CabacEngine
unfolding cabac_putbyte cabac_renorm_shift
cabac_encode_renorm e =
    let shift = get_or cabac_renorm_shift (e.range / 8) 0 in
    cabac_putbyte
      (record e { range = e.range * 2 ^ shift; low = e.low * 2 ^ shift; queue = e.queue + shift })

-- `cabac_range_lps[i_state >> 1][(i_range >> 6) - 4]`.
unfoldable pub range_lps : ℕ → ℕ → ℕ
unfolding cabac_range_lps
range_lps i_state range = get_or (get_or cabac_range_lps (i_state / 2) []) (range / 64 - 4) 0

-- `cabac_transition[i_state][bit]`.
unfoldable pub next_state : ℕ → Bool → ℕ
unfolding cabac_transition
next_state i_state bit =
    let (after_zero, after_one) = get_or cabac_transition i_state (0, 0) in
    if bit then after_one else after_zero

unfoldable pub differs : Bool → Bool → Bool
differs true b = if b then false else true
differs false b = b

-- The part of the interval for a less probable bin, or else the rest.
unfoldable pub take_part : CabacEngine → Bool → ℕ → CabacEngine
take_part e is_lps i_range_lps =
    let range = e.range - i_range_lps in
    if is_lps
    then record e { low = e.low + range; range = i_range_lps }
    else record e { range = range }

unfoldable pub cabac_encode_decision : CabacEngine → ℕ → Bool → CabacEngine
unfolding range_lps next_state differs take_part cabac_encode_renorm
cabac_encode_decision e ctx_idx bit =
    let i_state = get_or e.state ctx_idx 0 in
    let coded = take_part e (differs bit (odd i_state)) (range_lps i_state e.range) in
    cabac_encode_renorm (record coded { state = set e.state ctx_idx (next_state i_state bit) })

unfoldable pub cabac_encode_bypass : CabacEngine → Bool → CabacEngine
unfolding cabac_putbyte
cabac_encode_bypass e bit =
    cabac_putbyte (record e { low = e.low * 2 + (if bit then e.range else 0); queue = e.queue + 1 })

unfoldable pub cabac_encode_terminal : CabacEngine → CabacEngine
unfolding cabac_encode_renorm
cabac_encode_terminal e = cabac_encode_renorm (record e { range = e.range - 2 })

-- The body of the loop of `cabac_encode_ue_bypass`, with `i` more bits of `x`.
unfoldable pub put_bits : CabacEngine → ℕ → ℕ → ℕ → CabacEngine
unfolding cabac_putbyte
put_bits e x i k = cabac_putbyte (record e {
  low = e.low * 2 ^ i + bit_and (x / 2 ^ (k - i)) 255 * e.range;
  queue = e.queue + i;
})

-- `do { k -= i; ...; i = 8; } while (k > 0)` on fuel.
unfoldable pub ue_bypass_loop : ℕ → CabacEngine → ℕ → ℕ → ℕ → CabacEngine
unfolding put_bits
ue_bypass_loop zero e x i k = e
ue_bypass_loop (suc fuel) e x i k =
    let after = ue_bypass_loop fuel (put_bits e x i k) x 8 (k - i) in
    if ltb 0 (k - i) then after else put_bits e x i k

-- `cabac_clz32`: the shifts that bring the highest bit to the front; 32 of them are enough.
unfoldable pub clz32_loop : ℕ → ℕ → ℕ → ℕ
clz32_loop zero x n = n
clz32_loop (suc fuel) x n =
    let after = clz32_loop fuel (x * 2 % 2 ^ 32) (n + 1) in
    if bit_and x (2 ^ 31) == 0 then after else n

unfoldable pub cabac_clz32 : ℕ → ℕ
unfolding clz32_loop
cabac_clz32 x = clz32_loop 32 x 0

unfoldable pub cabac_encode_ue_bypass : CabacEngine → ℕ → ℕ → CabacEngine
cabac_encode_ue_bypass e exp_bits val =
    let v = (val + 2 ^ exp_bits) % 2 ^ 32 in
    let k = 31 - cabac_clz32 v in
    let x = (get_or cabac_bypass_lut (k - exp_bits) 0 * 2 ^ exp_bits + v) % 2 ^ 32 in
    let k_bits = 2 * k + 1 - exp_bits in ue_bypass_loop 8 e x (bit_and (k_bits - 1) 7 + 1) k_bits

-- The two lines that put the register behind the coded interval, with the stop bit.
unfoldable pub flush_low : CabacEngine → CabacEngine
flush_low e = record e { low = bit_or (e.low + (e.range - 2)) 1 * 2 ^ 9; queue = e.queue + 9 }

-- The bits up to the next whole byte, with the bit that frame_count chooses.
unfoldable pub flush_align : ℕ → CabacEngine → CabacEngine
flush_align frame_count e = record e {
  low =
      bit_or (e.low * 2 ^ (9 - e.queue))
        (bit_and (0x35a4e4f5 / 2 ^ bit_and frame_count 31) 1 * 2 ^ 10);
  queue = 9;
}

-- `while (bytes_outstanding > 0)`, which breaks at the end of the buffer.
unfoldable pub flush_outstanding : ℕ → CabacEngine → CabacEngine
unfolding store
flush_outstanding zero e = e
flush_outstanding (suc n) e =
    let stored = record e { buffer = store 255 e.buffer; bytes_outstanding = n } in
    let rest = flush_outstanding n stored in
    if e.buffer.room == 0 then record e { buffer = store 255 e.buffer } else rest

-- The source returns the number of bytes, which is the length of `written`.
unfoldable pub cabac_encode_flush : CabacEngine → ℕ → CabacEngine
unfolding flush_low flush_align flush_outstanding cabac_putbyte
cabac_encode_flush e frame_count =
    let whole =
      cabac_putbyte (flush_align frame_count (cabac_putbyte (cabac_putbyte (flush_low e)))) in
    flush_outstanding whole.bytes_outstanding whole

unfoldable pub cabac_engine_init : CabacEngine → ℕ → ℕ → CabacEngine
cabac_engine_init e before size = record e {
  low = 0;
  range = 0x1FE;
  queue = 0;
  bytes_outstanding = 0;
  buffer = record { before = before; written = []; room = size; overflow = false };
}

-- `(m * qp) >> 4` of an `int`, which rounds down.
unfoldable pub sixteenth : ℤ → ℤ
sixteenth a = elim a [ pos n ↦ pos (n / 16) | negsuc n ↦ negsuc (n / 16) ]

unfoldable pub cabac_clip3 : ℤ → ℤ → ℤ → ℤ
cabac_clip3 lo hi v = if ltb_ℤ v lo then lo else if ltb_ℤ hi v then hi else v

-- The context state of one row of a table.
unfoldable pub initial_state : ℕ → (ℤ × ℤ) → ℕ
unfolding sixteenth cabac_clip3
initial_state qp row =
    let (slope, offset) = row in
    let state = pos_part (cabac_clip3 (pos 1) (pos 126) (sixteenth (slope *ℤ pos qp) +ℤ offset)) in
    let pstate = if ltb state (127 - state) then state else 127 - state in
    bit_or (pstate * 2) (if leb 64 state then 1 else 0)

unfoldable pub clamp_qp : ℤ → ℕ
clamp_qp qp = if ltb_ℤ qp (pos 0) then 0 else if ltb_ℤ (pos 51) qp then 51 else pos_part qp

-- cabac_init_idc is not read.
unfoldable pub cabac_context_init : CabacEngine → Bool → ℤ → CabacEngine
unfolding initial_state clamp_qp cabac_init_i cabac_init_pb0
cabac_context_init e is_intra_slice qp =
    let table = if is_intra_slice then cabac_init_i else cabac_init_pb0 in
    record e { state = map (initial_state (clamp_qp qp)) table }
