-- ===== src/Cabac/Room.antt =====
-- A buffer of enough room for the engine of cabac.c: no byte is lost.
use bc250_vulkan_encode_stop.Base.{
  ℕ, zero, suc, ◌+◌, ◌-◌, ◌*◌, ◌/◌, ◌%◌, ◌^◌, ◌≤◌, ◌<◌, ◌≡◌, refl, ap, arith, Bool, true, false,
  List, [], ◌∷◌, map, some, length, set, get_or, ◌==◌, ==_iff, ==-false, ltb, if_split,
  if◌then◌else◌,
}
use bc250_vulkan_encode_stop.Bits.{odd}
use bc250_vulkan_encode_stop.Cabac.{
  OutBuffer, CabacEngine, store, store_times, add_to_last, put_bytes, put_out, cabac_putbyte,
  cabac_encode_renorm, take_part, cabac_encode_decision, cabac_encode_bypass, cabac_encode_terminal,
  range_lps, next_state, differs, flush_low, flush_align, flush_outstanding, cabac_encode_flush,
}
use bc250_vulkan_encode_stop.Cabac.Tables.{cabac_renorm_shift}
use bc250_vulkan_encode_stop.Cabac.Exact.{
  Coder, Bin, decision, bypass, terminal, code_bin, code_bins, code_decision, narrow_to, narrow,
}
use bc250_vulkan_encode_stop.Cabac.Invariant.{shifts}
use bc250_vulkan_encode_stop.Cabac.Moves.{view, IsCoder, Reaches}
use bc250_vulkan_encode_stop.Cabac.RoundTrip.{
  fresh, decode_slice, stream_bits, init-view, cabac_engine_init-IsCoder,
  decode_slice-cabac_encode_flush,
}
use bc250_vulkan_encode_stop.Cabac.Decoder.{request, bit_of}
use bc250_vulkan_encode_stop.Cabac.Moves.{HasStates}
use bc250_vulkan_encode_stop.Cabac.{cabac_engine_init}
use bc250_vulkan_encode_stop.Cabac.Sequence.{
  encode_bins-Reaches, AllInTable, encode_bin, encode_bins, encode_bin-Reaches, take_part-buffer,
}

-- Nothing was lost, and so much is written or free.
unfoldable pub HasRoom : ℕ → OutBuffer → Type 0
HasRoom size b = (b.overflow ≡ false) × (length b.written + b.room ≡ size)

store-HasRoom :
    (size byte : ℕ) (b : OutBuffer)
    → HasRoom size b
    → 1 ≤ b.room
    → HasRoom size (store byte b) × ((store byte b).room + 1 ≡ b.room)
unfolding HasRoom store
store-HasRoom size byte b (ok, count) h =
    let free : (b.room == 0) ≡ false = ==-false b.room 0 (λ z. absurd (omega (arith, h, z))) in
    rw free ((ok, omega (arith, count, h)), omega (arith, h))

store_times-HasRoom :
    (size n byte : ℕ) (b : OutBuffer)
    → HasRoom size b
    → n ≤ b.room
    → HasRoom size (store_times n byte b) × ((store_times n byte b).room + n ≡ b.room)
unfolding store_times
store_times-HasRoom size zero byte b has h = (has, omega arith)
store_times-HasRoom size (suc n) byte b has h =
    let (one, left) = store-HasRoom size byte b has (omega (arith, h)) in
    let (times, rest) =
      store_times-HasRoom size n byte (store byte b) one (omega (arith, left, h)) in
    (times, omega (arith, left, rest))

add_to_last-HasRoom :
    (size carry : ℕ) (ws : List ℕ) (b : OutBuffer)
    → HasRoom size b
    → b.written ≡ ws
    → HasRoom size (add_to_last carry ws b) × ((add_to_last carry ws b).room ≡ b.room)
unfolding HasRoom add_to_last
add_to_last-HasRoom size carry [] b has e = (has, refl)
add_to_last-HasRoom size carry (w ∷ ws) b (ok, count) e =
    ((ok, omega (arith, count, ap length e)), refl)

put_bytes-HasRoom :
    (size k out : ℕ) (b : OutBuffer)
    → HasRoom size b
    → k + 1 ≤ b.room
    → HasRoom size (put_bytes k out b) × ((put_bytes k out b).room + 1 + k ≡ b.room)
unfolding put_bytes
put_bytes-HasRoom size k out b has h =
    let carried = add_to_last (out / 256) b.written b in
    let fill = (out / 256 + 255) % 256 in
    let (first, same) = add_to_last-HasRoom size (out / 256) b.written b has refl in
    let (times, left) = store_times-HasRoom size k fill carried first (omega (arith, same, h)) in
    let (last, rest) =
      store-HasRoom size (out % 256) (store_times k fill carried) times
        (omega (arith, left, same, h)) in
    (last, omega (arith, rest, left, same))

-- The bytes written and outstanding, of which a step makes one more at most.
unfoldable pub load : CabacEngine → ℕ
load e = e.bytes_outstanding + length e.buffer.written

unfoldable pub Holds : ℕ → ℕ → CabacEngine → Type 0
unfolding HasRoom load
Holds size bound e = HasRoom size e.buffer × (load e ≤ bound)

cabac_putbyte-Holds :
    (size bound : ℕ) (e : CabacEngine)
    → Holds size bound e
    → bound < size
    → Holds size (suc bound) (cabac_putbyte e)
unfolding Holds cabac_putbyte put_out load HasRoom
cabac_putbyte-Holds size bound e (has, small) h =
    let out = e.low / 2 ^ (e.queue + 1) in
    let k = e.bytes_outstanding in
    let (after, left) =
      put_bytes-HasRoom size k out e.buffer has (omega (arith, has.1, small, h)) in
    if_split (Holds size (suc bound)) (ltb e.queue 9) (λ early. (has, omega (arith, small)))
      (λ late.
        if_split (Holds size (suc bound)) (out % 256 == 255) (λ ones. (has, omega (arith, small)))
          (λ other. (after, omega (arith, after.1, left, has.1, small))))

take_part-outstanding :
    (e : CabacEngine) (is_lps : Bool) (lps : ℕ)
    → (take_part e is_lps lps).bytes_outstanding ≡ e.bytes_outstanding
unfolding take_part
take_part-outstanding e true lps = refl
take_part-outstanding e false lps = refl

cabac_encode_renorm-Holds :
    (size bound : ℕ) (e : CabacEngine)
    → Holds size bound e
    → bound < size
    → Holds size (suc bound) (cabac_encode_renorm e)
unfolding cabac_encode_renorm Holds
cabac_encode_renorm-Holds size bound e holds h =
    let shift = get_or cabac_renorm_shift (e.range / 8) 0 in
    cabac_putbyte-Holds size bound
      (record e { range = e.range * 2 ^ shift; low = e.low * 2 ^ shift; queue = e.queue + shift })
      holds h

encode_bin-Holds :
    (size bound : ℕ) (e : CabacEngine) (b : Bin)
    → Holds size bound e
    → bound < size
    → Holds size (suc bound) (encode_bin e b)
unfolding encode_bin cabac_encode_decision cabac_encode_bypass cabac_encode_terminal Holds load
encode_bin-Holds size bound e (decision ctx bit) holds h =
    let p = get_or e.state ctx 0 in
    let lps = range_lps p e.range in
    let is_lps = differs bit (odd p) in
    let part = take_part e is_lps lps in
    let started : Holds size bound (record part { state = set e.state ctx (next_state p bit) }) =
      rw (take_part-buffer e is_lps lps, take_part-outstanding e is_lps lps) holds in
    cabac_encode_renorm-Holds size bound
      (record part { state = set e.state ctx (next_state p bit) }) started h
encode_bin-Holds size bound e (bypass bit) holds h =
    cabac_putbyte-Holds size bound
      (record e { low = e.low * 2 + (if bit then e.range else 0); queue = e.queue + 1 }) holds h
encode_bin-Holds size bound e terminal holds h =
    cabac_encode_renorm-Holds size bound (record e { range = e.range - 2 }) holds h

narrow_to-shifts :
    (c : Coder) (is_lps : Bool) (lps : ℕ) → c.shifts ≤ (narrow_to c is_lps lps).shifts
unfolding narrow_to narrow
narrow_to-shifts c true lps = omega arith
narrow_to-shifts c false lps = omega arith

code_bin-shifts : (c : Coder) (b : Bin) → c.shifts ≤ (code_bin c b).shifts
unfolding code_bin code_decision narrow
code_bin-shifts c (decision ctx bit) =
    let p = get_or c.state ctx 0 in narrow_to-shifts c (differs bit (odd p)) (range_lps p c.range)
code_bin-shifts c (bypass bit) = omega arith
code_bin-shifts c terminal = omega arith

code_bins-shifts : (c : Coder) (bins : List Bin) → c.shifts ≤ (code_bins c bins).shifts
unfolding code_bins
code_bins-shifts c [] = omega arith
code_bins-shifts c (b ∷ bs) = omega (arith, code_bin-shifts c b, code_bins-shifts (code_bin c b) bs)

-- Every eight shifts take one byte.
load-shifts : (e : CabacEngine) → 8 * load e ≤ (view e).shifts
unfolding load view shifts
load-shifts e = omega arith

pub encode_bins-HasRoom :
    (size : ℕ) (e : CabacEngine) (bins : List Bin)
    → IsCoder e
    → AllInTable bins
    → HasRoom size e.buffer
    → (code_bins (view e) bins).shifts < 8 * size
    → HasRoom size (encode_bins e bins).buffer
unfolding encode_bins code_bins AllInTable Holds HasRoom Reaches
encode_bins-HasRoom size e [] coding h has small = has
encode_bins-HasRoom size e (b ∷ bs) coding h has small =
    let next = encode_bin e b in
    let mono = code_bins-shifts (view e) (b ∷ bs) in
    let (holds, more) =
      encode_bin-Holds size (load e) e b (has, omega arith)
        (omega (arith, load-shifts e, mono, small)) in
    let (coding_next, same, kept, unflagged) = encode_bin-Reaches e b coding h.0 holds.0 in
    let fewer = ap (λ (c : Coder). (code_bins c bs).shifts) same in
    encode_bins-HasRoom size next bs coding_next h.1 holds (omega (arith, fewer, small))

flush_outstanding-HasRoom :
    (size n : ℕ) (e : CabacEngine)
    → HasRoom size e.buffer
    → n ≤ e.buffer.room
    → HasRoom size (flush_outstanding n e).buffer
unfolding flush_outstanding
flush_outstanding-HasRoom size zero e has h = has
flush_outstanding-HasRoom size (suc n) e has h =
    let (one, left) = store-HasRoom size 255 e.buffer has (omega (arith, h)) in
    let stored = record e { buffer = store 255 e.buffer; bytes_outstanding = n } in
    if_split (λ (after : CabacEngine). HasRoom size after.buffer) (e.buffer.room == 0)
      (λ full. absurd (omega (arith, (==_iff e.buffer.room 0).0 full, h)))
      (λ more. flush_outstanding-HasRoom size n stored one (omega (arith, left, h)))

pub cabac_encode_flush-HasRoom :
    (size frame_count : ℕ) (e : CabacEngine)
    → HasRoom size e.buffer
    → (view e).shifts + 24 ≤ 8 * size
    → (cabac_encode_flush e frame_count).buffer.overflow ≡ false
unfolding cabac_encode_flush Holds HasRoom load
cabac_encode_flush-HasRoom size frame_count e has h =
    let bound = load e in
    let room : bound + 3 ≤ size = omega (arith, load-shifts e, h) in
    let first = flush_low e in
    let second = cabac_putbyte first in
    let third = cabac_putbyte second in
    let one = cabac_putbyte-Holds size bound first (has, omega arith) (omega (arith, room)) in
    let two = cabac_putbyte-Holds size (suc bound) second one (omega (arith, room)) in
    let three =
      cabac_putbyte-Holds size (suc (suc bound)) (flush_align frame_count third) two
        (omega (arith, room)) in
    let whole = cabac_putbyte (flush_align frame_count third) in
    let done =
      flush_outstanding-HasRoom size whole.bytes_outstanding whole three.0
        (omega (arith, three.1, three.0.1, room)) in
    done.0

empty-HasRoom :
    (e : CabacEngine) (before size : ℕ) → HasRoom size (cabac_engine_init e before size).buffer
unfolding HasRoom cabac_engine_init
empty-HasRoom e before size = (refl, omega arith)

-- A buffer with three bytes more than the shifts of the coder take does not overflow.
no_overflow :
    (e : CabacEngine) (before size frame_count : ℕ) (bins : List Bin)
    → HasStates e.state
    → before < 256
    → AllInTable bins
    → (code_bins (fresh e.state) bins).shifts + 24 ≤ 8 * size
    → (cabac_encode_flush
        (encode_bins (cabac_engine_init e before size) bins)
        frame_count).buffer.overflow
      ≡ false
unfolding HasRoom Reaches
no_overflow e before size frame_count bins has byte h room =
    let start = cabac_engine_init e before size in
    let coding = cabac_engine_init-IsCoder e before size byte has in
    let viewed = ap (λ (c : Coder). (code_bins c bins).shifts) (init-view e before size) in
    let roomy =
      encode_bins-HasRoom size start bins coding h (empty-HasRoom e before size)
        (omega (arith, viewed, room)) in
    let (coding_last, same, kept, unflagged) = encode_bins-Reaches start bins coding h roomy.0 in
    let last = ap (λ (c : Coder). c.shifts) same in
    cabac_encode_flush-HasRoom size frame_count (encode_bins start bins) roomy
      (omega (arith, last, viewed, room))

-- For a table of 276 usable context states, a byte in front, bins whose contexts are in the table
-- and a buffer of three bytes more than the shifts of the exact coder take, a slice that
-- cabac_engine_init starts, the encoding functions go through bin by bin and cabac_encode_flush
-- ends does not overflow, and it is decoded by the arithmetic decoder of H.264, 9.3.1.2 and
-- 9.3.3.2, to exactly those bins and the end of the slice, and the byte in front of it is left as
-- it was.
pub decode_slice-enough_room :
    (e : CabacEngine) (before size frame_count : ℕ) (bins : List Bin)
    → HasStates e.state
    → before < 256
    → AllInTable bins
    → (code_bins (fresh e.state) bins).shifts + 24 ≤ 8 * size
    → ((cabac_encode_flush
          (encode_bins (cabac_engine_init e before size) bins)
          frame_count).buffer.overflow
        ≡ false)
      × (decode_slice e.state (map request bins) (
            stream_bits
              (cabac_encode_flush
                (encode_bins (cabac_engine_init e before size) bins)
                frame_count).buffer.written)
          ≡ some (map bit_of bins, true))
      × ((cabac_encode_flush
            (encode_bins (cabac_engine_init e before size) bins)
            frame_count).buffer.before
          ≡ before)
decode_slice-enough_room e before size frame_count bins has byte h room =
    let ok = no_overflow e before size frame_count bins has byte h room in
    let (decoded, kept) =
      decode_slice-cabac_encode_flush e before size frame_count bins has byte h ok in
    (ok, decoded, kept)
