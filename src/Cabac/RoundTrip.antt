-- ===== src/Cabac/RoundTrip.antt =====
-- A slice through the engine of cabac.c and back: the bytes from `cabac_engine_init` to
-- `cabac_encode_flush` decode, by H.264 9.3.1.2 and 9.3.3.2, to the bins.
use bc250_vulkan_encode_stop.Base.{
  ℕ, suc, ◌+◌, ◌-◌, ◌*◌, ◌/◌, ◌^◌, ◌≤◌, ◌<◌, ◌≡◌, refl, sym, ap, ◌∙◌, arith, Bool, true, false,
  List, [], ◌∷◌, ◌++◌, map, length, Option, some, ◌>>=◌, leb, le→leb,
}
use bc250_vulkan_encode_stop.Bits.{
  bits_of, read_bits, read_bits-bits_of, bits_of-split, bits_of-fields, or_one,
}
use bc250_vulkan_encode_stop.Cabac.{
  CabacEngine, cabac_putbyte, flush_low, flush_align, cabac_engine_init, cabac_encode_flush,
}
use bc250_vulkan_encode_stop.Cabac.Value.{base256, committed, Bytes, LastBelow}
use bc250_vulkan_encode_stop.Cabac.Invariant.{IsOpen, value, shifts}
use bc250_vulkan_encode_stop.Cabac.Exact.{Coder, Bin, code_bins}
use bc250_vulkan_encode_stop.Cabac.Moves.{view, HasStates, IsCoder, Reaches}
use bc250_vulkan_encode_stop.Cabac.Sequence.{
  IsNormal, AllInTable, encode_bins, encode_bins-Reaches, decode_all-code_bins,
  cabac_putbyte-unflagged,
}
use bc250_vulkan_encode_stop.Cabac.Decoder.{
  Decoder, Request, decode_all, decode_terminate, request, bit_of,
}
use bc250_vulkan_encode_stop.Cabac.Inverse.{Inside, decoder_at}
use bc250_vulkan_encode_stop.Cabac.Flush.{final_number, flush_outstanding-written}
use bc250_vulkan_encode_stop.Cabac.Final.{cabac_encode_flush-number, odd_up}

-- The bits of a string of bytes of which the last one comes first.
unfoldable pub stream_bits : List ℕ → List Bool
unfolding bits_of
stream_bits [] = []
stream_bits (b ∷ bs) = stream_bits bs ++ bits_of 8 b

stream_bits-number :
    (bs : List ℕ) → Bytes bs → stream_bits bs ≡ bits_of (8 * length bs) (base256 bs)
unfolding stream_bits Bytes base256
stream_bits-number [] all = refl
stream_bits-number (b ∷ bs) (h, all) =
    let count : 8 * suc (length bs) ≡ 8 * length bs + 8 = omega arith in
    rw (count, stream_bits-number bs all) (sym (bits_of-fields (8 * length bs) 8 (base256 bs) b h))

-- 9.3.1.2: the offset is the first 9 bits.
unfoldable pub start_decoder : List ℕ → List Bool → Option Decoder
unfolding read_bits
start_decoder state bits = do
  (offset, input) ← read_bits 9 0 bits
  some (record { offset = offset; range = 510; input = input; state = state })

-- The bins that a parser asks for, and then the end of the slice.
unfoldable pub decode_slice : List ℕ → List Request → List Bool → Option (List Bool × Bool)
unfolding start_decoder decode_all decode_terminate
decode_slice state requests bits = do
  start ← start_decoder state bits
  (bins, behind) ← decode_all requests start
  (last, after) ← decode_terminate behind
  some (bins, last)

pub cabac_engine_init-IsCoder :
    (e : CabacEngine) (before size : ℕ)
    → before < 256
    → HasStates e.state
    → IsCoder (cabac_engine_init e before size)
unfolding IsCoder cabac_engine_init IsOpen LastBelow
cabac_engine_init-IsCoder e before size byte has =
    (omega arith, omega arith, omega arith, (omega arith, λ empty. omega arith, tt, byte), has)

cabac_encode_flush-unflagged :
    (e : CabacEngine) (frame_count : ℕ)
    → (cabac_encode_flush e frame_count).buffer.overflow ≡ false
    → e.buffer.overflow ≡ false
unfolding cabac_encode_flush flush_low flush_align
cabac_encode_flush-unflagged e frame_count ok =
    let first = flush_low e in
    let second = cabac_putbyte (cabac_putbyte first) in
    let whole = cabac_putbyte (flush_align frame_count second) in
    let (all, unflagged, kept) = flush_outstanding-written whole.bytes_outstanding whole ok in
    cabac_putbyte-unflagged first (
      cabac_putbyte-unflagged (cabac_putbyte first)
        (cabac_putbyte-unflagged (flush_align frame_count second) unflagged))

-- The last number lies in the last interval, at its end.
final-Inside :
    (x k : ℕ) (c : Coder)
    → 2 ≤ c.range
    → x / 2 ^ k ≡ final_number c
    → Inside x (c.shifts + k) c
      × (decode_terminate (decoder_at x (c.shifts + k) c)
          ≡ some (true, decoder_at x (c.shifts + k) c))
unfolding Inside decode_terminate decoder_at final_number
final-Inside x k c h same =
    let (low, high) = odd_up (c.low + (c.range - 2)) c.low c.range h refl in
    let left : c.shifts + k - c.shifts ≡ k = omega arith in
    let past : leb (c.range - 2) (x / 2 ^ k - c.low) ≡ true =
      le→leb (c.range - 2) (x / 2 ^ k - c.low)
        (omega (arith, same, or_one (c.low + (c.range - 2)))) in
    rw (left, past) ((omega arith, omega (arith, same, low), omega (arith, same, high)), refl)

abbrev pub fresh : List ℕ → Coder
fresh state = record { low = 0; range = 510; shifts = 0; state = state }

start_decoder-fresh :
    (x n : ℕ) (state : List ℕ)
    → Inside x n (fresh state)
    → start_decoder state (bits_of (9 + n) x) ≡ some (decoder_at x n (fresh state))
unfolding start_decoder decoder_at Inside
start_decoder-fresh x n state (short, above, below) =
    let whole : n - 0 ≡ n = omega arith in
    let small : x / 2 ^ n < 2 ^ 9 = rw (← whole) (omega (arith, below)) in
    let first : 0 * 2 ^ 9 + x / 2 ^ n ≡ x / 2 ^ n - 0 = omega arith in
    let taken : read_bits 9 0 (bits_of (9 + n) x) ≡ some (x / 2 ^ n - 0, bits_of n x) =
      rw (bits_of-split 9 n x) (
        read_bits-bits_of 9 0 (x / 2 ^ n) (bits_of n x) small
        ∙ ap (λ (t : ℕ). some (t, bits_of n x)) first) in
    rw (whole, taken) refl

pub init-view :
    (e : CabacEngine) (before size : ℕ) → view (cabac_engine_init e before size) ≡ fresh e.state
unfolding view value shifts cabac_engine_init committed base256
init-view e before size = refl

decode_slice-bits :
    (state : List ℕ) (bins : List Bin) (x k : ℕ) (c : Coder)
    → HasStates state
    → AllInTable bins
    → c ≡ code_bins (fresh state) bins
    → 2 ≤ c.range
    → x / 2 ^ k ≡ final_number c
    → decode_slice state (map request bins) (bits_of (9 + (c.shifts + k)) x)
      ≡ some (map bit_of bins, true)
unfolding decode_slice IsNormal
decode_slice-bits state bins x k c has h same wide number =
    let n = c.shifts + k in
    let (inside, ended) = final-Inside x k c wide number in
    let (all, inside_start) =
      decode_all-code_bins x n (fresh state) bins (omega arith, omega arith, has) h
        (rw (← same) inside) in
    let reached : decode_all (map request bins) (decoder_at x n (fresh state))
        ≡ some (map bit_of bins, decoder_at x n c) =
      all ∙ ap (λ (d : Coder). some (map bit_of bins, decoder_at x n d)) (sym same) in
    rw (start_decoder-fresh x n state inside_start, reached, ended) refl

-- For a table of 276 usable context states, a byte in front and bins whose contexts are in the
-- table, a slice that cabac_engine_init starts, the encoding functions go through bin by bin and
-- cabac_encode_flush ends without overflow is decoded by the arithmetic decoder of H.264, 9.3.1.2
-- and 9.3.3.2, to exactly those bins and the end of the slice, and the byte in front of it is
-- left as it was.
pub decode_slice-cabac_encode_flush :
    (e : CabacEngine) (before size frame_count : ℕ) (bins : List Bin)
    → HasStates e.state
    → before < 256
    → AllInTable bins
    → (cabac_encode_flush
        (encode_bins (cabac_engine_init e before size) bins)
        frame_count).buffer.overflow
      ≡ false
    → (decode_slice e.state (map request bins) (
          stream_bits
            (cabac_encode_flush
              (encode_bins (cabac_engine_init e before size) bins)
              frame_count).buffer.written)
        ≡ some (map bit_of bins, true))
      × ((cabac_encode_flush
            (encode_bins (cabac_engine_init e before size) bins)
            frame_count).buffer.before
          ≡ before)
unfolding Reaches IsCoder cabac_engine_init view
decode_slice-cabac_encode_flush e before size frame_count bins has byte h ok =
    let start = cabac_engine_init e before size in
    let coded = encode_bins start bins in
    let (coding, same, kept, unflagged) =
      encode_bins-Reaches start bins (cabac_engine_init-IsCoder e before size byte has) h
        (cabac_encode_flush-unflagged coded frame_count ok) in
    let (k, number, count, bytes, kept_before) =
      cabac_encode_flush-number coded frame_count coding ok in
    let ws = (cabac_encode_flush coded frame_count).buffer.written in
    let followed = same ∙ ap (λ (c : Coder). code_bins c bins) (init-view e before size) in
    let decoded =
      decode_slice-bits e.state bins (base256 ws) k (view coded) has h followed
        (omega (arith, coding.0)) number in
    let total : 8 * length ws ≡ 9 + (shifts coded + k) = omega (arith, count) in
    (rw (stream_bits-number ws bytes, total) decoded, kept_before ∙ kept)
