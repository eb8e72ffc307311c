-- ===== src/Nal/Header.antt =====
-- The NAL headers and the filler NAL unit, bit by bit.
use mathlib.Core.Path.{fun_ext}
use bc250_vulkan_encode_stop.Base.{
  ℕ, zero, suc, ◌+◌, ◌-◌, ◌*◌, ◌%◌, ◌≤◌, ◌≡◌, sym, ap, ◌∙◌, Bool, true, false, List, [], ◌∷◌, ◌++◌,
  arith, Bool-cases, inl, inr, bit_or, bit_and, length, append_assoc, replicate, length-replicate,
  length-append,
}
use bc250_vulkan_encode_stop.Bits.{bits_of, and_mask, or_fields}
use bc250_vulkan_encode_stop.Bitstream.{Bitstream, bs_write_u, bs_bytes_written, ◌▸◌}
use bc250_vulkan_encode_stop.Bitstream.Content.{bytes_bits, bytes_bits-append, length-bytes_bits}
use bc250_vulkan_encode_stop.Bitstream.Write.{bs_write_u-sticky}
use bc250_vulkan_encode_stop.Bitstream.Writes.{
  Writes, Writes-seq, Writes-nothing, bs_write_u-Writes, bs_write1-Writes, bs_write_u-Writes_eq,
}
use bc250_vulkan_encode_stop.Bitstream.Payload.{terminated, IsPayload, Writes-IsPayload}
use bc250_vulkan_encode_stop.Nal.{
  nal_header_byte, nal_header_writer, nal_header_hevc_writer, filler_loop, filler_stream,
  bs_write_filler,
}

-- forbidden_zero_bit, nal_ref_idc in two bits, nal_unit_type in five.
pub nal_header_byte_lem :
    (nal_ref_idc nal_type : ℕ)
    → nal_header_byte nal_ref_idc nal_type ≡ nal_ref_idc % 4 * 32 + nal_type % 32
unfolding nal_header_byte
nal_header_byte_lem r t =
    let low : bit_or 0 (r % 4 * 32) ≡ r % 4 * 32 =
      omega (arith, or_fields 7 0 (r % 4 * 32) (omega arith)) in
    rw (and_mask 2 r, and_mask 5 t, low) (or_fields 5 (r % 4) (t % 32) (omega arith))

unfoldable pub nal_header_code : ℕ → ℕ → List Bool
nal_header_code nal_ref_idc nal_type =
    bits_of 32 1 ++ bits_of 8 (nal_ref_idc % 4 * 32 + nal_type % 32)

-- The H.264 header writer appends the start code and a byte of two bits nal_ref_idc and five bits
-- nal_unit_type, under the conditions of room and overflow of any writer.
pub nal_header_writer-Writes :
    (nal_ref_idc nal_type : ℕ)
    → Writes (nal_header_writer nal_ref_idc nal_type) (nal_header_code nal_ref_idc nal_type)
unfolding nal_header_writer nal_header_code
nal_header_writer-Writes r t = Writes-seq (bs_write_u-Writes 32 1 (omega arith) (omega arith)) (
    bs_write_u-Writes_eq 8 (nal_header_byte r t) (r % 4 * 32 + t % 32) (omega arith) (omega arith)
      (nal_header_byte_lem r t))

-- The test for an overflow in the loop changes nothing.
filler_loop_step :
    (n : ℕ) (s : Bitstream)
    → (s.overflow ≡ true → filler_loop n s ≡ s)
    → filler_loop n (bs_write_u 8 0xff s) ≡ filler_loop (suc n) s
unfolding filler_loop
filler_loop_step n s stuck = elim (Bool-cases s.overflow) [
  | inl full ↦ simp (full, bs_write_u-sticky 8 0xff s full, stuck full)
  | inr room ↦ simp room
]

-- The payload loop of a filler NAL unit writes one 0xff byte in each round.
filler_loop-Writes : (n : ℕ) → Writes (filler_loop n) (bytes_bits (replicate n 0xff))
unfolding filler_loop bytes_bits
filler_loop-Writes zero = Writes-nothing
filler_loop-Writes (suc n) =
    let rest = filler_loop-Writes n in
    let step : (bs_write_u 8 0xff ▸ filler_loop n) ≡ filler_loop (suc n) =
      fun_ext (λ s. filler_loop_step n s (rest.sticky s)) in
    rw step at (Writes-seq (bs_write_u-Writes 8 0xff (omega arith) (omega arith)) rest)

unfoldable pub nal_header_hevc_code : ℕ → List Bool
nal_header_hevc_code nal_unit_type =
    bits_of 32 1 ++ (false ∷ bits_of 6 (nal_unit_type % 64) ++ (bits_of 6 0 ++ bits_of 3 1))

-- The HEVC header writer appends the start code, a zero bit, six bits of type, layer 0 and
-- temporal id 1, under the conditions of room and overflow of any writer.
pub nal_header_hevc_writer-Writes :
    (nal_unit_type : ℕ)
    → Writes (nal_header_hevc_writer nal_unit_type) (nal_header_hevc_code nal_unit_type)
unfolding nal_header_hevc_writer nal_header_hevc_code bits_of
nal_header_hevc_writer-Writes t = Writes-seq (bs_write_u-Writes 32 1 (omega arith) (omega arith)) (
    Writes-seq (bs_write1-Writes 0 (omega arith)) (
      Writes-seq
        (bs_write_u-Writes_eq 6 (bit_and t 0x3f) (t % 64) (omega arith) (omega arith)
          (and_mask 6 t))
        (Writes-seq (bs_write_u-Writes 6 0 (omega arith) (omega arith))
          (bs_write_u-Writes 3 1 (omega arith) (omega arith)))))

-- The six fixed bytes of a filler NAL unit round `n` bytes 0xff.
abbrev pub filler_nal : ℕ → List ℕ
filler_nal n = 0x00 ∷ 0x00 ∷ 0x00 ∷ 0x01 ∷ 0x0c ∷ (replicate n 0xff ++ 0x80 ∷ [])

filler_code : ℕ → List Bool
filler_code n = nal_header_code 0 12 ++ bytes_bits (replicate n 0xff)

length-filler_code : (n : ℕ) → length (filler_code n) ≡ 40 + 8 * n
unfolding filler_code nal_header_code bits_of
length-filler_code n =
    omega (arith, length-bytes_bits (replicate n 0xff), length-replicate {A = ℕ} n 0xff)

filler_stream-IsPayload :
    (buf : List ℕ) (buf_size n : ℕ)
    → buf_size ≤ length buf
    → 6 + n ≤ buf_size
    → IsPayload (filler_code n) (filler_stream buf buf_size n)
unfolding filler_stream filler_code
filler_stream-IsPayload buf buf_size n room fits =
    Writes-IsPayload buf buf_size
      (Writes-seq (nal_header_writer-Writes 0 12) (filler_loop-Writes n)) room
      (omega (arith, length-filler_code n))

pub bs_bytes_written-filler_stream :
    (buf : List ℕ) (buf_size n : ℕ)
    → buf_size ≤ length buf
    → 6 + n ≤ buf_size
    → bs_bytes_written (filler_stream buf buf_size n) ≡ 6 + n
bs_bytes_written-filler_stream buf buf_size n room fits =
    omega (arith, (filler_stream-IsPayload buf buf_size n room fits).count, length-filler_code n)

filler_code-terminated : (n : ℕ) → terminated (filler_code n) ≡ bytes_bits (filler_nal n)
unfolding terminated filler_code nal_header_code bytes_bits bits_of
filler_code-terminated n =
    let ones : List Bool = bytes_bits (replicate n 0xff) in
    let pad : 7 - length (filler_code n) % 8 ≡ 7 = omega (arith, length-filler_code n) in
    ap (λ (k : ℕ). (nal_header_code 0 12 ++ ones) ++ true ∷ replicate k false) pad
    ∙ append_assoc (nal_header_code 0 12) ones (true ∷ replicate 7 false)
    ∙ ap (λ l. nal_header_code 0 12 ++ l) (sym (bytes_bits-append (replicate n 0xff) (0x80 ∷ [])))

-- With room for 6 + n bytes in the buffer bs_write_filler gives the complete filler NAL unit of n
-- bytes 0xff, counts 6 + n bytes, and raises no flag.
pub bs_write_filler_lem :
    (buf : List ℕ) (buf_size n : ℕ)
    → buf_size ≤ length buf
    → 6 + n ≤ buf_size
    → (bytes_bits (bs_write_filler buf buf_size n) ≡ bytes_bits (filler_nal n))
      × (length (bs_write_filler buf buf_size n) ≡ 6 + n)
      × ((filler_stream buf buf_size n).overflow ≡ false)
unfolding bs_write_filler
bs_write_filler_lem buf buf_size n room fits =
    let p = filler_stream-IsPayload buf buf_size n room fits in
    let same = p.bits ∙ filler_code-terminated n in
    let count : length (bs_write_filler buf buf_size n) ≡ 6 + n = omega (
      arith,
      ap length same,
      length-bytes_bits (bs_write_filler buf buf_size n),
      length-bytes_bits (filler_nal n),
      length-append {A = ℕ} (replicate n 0xff) (0x80 ∷ []),
      length-replicate {A = ℕ} n 0xff,
    ) in
    (same, count, p.kept_all)
