-- ===== src/Bitstream/Trailing.antt =====
-- The end of a payload: `bs_flush`, `bs_rbsp_trailing_bits` and `bs_bytes_written`.
use bc250_vulkan_encode_stop.Base.{
  ℕ, ◌+◌, ◌-◌, ◌*◌, ◌/◌, ◌%◌, ◌^◌, ◌≤◌, ◌<◌, ◌≡◌, refl, sym, ap, ◌∙◌, true, false, [], ◌∷◌, ◌++◌,
  arith, length, take, set, append_assoc, append-nil, replicate, length-set, leb-false, ==-false,
}
use native.Mathlib.Decide.{dec_lt}
use native.Mathlib.Numerals.{add-one}
use bc250_vulkan_encode_stop.Bits.{bits_of, bits_of-mod, bits_of-fields, bits_of-zero, two_pow_pos}
use bc250_vulkan_encode_stop.Bitstream.{
  Bitstream, bs_write1, bs_flush, bs_rbsp_trailing_bits, bs_bytes_written,
}
use bc250_vulkan_encode_stop.Bitstream.Content.{
  committed, content, bytes_bits, bytes_bits-append, take-set, IsValid, Wrote, length-content,
}
use bc250_vulkan_encode_stop.Bitstream.Writes.{bs_write1-Writes, Wrote-trans, Wrote-end}

-- The pending bits moved to the top of a byte.
padded :
    (k a : ℕ) → k ≤ 8 → bits_of 8 (a * 2 ^ (8 - k) % 256) ≡ bits_of k a ++ replicate (8 - k) false
padded k a h =
    bits_of-mod 8 (a * 2 ^ (8 - k))
    ∙ ap (λ (w : ℕ). bits_of w (a * 2 ^ (8 - k))) (omega arith)
    ∙ ap (bits_of (k + (8 - k))) (omega arith)
    ∙ bits_of-fields k (8 - k) a 0 (two_pow_pos (8 - k))
    ∙ ap (λ l. bits_of k a ++ l) (bits_of-zero (8 - k))

stored_byte :
    (s : Bitstream) (b : ℕ)
    → s.byte_offset < length s.buffer
    → bytes_bits (take (s.byte_offset + 1) (set s.buffer s.byte_offset b))
      ≡ committed s ++ bits_of 8 b
unfolding committed bytes_bits
stored_byte s b room = rw add-one (
    ap bytes_bits (take-set s.byte_offset s.buffer b room)
    ∙ bytes_bits-append (take s.byte_offset s.buffer) (b ∷ [])
    ∙ ap (λ l. bytes_bits (take s.byte_offset s.buffer) ++ l) (append-nil (bits_of 8 b)))

flushed_bits :
    (s : Bitstream)
    → IsValid s
    → s.byte_offset < length s.buffer
    → (let b : ℕ = s.accum * 2 ^ (8 - s.bit_offset) % 256 in
        bytes_bits (take (s.byte_offset + 1) (set s.buffer s.byte_offset b)) ++ []
        ≡ content s ++ replicate (8 - s.bit_offset) false)
unfolding content
flushed_bits s v room =
    append-nil _
    ∙ stored_byte s (s.accum * 2 ^ (8 - s.bit_offset) % 256) room
    ∙ ap (λ l. committed s ++ l) (padded s.bit_offset s.accum (omega arith))
    ∙ sym (
        append_assoc (committed s) (bits_of s.bit_offset s.accum)
          (replicate (8 - s.bit_offset) false))

-- A pending byte is filled with zeros and stored, if the buffer has a byte left.
pub bs_flush-Wrote :
    (s : Bitstream)
    → IsValid s
    → s.overflow ≡ false
    → 0 < s.bit_offset
    → s.byte_offset < s.size
    → Wrote s (replicate (8 - s.bit_offset) false) (bs_flush s) × ((bs_flush s).bit_offset ≡ 0)
unfolding bs_flush
bs_flush-Wrote s v h some_bits room =
    let b : ℕ = s.accum * 2 ^ (8 - s.bit_offset) % 256 in
    simp (h, ==-false s.bit_offset 0 (omega arith), leb-false s.size s.byte_offset room)
      (
        record {
          valid = record {
            in_size = omega arith;
            in_buffer = rw (length-set s.buffer s.byte_offset b) v.in_buffer;
            pending = omega arith;
            accum_fits = omega arith;
          };
          kept_all = refl;
          appended = unfold content committed bits_of in flushed_bits s v (omega arith);
          same_size = refl;
          same_length = length-set s.buffer s.byte_offset b;
        },
        refl,
      )

bs_flush-aligned : (s : Bitstream) → s.overflow ≡ false → s.bit_offset ≡ 0 → bs_flush s ≡ s
unfolding bs_flush
bs_flush-aligned s h e = simp (h, e)

-- On a valid stream without overflow and with a byte of room, the stop bit and zeros up to the
-- next byte boundary are appended, and the stream ends on that boundary.
pub bs_rbsp_trailing_bits-Wrote :
    (s : Bitstream)
    → IsValid s
    → s.overflow ≡ false
    → s.byte_offset < s.size
    → Wrote s (true ∷ replicate (7 - s.bit_offset) false) (bs_rbsp_trailing_bits s)
      × ((bs_rbsp_trailing_bits s).bit_offset ≡ 0)
unfolding bs_rbsp_trailing_bits
bs_rbsp_trailing_bits-Wrote s v h room =
    let t : Bitstream = bs_write1 1 s in
    let w : Wrote s (true ∷ []) t =
      (bs_write1-Writes 1 (omega arith)).complete s v h (omega arith) in
    let at : 8 * t.byte_offset + t.bit_offset ≡ 8 * s.byte_offset + s.bit_offset + 1 =
      Wrote-end s t (true ∷ []) v w in
    let tv : IsValid t = w.valid in
    elim (dec_lt 0 t.bit_offset) [
      | yes some_bits ↦
          let (f, aligned) =
            bs_flush-Wrote t tv w.kept_all some_bits
              (omega (arith, w.same_size, tv.pending, v.pending)) in
          let count : 8 - t.bit_offset ≡ 7 - s.bit_offset = omega (arith, tv.pending, v.pending) in
          (rw (← count) (Wrote-trans w f), aligned)
      | no none_left ↦
          let zero_bits : t.bit_offset ≡ 0 = omega arith in
          let count : 7 - s.bit_offset ≡ 0 = omega (arith, v.pending) in
          rw (bs_flush-aligned t w.kept_all zero_bits) (rw count (w, zero_bits))
    ]

-- On a valid stream bs_bytes_written is the number of bits rounded up to bytes.
pub bs_bytes_written_lem :
    (s : Bitstream) → IsValid s → bs_bytes_written s ≡ (length (content s) + 7) / 8
unfolding bs_bytes_written
bs_bytes_written_lem s v = ground (arith, length-content s v)
