-- ===== src/Bitstream/Loop.antt =====
-- The loop of `bs_write_u`: the whole bytes that it stores, or the flag that it raises.
use native.Mathlib.Nat.{div-div-eq-div-mul}
use native.Mathlib.Numerals.{add-one}
use bc250_vulkan_encode_stop.Base.{
  ℕ, zero, suc, ◌+◌, ◌*◌, ◌/◌, ◌%◌, ◌^◌, ◌≤◌, ◌<◌, ◌≡◌, refl, sym, ap, ◌∙◌, Bool, true, List, [],
  ◌∷◌, ◌++◌, arith, length, take, set, length-append, append_assoc, append-nil, length-set,
  leb-false,
}
use bc250_vulkan_encode_stop.Bits.{bits_of, length-bits_of, bits_of-mod, bits_of-split, two_pow_add}
use bc250_vulkan_encode_stop.Bitstream.{Bitstream, write_bytes}
use bc250_vulkan_encode_stop.Bitstream.Content.{committed, bytes_bits, bytes_bits-append, take-set}

-- `t` is `s` with `code` stored behind its whole bytes, and the pending bits untouched.
pub record Stored (s : Bitstream) (code : List Bool) (t : Bitstream) : Type 0 where
  pub bytes : committed t ≡ committed s ++ code
  pub count : 8 * t.byte_offset ≡ 8 * s.byte_offset + length code
  pub same_size : t.size ≡ s.size
  pub same_length : length t.buffer ≡ length s.buffer
  pub same_pending : t.bit_offset ≡ s.bit_offset
  pub same_accum : t.accum ≡ s.accum
  pub same_flag : t.overflow ≡ s.overflow

Stored-trans :
    {s t u : Bitstream} {c d : List Bool} → Stored s c t → Stored t d u → Stored s (c ++ d) u
Stored-trans {s} {c = c} {d = d} x y = record {
  bytes = y.bytes ∙ ap (λ l. l ++ d) x.bytes ∙ append_assoc (committed s) c d;
  count = omega (arith, x.count, y.count, length-append c d);
  same_size = y.same_size ∙ x.same_size;
  same_length = y.same_length ∙ x.same_length;
  same_pending = y.same_pending ∙ x.same_pending;
  same_accum = y.same_accum ∙ x.same_accum;
  same_flag = y.same_flag ∙ x.same_flag;
}

abbrev store : ℕ → Bitstream → Bitstream
store b s = record s { buffer = set s.buffer s.byte_offset b; byte_offset = s.byte_offset + 1 }

Stored-nothing : (s : Bitstream) → Stored s [] s
Stored-nothing s = record {
  bytes = sym (append-nil (committed s));
  count = omega arith;
  same_size = refl;
  same_length = refl;
  same_pending = refl;
  same_accum = refl;
  same_flag = refl;
}

-- One round that finds room.
store-Stored :
    (v : ℕ) (s : Bitstream)
    → s.byte_offset < length s.buffer
    → Stored s (bits_of 8 v) (store (v % 256) s)
unfolding committed bytes_bits
store-Stored v s h = record {
  bytes = rw add-one (
      ap bytes_bits (take-set s.byte_offset s.buffer (v % 256) h)
      ∙ bytes_bits-append (take s.byte_offset s.buffer) ((v % 256) ∷ [])
      ∙ ap (λ l. bytes_bits (take s.byte_offset s.buffer) ++ l)
          (append-nil (bits_of 8 (v % 256)) ∙ bits_of-mod 8 v));
  count = omega (arith, length-bits_of 8 v);
  same_size = refl;
  same_length = length-set s.buffer s.byte_offset (v % 256);
  same_pending = refl;
  same_accum = refl;
  same_flag = refl;
}

-- The top byte of `left + 1` bytes, and the other ones.
byte_split :
    (combined rem left : ℕ)
    → bits_of 8 (combined / 2 ^ (left * 8 + rem)) ++ bits_of (left * 8) (combined / 2 ^ rem)
      ≡ bits_of (suc left * 8) (combined / 2 ^ rem)
byte_split combined rem left =
    ap (λ (t : ℕ). bits_of 8 t ++ bits_of (left * 8) (combined / 2 ^ rem))
      (ap (λ (t : ℕ). combined / t) (two_pow_add (left * 8) rem)
        ∙ sym (div-div-eq-div-mul combined (2 ^ rem) (2 ^ (left * 8))))
    ∙ sym (bits_of-split 8 (left * 8) (combined / 2 ^ rem))
    ∙ ap (λ (w : ℕ). bits_of w (combined / 2 ^ rem)) (omega arith)

pub write_bytes-Stored :
    (combined rem left : ℕ) (s : Bitstream)
    → s.size ≤ length s.buffer
    → s.byte_offset + left ≤ s.size
    → Stored s (bits_of (left * 8) (combined / 2 ^ rem)) (write_bytes combined rem left s)
unfolding write_bytes bits_of
write_bytes-Stored combined rem zero s room fits = Stored-nothing s
write_bytes-Stored combined rem (suc left) s room fits =
    let byte : ℕ = combined / 2 ^ (left * 8 + rem) in
    let next : Bitstream = store (byte % 256) s in
    rw (leb-false s.size s.byte_offset (omega arith)) (
      rw (← byte_split combined rem left) (
        Stored-trans (store-Stored byte s (omega arith)) (
          write_bytes-Stored combined rem left next
            (omega (arith, length-set s.buffer s.byte_offset (byte % 256))) (omega arith))))

-- A loop that does not fit stops at the end of the buffer and raises the flag.
pub record Stopped (s t : Bitstream) : Type 0 where
  pub flag : t.overflow ≡ true
  pub at_end : t.byte_offset ≡ t.size
  pub same_size : t.size ≡ s.size
  pub same_length : length t.buffer ≡ length s.buffer
  pub same_pending : t.bit_offset ≡ s.bit_offset
  pub same_accum : t.accum ≡ s.accum

pub write_bytes-Stopped :
    (combined rem left : ℕ) (s : Bitstream)
    → s.byte_offset ≤ s.size
    → s.size < s.byte_offset + left
    → Stopped s (write_bytes combined rem left s)
unfolding write_bytes
write_bytes-Stopped combined rem zero s inside full = absurd (omega arith)
write_bytes-Stopped combined rem (suc left) s inside full = ground (
  arith,
  write_bytes-Stopped combined rem left (store (combined / 2 ^ (left * 8 + rem) % 256) s),
  length-set s.buffer s.byte_offset (combined / 2 ^ (left * 8 + rem) % 256),
)
