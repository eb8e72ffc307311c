-- ===== src/Bitstream/Content.antt =====
-- The abstract view of a bit writer: the bits written so far, in order, and the states in which the
-- fields of `bitstream_t` fit together.
use bc250_vulkan_encode_stop.Base.{
  ℕ, zero, suc, ◌+◌, ◌*◌, ◌/◌, ◌^◌, ◌≤◌, ◌<◌, ◌≡◌, refl, sym, ap, ◌∙◌, Bool, false, List, [], ◌∷◌,
  ◌++◌, arith, length, take, set, length-append, append_assoc, length-take,
}
use bc250_vulkan_encode_stop.Bits.{bits_of, length-bits_of}
use bc250_vulkan_encode_stop.Bitstream.{Bitstream}

unfoldable pub bytes_bits : List ℕ → List Bool
bytes_bits [] = []
bytes_bits (b ∷ bs) = bits_of 8 b ++ bytes_bits bs

-- The bits of the whole bytes in the buffer, and then the pending ones.
unfoldable pub committed : Bitstream → List Bool
committed s = bytes_bits (take s.byte_offset s.buffer)

unfoldable pub content : Bitstream → List Bool
unfolding committed
content s = committed s ++ bits_of s.bit_offset s.accum

pub record IsValid (s : Bitstream) : Type 0 where
  pub in_size : s.byte_offset ≤ s.size
  pub in_buffer : s.size ≤ length s.buffer
  pub pending : s.bit_offset < 8
  pub accum_fits : s.accum < 2 ^ s.bit_offset

-- `t` is `s` with `code` written behind its bits, and nothing was dropped.
pub record Wrote (s : Bitstream) (code : List Bool) (t : Bitstream) : Type 0 where
  pub valid : IsValid t
  pub kept_all : t.overflow ≡ false
  pub appended : content t ≡ content s ++ code
  pub same_size : t.size ≡ s.size
  pub same_length : length t.buffer ≡ length s.buffer

-- The bytes that `code` completes fit the buffer.
abbrev pub Fits : Bitstream → List Bool → Type 0
Fits s code = s.byte_offset + (s.bit_offset + length code) / 8 ≤ s.size

pub bytes_bits-append : (xs ys : List ℕ) → bytes_bits (xs ++ ys) ≡ bytes_bits xs ++ bytes_bits ys
unfolding bytes_bits
bytes_bits-append [] ys = refl
bytes_bits-append (x ∷ xs) ys =
    ap (λ l. bits_of 8 x ++ l) (bytes_bits-append xs ys)
    ∙ sym (append_assoc (bits_of 8 x) (bytes_bits xs) (bytes_bits ys))

pub length-bytes_bits : (xs : List ℕ) → length (bytes_bits xs) ≡ 8 * length xs
unfolding bytes_bits
length-bytes_bits [] = refl
length-bytes_bits (x ∷ xs) =
    omega
      (arith, length-append (bits_of 8 x) (bytes_bits xs), length-bits_of 8 x, length-bytes_bits xs)

pub take-set :
    (i : ℕ) (xs : List ℕ) (v : ℕ) → i < length xs → take (suc i) (set xs i v) ≡ take i xs ++ v ∷ []
take-set zero [] v h = elim h [ ]
take-set zero (x ∷ xs) v h = refl
take-set (suc i) [] v h = elim h [ ]
take-set (suc i) (x ∷ xs) v h = ap (λ l. x ∷ l) (take-set i xs v (omega arith))

pub length-content :
    (s : Bitstream) → IsValid s → length (content s) ≡ 8 * s.byte_offset + s.bit_offset
unfolding content
length-content s v = omega (
  arith,
  length-append (bytes_bits (take s.byte_offset s.buffer)) (bits_of s.bit_offset s.accum),
  length-bytes_bits (take s.byte_offset s.buffer),
  length-bits_of s.bit_offset s.accum,
  length-take s.byte_offset s.buffer,
)
