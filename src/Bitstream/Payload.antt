-- ===== src/Bitstream/Payload.antt =====
-- A whole payload: a stream that is started by `bs_init`, written to, and ended by
-- `bs_rbsp_trailing_bits`.
use native.Mathlib.Nat.{add-zero}
use bc250_vulkan_encode_stop.Base.{
  ℕ, ◌+◌, ◌-◌, ◌*◌, ◌/◌, ◌%◌, ◌≤◌, ◌<◌, ◌≡◌, refl, ap, ◌∙◌, Bool, true, false, List, ◌∷◌, ◌++◌,
  arith, length, take, append-nil, replicate, length-replicate, length-append,
}
use bc250_vulkan_encode_stop.Bits.{bits_of}
use bc250_vulkan_encode_stop.Bitstream.{
  Bitstream, Writer, ◌▸◌, bs_init, bs_rbsp_trailing_bits, bs_bytes_written,
}
use bc250_vulkan_encode_stop.Bitstream.Content.{committed, content, bytes_bits, IsValid, Wrote}
use bc250_vulkan_encode_stop.Bitstream.Writes.{Writes, Wrote-end}
use bc250_vulkan_encode_stop.Bitstream.Trailing.{bs_rbsp_trailing_bits-Wrote}

pub bs_init-IsValid : (buf : List ℕ) (size : ℕ) → size ≤ length buf → IsValid (bs_init buf size)
unfolding bs_init
bs_init-IsValid buf size h = omega arith

-- A code with the stop bit and the zeros up to a byte boundary.
unfoldable pub terminated : List Bool → List Bool
terminated code = code ++ true ∷ replicate (7 - length code % 8) false

pub length-terminated : (code : List Bool) → length (terminated code) ≡ 8 * (length code / 8 + 1)
unfolding terminated
length-terminated code = omega (
  arith,
  length-append code (true ∷ replicate (7 - length code % 8) false),
  length-replicate (7 - length code % 8) false,
)

-- The bytes of a stream up to the size that it reports.
abbrev pub written_bytes : Bitstream → List ℕ
written_bytes t = take (bs_bytes_written t) t.buffer

pub record IsPayload (code : List Bool) (t : Bitstream) : Type 0 where
  pub valid : IsValid t
  pub kept_all : t.overflow ≡ false
  pub bits : bytes_bits (written_bytes t) ≡ terminated code
  pub count : bs_bytes_written t ≡ length code / 8 + 1

pub aligned_bytes : (t : Bitstream) → t.bit_offset ≡ 0 → bytes_bits (written_bytes t) ≡ content t
unfolding content committed bs_bytes_written bits_of
aligned_bytes t e = simp (e, add-zero, append-nil)

pub aligned_count : (t : Bitstream) → t.bit_offset ≡ 0 → bs_bytes_written t ≡ t.byte_offset
unfolding bs_bytes_written
aligned_count t e = simp (e, add-zero)

-- With a byte of room behind the code, the buffer holds the code and its trailing bits.
pub Writes-IsPayload :
    {f : Writer} {code : List Bool} (buf : List ℕ) (size : ℕ)
    → Writes f code
    → size ≤ length buf
    → length code / 8 < size
    → IsPayload code ((f ▸ bs_rbsp_trailing_bits) (bs_init buf size))
unfolding bs_init terminated content committed bytes_bits bits_of
Writes-IsPayload {f} {code} buf size w room fits =
    let s : Bitstream = bs_init buf size in
    let v : IsValid s = bs_init-IsValid buf size room in
    let x : Wrote s code (f s) = w.complete s v refl (unfold bs_init in omega arith) in
    let tv : IsValid (f s) = x.valid in
    let end : 8 * (f s).byte_offset + (f s).bit_offset ≡ length code =
      unfold bs_init in omega (arith, Wrote-end s (f s) code v x) in
    let (y, aligned) =
      bs_rbsp_trailing_bits-Wrote (f s) tv x.kept_all (omega (arith, x.same_size, tv.pending)) in
    let pad : (f s).bit_offset ≡ length code % 8 = omega (arith, tv.pending) in
    record {
      valid = y.valid;
      kept_all = y.kept_all;
      bits =
          aligned_bytes (bs_rbsp_trailing_bits (f s)) aligned
          ∙ y.appended
          ∙ ap (λ l. l ++ true ∷ replicate (7 - (f s).bit_offset) false) x.appended
          ∙ ap (λ (k : ℕ). code ++ true ∷ replicate (7 - k) false) pad;
      count = omega (
        arith,
        aligned_count (bs_rbsp_trailing_bits (f s)) aligned,
        Wrote-end (f s) (bs_rbsp_trailing_bits (f s)) _ tv y,
        length-replicate (7 - (f s).bit_offset) false,
      );
    }
