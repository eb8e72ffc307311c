-- ===== src/Bitstream/Write.antt =====
-- `bs_write_u`: what it appends, and when it reports an overflow.
use native.Mathlib.Nat.{mod-lt}
use bc250_vulkan_encode_stop.Base.{
  ℕ, zero, suc, ◌+◌, ◌-◌, ◌*◌, ◌/◌, ◌%◌, ◌^◌, ◌≤◌, ◌<◌, ◌≡◌, refl, sym, ap, ◌∙◌, true, false,
  ==-false, [], ◌++◌, arith, append_assoc, append-nil, if◌then◌else◌, ◌==◌, bit_and,
}
use bc250_vulkan_encode_stop.Bits.{
  bits_of, length-bits_of, bits_of-mod, bits_of-split, bits_of-fields,
}
use bc250_vulkan_encode_stop.Bits.{or_fields, and_mask, two_pow_pos}
use bc250_vulkan_encode_stop.Bitstream.{Bitstream, write_bytes, keep_rest, combine, bs_write_u}
use bc250_vulkan_encode_stop.Bitstream.Content.{committed, content, IsValid, Wrote, Fits}
use bc250_vulkan_encode_stop.Bitstream.Loop.{
  Stored, Stopped, write_bytes-Stored, write_bytes-Stopped,
}

combine_lem :
    (accum bits val : ℕ)
    → bits ≤ 32
    → val < 2 ^ 32
    → combine accum bits val ≡ accum * 2 ^ bits + val % 2 ^ bits
unfolding combine
combine_lem accum bits val hb hv = ground (
  arith,
  and_mask bits val,
  or_fields bits accum (val % 2 ^ bits) (mod-lt val (two_pow_pos bits)),
)

kept_bits :
    (combined rem : ℕ)
    → (if rem == 0 then 0 else bit_and combined (2 ^ rem - 1)) ≡ combined % 2 ^ rem
kept_bits combined zero = omega arith
kept_bits combined (suc r) = ground (arith, and_mask (suc r) combined)

low_three : (n : ℕ) → bit_and n 7 ≡ n % 8
low_three n = and_mask 3 n

pub Wrote-nothing : (s : Bitstream) → IsValid s → s.overflow ≡ false → Wrote s [] s
Wrote-nothing s v h = record {
  valid = v;
  kept_all = h;
  appended = sym (append-nil (content s));
  same_size = refl;
  same_length = refl;
}

finish : ℕ → ℕ → Bitstream → Bitstream
finish combined rem t = record t { accum = combined % 2 ^ rem; bit_offset = rem }

keep_rest_lem :
    (combined rem : ℕ) (t : Bitstream)
    → t.overflow ≡ false
    → keep_rest combined rem t ≡ finish combined rem t
unfolding keep_rest finish
keep_rest_lem combined rem t h = rw (h, kept_bits combined rem)

-- The pending bits of `s` and the written ones, as one word.
abbrev joined : Bitstream → ℕ → ℕ → ℕ
joined s bits val = s.accum * 2 ^ bits + val % 2 ^ bits

module _ (bits val : ℕ) (s : Bitstream) where
  total : ℕ
  total = s.bit_offset + bits

  abbrev combined : ℕ
  combined = joined s bits val

  joined_bits :
      bits_of (total / 8 * 8) (combined / 2 ^ (total % 8)) ++ bits_of (total % 8) combined
      ≡ bits_of s.bit_offset s.accum ++ bits_of bits val
  unfolding total
  joined_bits =
      sym (bits_of-split (total / 8 * 8) (total % 8) combined)
      ∙ ap (λ (w : ℕ). bits_of w combined) (omega arith)
      ∙ bits_of-fields s.bit_offset bits s.accum (val % 2 ^ bits) (mod-lt val (two_pow_pos bits))
      ∙ ap (λ l. bits_of s.bit_offset s.accum ++ l) (bits_of-mod bits val)

  finish-content :
      (t : Bitstream)
      → Stored s (bits_of (total / 8 * 8) (combined / 2 ^ (total % 8))) t
      → content (finish combined (total % 8) t) ≡ content s ++ bits_of bits val
  unfolding content finish
  finish-content t st =
      ap (λ l. l ++ bits_of (total % 8) (combined % 2 ^ (total % 8))) st.bytes
      ∙ append_assoc (committed s) _ _
      ∙ ap (λ l. committed s ++ (bits_of (total / 8 * 8) (combined / 2 ^ (total % 8)) ++ l))
          (bits_of-mod (total % 8) combined)
      ∙ ap (λ l. committed s ++ l) joined_bits
      ∙ sym (append_assoc (committed s) (bits_of s.bit_offset s.accum) (bits_of bits val))

  bs_write_u-run :
      0 < bits
      → bits ≤ 32
      → val < 2 ^ 32
      → s.overflow ≡ false
      → bs_write_u bits val s
        ≡ keep_rest combined (total % 8) (write_bytes combined (total % 8) (total / 8) s)
  unfolding bs_write_u total
  bs_write_u-run pos wide small h = rw (
    h,
    ==-false bits 0 (omega arith),
    low_three (s.bit_offset + bits),
    combine_lem s.accum bits val wide small,
  )

  Stored-Wrote :
      (t : Bitstream)
      → IsValid s
      → s.overflow ≡ false
      → s.byte_offset + total / 8 ≤ s.size
      → Stored s (bits_of (total / 8 * 8) (combined / 2 ^ (total % 8))) t
      → Wrote s (bits_of bits val) (finish combined (total % 8) t)
  unfolding finish
  Stored-Wrote t v h fits st = record {
    valid = record {
      in_size =
          omega (arith, st.count, length-bits_of (total / 8 * 8) (combined / 2 ^ (total % 8)));
      in_buffer = omega arith;
      pending = omega arith;
      accum_fits = mod-lt combined (two_pow_pos (total % 8));
    };
    kept_all = st.same_flag ∙ h;
    appended = unfold finish in finish-content t st;
    same_size = st.same_size;
    same_length = st.same_length;
  }

  Stopped-IsValid :
      (t : Bitstream)
      → IsValid s
      → Stopped s t
      → IsValid (keep_rest combined (total % 8) t)
        × ((keep_rest combined (total % 8) t).overflow ≡ true)
  unfolding keep_rest
  Stopped-IsValid t v st = simp st.flag (
    record {
      in_size = omega arith;
      in_buffer = omega arith;
      pending = omega arith;
      accum_fits = rw (st.same_accum, st.same_pending) v.accum_fits;
    },
    refl,
  )

-- For at most 32 bits of a value below 2^32, on a valid stream without overflow and with room for
-- the bytes that are completed, bs_write_u appends exactly the low bits of the value, most
-- significant first, and keeps the stream valid and its size.
pub bs_write_u-Wrote :
    (bits val : ℕ) (s : Bitstream)
    → bits ≤ 32
    → val < 2 ^ 32
    → IsValid s
    → s.overflow ≡ false
    → Fits s (bits_of bits val)
    → Wrote s (bits_of bits val) (bs_write_u bits val s)
bs_write_u-Wrote zero val s wide small v h fits =
    unfold bs_write_u bits_of in simp h (Wrote-nothing s v h)
bs_write_u-Wrote (suc b) val s wide small v h fits =
    let fit : s.byte_offset + total (suc b) val s / 8 ≤ s.size =
      unfold total in rw (length-bits_of (suc b) val) at fits in
    let c : ℕ = joined s (suc b) val in
    let n : ℕ = total (suc b) val s in
    let loop = write_bytes-Stored c (n % 8) (n / 8) s v.in_buffer fit in
    rw (bs_write_u-run (suc b) val s (omega arith) wide small h) (
      rw (keep_rest_lem c (n % 8) (write_bytes c (n % 8) (n / 8) s) (loop.same_flag ∙ h))
        (Stored-Wrote (suc b) val s (write_bytes c (n % 8) (n / 8) s) v h fit loop))

-- For at most 32 bits of a value below 2^32, on a valid stream without overflow and without room
-- for the bytes that are completed, bs_write_u raises the overflow flag and keeps the stream
-- valid.
pub bs_write_u-full :
    (bits val : ℕ) (s : Bitstream)
    → bits ≤ 32
    → val < 2 ^ 32
    → IsValid s
    → s.overflow ≡ false
    → ¬ Fits s (bits_of bits val)
    → IsValid (bs_write_u bits val s) × ((bs_write_u bits val s).overflow ≡ true)
bs_write_u-full zero val s wide small v h full = unfold bits_of in absurd (full (omega arith))
bs_write_u-full (suc b) val s wide small v h full =
    let over : s.size < s.byte_offset + total (suc b) val s / 8 =
      unfold total in omega (arith, rw (length-bits_of (suc b) val) at full) in
    rw (bs_write_u-run (suc b) val s (omega arith) wide small h) (
      let c : ℕ = joined s (suc b) val in
      let n : ℕ = total (suc b) val s in
      Stopped-IsValid (suc b) val s (write_bytes c (n % 8) (n / 8) s) v
        (write_bytes-Stopped c (n % 8) (n / 8) s v.in_size over))

-- After an overflow nothing changes any more.
pub bs_write_u-sticky :
    (bits val : ℕ) (s : Bitstream) → s.overflow ≡ true → bs_write_u bits val s ≡ s
unfolding bs_write_u
bs_write_u-sticky bits val s h = simp h
