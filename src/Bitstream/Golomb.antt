-- ===== src/Bitstream/Golomb.antt =====
-- The Exp-Golomb codes of `bs_write_ue` and `bs_write_se` (H.264, 9.1), the reader that the standard
-- prescribes for them, and the leading-zero count that gives the length.
use native.Mathlib.Nat.{
  pow-le-pow_right, add_comm, mul-le-mul_right, div-add-mod', mod-lt, div-eq_of_lt-le, add-mul,
}
use native.Mathlib.Numerals.{add-one}
use native.Mathlib.Decide.{dec_le}
use bc250_vulkan_encode_stop.Base.{
  ℕ, zero, suc, length, length-append, length-replicate, ◌+◌, ◌-◌, ◌*◌, ◌/◌, ◌%◌, ◌^◌, ◌≤◌, ◌<◌,
  ◌≡◌, ap, ◌∙◌, Bool, true, false, List, [], ◌∷◌, ◌++◌, Option, none, some, arith, append_assoc,
  leb, if◌then◌else◌, replicate, Bool-cases, leb→le, le→leb, inl, inr,
}
use bc250_vulkan_encode_stop.Bits.{
  length-bits_of, bits_of, bits_of-mod, read_bits, read_bits-bits_of, bits_of-zero, two_pow_add,
  two_pow_suc, two_pow_pos, doubled, and_single_bit,
}
use bc250_vulkan_encode_stop.Bitstream.{clz_loop, bc250_clz32, bs_write_ue}
use bc250_vulkan_encode_stop.Bitstream.Writes.{
  Writes, Writes-seq, Writes-code, bs_write_u-Writes, bs_write1-Writes,
}

-- The largest `z ≤ k` with 2^z ≤ x, or 0.
log2_upto : ℕ → ℕ → ℕ
log2_upto zero x = 0
log2_upto (suc k) x = if leb (2 ^ suc k) x then suc k else log2_upto k x

log2_upto_bounds :
    (k x : ℕ)
    → 1 ≤ x
    → x < 2 ^ suc k
    → (2 ^ log2_upto k x ≤ x) × (x < 2 ^ suc (log2_upto k x)) × (log2_upto k x ≤ k)
unfolding log2_upto
log2_upto_bounds zero x h b = (h, b, omega arith)
log2_upto_bounds (suc k) x h b = elim (Bool-cases (leb (2 ^ suc k) x)) [
  | inl e ↦ rw e (leb→le _ _ e, b, omega arith)
  | inr e ↦ let (lo, hi, top) = log2_upto_bounds k x h (ground arith) in rw e (lo, hi, omega arith)
]

-- The position of the highest set bit of a number up to 2^32.
pub log2 : ℕ → ℕ
log2 x = log2_upto 32 x

pub log2_bounds :
    (x : ℕ) → 1 ≤ x → x < 2 ^ 33 → (2 ^ log2 x ≤ x) × (x < 2 ^ suc (log2 x)) × (log2 x ≤ 32)
unfolding log2
log2_bounds x h b = log2_upto_bounds 32 x h b

le_scaled : (x z : ℕ) → x ≤ x * 2 ^ z
le_scaled x z = grind (arith, two_pow_pos z)

-- The loop shifts left until bit 31 is set: `z` rounds bring `x` there.
clz_loop_lem :
    (z fuel x n : ℕ)
    → z < fuel
    → 2 ^ 31 ≤ x * 2 ^ z
    → x * 2 ^ z < 2 ^ 32
    → clz_loop fuel x n ≡ n + z
unfolding clz_loop
clz_loop_lem z zero x n h lo hi = elim h [ ]
clz_loop_lem zero (suc fuel) x n h lo hi = ground (arith, and_single_bit 31 x)
clz_loop_lem (suc z) (suc fuel) x n h lo hi = ground (
  arith,
  doubled x z,
  le_scaled (x * 2) z,
  and_single_bit 31 x,
  clz_loop_lem z fuel (x * 2) (n + 1),
)

log2-lt : (z x : ℕ) → 2 ^ z ≤ x → x < 2 ^ 32 → z ≤ 31
log2-lt z x lo b = elim (dec_le z 31) [
  | yes h ↦ h
  | no h ↦
      absurd (omega (arith, pow-le-pow_right {n = 2} (omega arith) {i = 32} {j = z} (omega arith)))
]

shifted_up :
    (z k x : ℕ)
    → z + k ≡ 31
    → 2 ^ z ≤ x
    → x < 2 ^ suc z
    → (2 ^ 31 ≤ x * 2 ^ k) × (x * 2 ^ k < 2 ^ 32)
shifted_up z k x e lo hi =
    let whole : 2 ^ z * 2 ^ k ≡ 2 ^ 31 =
      omega (arith, two_pow_add k z, ap (λ (t : ℕ). 2 ^ t) (add_comm k z ∙ e)) in
    let above : x + 1 ≤ 2 ^ suc z = omega arith in
    let expand : (x + 1) * 2 ^ k ≡ x * 2 ^ k + 2 ^ k = omega (arith, add-mul x 1 (2 ^ k)) in
    omega (
      arith,
      two_pow_pos k,
      mul-le-mul_right (2 ^ k) lo,
      mul-le-mul_right (2 ^ k) above,
      ap (λ (t : ℕ). t * 2 ^ k) (two_pow_suc z),
    )

-- For a nonzero 32-bit value, 31 less the number of leading zeros that bc250_clz32 counts is the
-- position of its highest set bit.
pub bc250_clz32_lem : (x : ℕ) → 1 ≤ x → x < 2 ^ 32 → 31 - bc250_clz32 x ≡ log2 x
unfolding bc250_clz32
bc250_clz32_lem x h b =
    let (lo, hi, top) = log2_bounds x h (omega arith) in
    let below : log2 x ≤ 31 = log2-lt (log2 x) x lo b in
    omega (
      arith,
      clz_loop_lem (31 - log2 x) 32 x 0 (omega arith)
          (shifted_up (log2 x) (31 - log2 x) x (omega arith) lo hi).0
          (shifted_up (log2 x) (31 - log2 x) x (omega arith) lo hi).1,
    )

-- `val + 1` in binary, behind as many zeros as it has digits below its first.
unfoldable pub ue_code : ℕ → List Bool
ue_code val = replicate (log2 (val + 1)) false ++ bits_of (suc (log2 (val + 1))) (val + 1)

-- For values below 2^32, 2^32 - 1 included, bs_write_ue appends the Exp-Golomb code where there
-- is room for its bytes, raises the flag where there is not, and does nothing after an overflow.
pub bs_write_ue-Writes : (val : ℕ) → val < 2 ^ 32 → Writes (bs_write_ue val) (ue_code val)
unfolding bs_write_ue ue_code bits_of
bs_write_ue-Writes val h = elim (dec_le (val + 1) 0xffffffff) [
  | yes short ↦
      let zeros : 31 - bc250_clz32 (val + 1) ≡ log2 (val + 1) =
        bc250_clz32_lem (val + 1) (omega arith) (omega arith) in
      let (lo, hi, top) = log2_bounds (val + 1) (omega arith) (omega arith) in
      rw (le→leb (val + 1) 0xffffffff short, zeros, add-one (log2 (val + 1)))
        (Writes-code
          (ap (λ l. l ++ bits_of (suc (log2 (val + 1))) (val + 1)) (bits_of-zero (log2 (val + 1))))
          (Writes-seq (bs_write_u-Writes (log2 (val + 1)) 0 top (omega arith)) (
            bs_write_u-Writes (suc (log2 (val + 1))) (val + 1)
              (omega (arith, log2-lt (log2 (val + 1)) (val + 1) lo (omega arith))) (omega arith))))
  | no long ↦
      let last : val ≡ 0xffffffff = omega arith in
      rw last (
        unfold log2 log2_upto in
        Writes-seq (bs_write_u-Writes 32 0 (omega arith) (omega arith)) (
          Writes-seq (bs_write1-Writes 1 (omega arith))
            (bs_write_u-Writes 32 0 (omega arith) (omega arith))))
]

-- The reader of 9.1: `leadingZeroBits` zeros, a one, and as many bits more.
unfoldable pub read_ue_from : ℕ → List Bool → Option (ℕ × List Bool)
read_ue_from leading [] = none
read_ue_from leading (false ∷ bits) = read_ue_from (suc leading) bits
read_ue_from leading (true ∷ bits) = elim (read_bits leading 0 bits) [
  | none ↦ none
  | some (suffix, rest) ↦ some (2 ^ leading - 1 + suffix, rest)
]

unfoldable pub read_ue : List Bool → Option (ℕ × List Bool)
unfolding read_ue_from
read_ue bits = read_ue_from 0 bits

read_ue_from-replicate :
    (z n : ℕ) (bits : List Bool)
    → read_ue_from n (replicate z false ++ bits) ≡ read_ue_from (n + z) bits
unfolding read_ue_from
read_ue_from-replicate zero n bits = ap (λ (k : ℕ). read_ue_from k bits) (omega arith)
read_ue_from-replicate (suc z) n bits =
    read_ue_from-replicate z (suc n) bits ∙ ap (λ (k : ℕ). read_ue_from k bits) (omega arith)

lead_one : (z w : ℕ) → 2 ^ z ≤ w → w < 2 ^ suc z → w / 2 ^ z ≡ 1
lead_one z w lo hi = div-eq_of_lt-le (2 ^ z) (omega arith) (omega (arith, two_pow_suc z))

-- The reader on a code of `z` zeros and a number of `z + 1` digits.
read_ue_from-digits :
    (z w : ℕ) (rest : List Bool)
    → 2 ^ z ≤ w
    → w < 2 ^ suc z
    → read_ue_from z (bits_of (suc z) w ++ rest) ≡ some (w - 1, rest)
unfolding read_ue_from bits_of
read_ue_from-digits z w rest lo hi =
    let digits : read_bits z 0 (bits_of z w ++ rest) ≡ some (w % 2 ^ z, rest) =
      rw (← bits_of-mod z w) (
        read_bits-bits_of z 0 (w % 2 ^ z) rest (mod-lt w (two_pow_pos z))
        ∙ ap (λ (t : ℕ). some (t, rest)) (omega arith)) in
    let whole : 2 ^ z - 1 + w % 2 ^ z ≡ w - 1 = omega (
      arith,
      two_pow_pos z,
      div-add-mod' w (2 ^ z),
      ap (λ (t : ℕ). t * 2 ^ z) (lead_one z w lo hi),
    ) in
    rw (lead_one z w lo hi) (rw (digits, read_ue_from) (ap (λ (t : ℕ). some (t, rest)) whole))

-- The reader takes back every value below 2^32 from its code, and leaves what follows.
pub read_ue-ue_code :
    (val : ℕ) (rest : List Bool) → val < 2 ^ 32 → read_ue (ue_code val ++ rest) ≡ some (val, rest)
unfolding read_ue ue_code
read_ue-ue_code val rest h =
    let w : ℕ = val + 1 in
    let (lo, hi, top) = log2_bounds w (omega arith) (omega arith) in
    rw (append_assoc (replicate (log2 w) false) (bits_of (suc (log2 w)) w) rest) (
      read_ue_from-replicate (log2 w) 0 (bits_of (suc (log2 w)) w ++ rest)
      ∙ ap (λ (k : ℕ). read_ue_from k (bits_of (suc (log2 w)) w ++ rest)) (omega arith)
      ∙ read_ue_from-digits (log2 w) w rest lo hi
      ∙ ap (λ (t : ℕ). some (t, rest)) (omega arith))

-- For every value below 2^32, 2^32 - 1 included, bs_write_ue writes a code, under the conditions
-- of room and overflow of any writer, from which the reader of H.264, 9.1, takes the value back,
-- whatever follows.
pub bs_write_ue-read :
    (val : ℕ)
    → val < 2 ^ 32
    → (code : List Bool) × (Writes (bs_write_ue val) code
        × ((rest : List Bool) → read_ue (code ++ rest) ≡ some (val, rest)))
bs_write_ue-read val h =
    (ue_code val, (bs_write_ue-Writes val h, λ rest. read_ue-ue_code val rest h))

pub length-ue_code : (val : ℕ) → val < 2 ^ 32 → length (ue_code val) ≤ 65
unfolding ue_code
length-ue_code val h =
    let (lo, hi, top) = log2_bounds (val + 1) (omega arith) (omega arith) in
    omega (
      arith,
      length-append (replicate (log2 (val + 1)) false) (bits_of (suc (log2 (val + 1))) (val + 1)),
      length-replicate (log2 (val + 1)) false,
      length-bits_of (suc (log2 (val + 1))) (val + 1),
    )
