-- ===== src/Cavlc/LevelCode.antt =====
-- The codes of coefficient levels (H.264, 9.2.2.1): what `cavlc_write_one_level` writes, and the reader
-- of the standard for it.
use mathlib.Core.Path.{subst}
use native.Mathlib.Nat.{pow-le-pow_right, div-add-mod', mod-lt, mul-le-mul_right}
use native.Mathlib.Decide.{dec_le}
use bc250_vulkan_encode_stop.Base.{
  ℕ, zero, suc, ◌+◌, ◌-◌, ◌*◌, ◌/◌, ◌%◌, ◌^◌, ◌≤◌, ◌<◌, ◌≡◌, refl, ap, ◌∙◌, Bool, true, false, ◌&&◌,
  List, [], ◌∷◌, ◌++◌, Option, none, some, arith, leb, ltb, ◌==◌, if◌then◌else◌, replicate,
  append_assoc, bit_and, if_split, leb→le,
}
use bc250_vulkan_encode_stop.Bits.{
  bits_of, read_bits, read_bits-bits_of, bits_of-zero, and_mask, two_pow_suc, two_pow_pos,
}
use bc250_vulkan_encode_stop.Bitstream.{Writer, ◌▸◌, bs_write_u, bs_write1}
use bc250_vulkan_encode_stop.Bitstream.Writes.{
  Writes, Writes-seq, Writes-nothing, Writes-code, bs_write_u-Writes, bs_write1-Writes,
  bs_write_u-Writes_eq,
}
use bc250_vulkan_encode_stop.Cavlc.{bs_write_zeros}
use bc250_vulkan_encode_stop.Cavlc.Residual.{suffix_size_loop, write_escape, write_level_code}

-- level_prefix: the zeros before a one.
unfoldable pub read_prefix : ℕ → List Bool → Option (ℕ × List Bool)
read_prefix leading [] = none
read_prefix leading (false ∷ bits) = read_prefix (suc leading) bits
read_prefix leading (true ∷ bits) = some (leading, bits)

-- levelSuffixSize.
unfoldable pub suffix_bits : ℕ → ℕ → ℕ
suffix_bits suffix_length prefix =
    if prefix == 14 && suffix_length == 0
    then 4
    else (if leb 15 prefix then prefix - 3 else suffix_length)

-- levelCode, without the 2 that a first level adds.
unfoldable pub level_code_value : ℕ → ℕ → ℕ → ℕ
level_code_value suffix_length prefix suffix =
    (if leb 15 prefix then 15 else prefix) * 2 ^ suffix_length
    + suffix
    + (if leb 15 prefix && suffix_length == 0 then 15 else 0)
    + (if leb 16 prefix then 2 ^ (prefix - 3) - 4096 else 0)

unfoldable pub read_level_code : ℕ → List Bool → Option (ℕ × List Bool)
unfolding read_prefix suffix_bits level_code_value
read_level_code suffix_length bits = elim (read_prefix 0 bits) [
  | none ↦ none
  | some (prefix, after) ↦ elim (read_bits (suffix_bits suffix_length prefix) 0 after) [
    | none ↦ none
    | some (suffix, rest) ↦ some (level_code_value suffix_length prefix suffix, rest)
  ]
]

-- A prefix and a suffix of `w` bits.
unfoldable pub level_bits : ℕ → ℕ → ℕ → List Bool
level_bits prefix w suffix = replicate prefix false ++ (true ∷ bits_of w suffix)

read_prefix-replicate :
    (z n : ℕ) (bits : List Bool)
    → read_prefix n (replicate z false ++ (true ∷ bits)) ≡ some (n + z, bits)
unfolding read_prefix
read_prefix-replicate zero n bits = ap (λ (k : ℕ). some (k, bits)) (omega arith)
read_prefix-replicate (suc z) n bits =
    read_prefix-replicate z (suc n) bits ∙ ap (λ (k : ℕ). some (k, bits)) (omega arith)

read_prefix-zero :
    (z : ℕ) (bits : List Bool) → read_prefix 0 (replicate z false ++ (true ∷ bits)) ≡ some (z, bits)
read_prefix-zero z bits =
    read_prefix-replicate z 0 bits ∙ ap (λ (k : ℕ). some (k, bits)) (omega arith)

-- The reader on a prefix with the suffix that belongs to it.
read_level_code-level_bits :
    (suffix_length prefix w suffix : ℕ) (rest : List Bool)
    → suffix_bits suffix_length prefix ≡ w
    → suffix < 2 ^ w
    → read_level_code suffix_length (level_bits prefix w suffix ++ rest)
      ≡ some (level_code_value suffix_length prefix suffix, rest)
unfolding read_level_code level_bits
read_level_code-level_bits suffix_length prefix w suffix rest e h =
    let digits : read_bits w 0 (bits_of w suffix ++ rest) ≡ some (suffix, rest) =
      read_bits-bits_of w 0 suffix rest h ∙ ap (λ (t : ℕ). some (t, rest)) (omega arith) in
    rw (append_assoc (replicate prefix false) (true ∷ bits_of w suffix) rest) (
      rw (read_prefix-zero prefix (bits_of w suffix ++ rest), read_level_code)
        (simp (e, digits) refl))

bs_write_zeros-Writes : (n : ℕ) → n ≤ 32 → Writes (bs_write_zeros n) (replicate n false)
unfolding bs_write_zeros
bs_write_zeros-Writes zero h = Writes-nothing
bs_write_zeros-Writes (suc n) h =
    let some_bits : ltb 0 (suc n) ≡ true = ground arith in
    rw some_bits (Writes-code (bits_of-zero (suc n)) (bs_write_u-Writes (suc n) 0 h (omega arith)))

level_bits-Writes :
    (prefix w val suffix : ℕ)
    → prefix ≤ 32
    → w ≤ 32
    → suffix < 2 ^ 32
    → val ≡ suffix
    → Writes (bs_write_zeros prefix ▸ bs_write1 1 ▸ bs_write_u w val) (level_bits prefix w suffix)
unfolding level_bits
level_bits-Writes prefix w val suffix hp hw hs e =
    Writes-seq (bs_write_zeros-Writes prefix hp)
      (Writes-seq (bs_write1-Writes 1 (omega arith)) (bs_write_u-Writes_eq w val suffix hw hs e))

-- The size that the loop finds is the position of the highest set bit.
suffix_size_loop_bounds :
    (fuel size total : ℕ)
    → 2 ^ size ≤ total
    → total < 2 ^ (size + fuel + 1)
    → (2 ^ suffix_size_loop fuel size total ≤ total)
      × (total < 2 ^ (suffix_size_loop fuel size total + 1))
unfolding suffix_size_loop
suffix_size_loop_bounds zero size total h k = (h, subst (λ (e : ℕ). total < 2 ^ e) (omega arith) k)
suffix_size_loop_bounds (suc fuel) size total h k =
    if_split (λ (r : ℕ). (2 ^ r ≤ total) × (total < 2 ^ (r + 1))) (leb (2 ^ (size + 1)) total)
      (λ e.
        suffix_size_loop_bounds fuel (size + 1) total (leb→le (2 ^ (size + 1)) total e)
          (subst (λ (n : ℕ). total < 2 ^ n) (omega arith) k))
      (λ e. (h, ground arith))

-- For an escape the position is 12..19.
suffix_size_range :
    (total k : ℕ)
    → 4096 ≤ total
    → total < 2 ^ 20
    → (2 ^ k ≤ total) × (total < 2 ^ (k + 1))
    → (12 ≤ k) × (k ≤ 19)
suffix_size_range total k lo hi (below, above) = (
  elim (dec_le 12 k) [
    | yes h ↦ h
    | no h ↦ absurd (
        omega (
          arith,
          h,
          above,
          lo,
          pow-le-pow_right {n = 2} (omega arith) {i = k + 1} {j = 12} (omega (arith, h)),
        ))
  ],
  elim (dec_le k 19) [
    | yes h ↦ h
    | no h ↦ absurd (
        omega (
          arith,
          h,
          below,
          hi,
          pow-le-pow_right {n = 2} (omega arith) {i = 20} {j = k} (omega (arith, h)),
        ))
  ],
)

-- A writer whose code the reader takes back as the level code `code`.
pub record IsLevelCode (f : Writer) (suffix_length code : ℕ) : Type 0 where
  pub bits : List Bool
  pub written : Writes f bits
  pub taken : (rest : List Bool) → read_level_code suffix_length (bits ++ rest) ≡ some (code, rest)

code-IsLevelCode :
    (suffix_length prefix w val suffix code : ℕ)
    → prefix ≤ 32
    → w ≤ 32
    → suffix < 2 ^ w
    → suffix < 2 ^ 32
    → val ≡ suffix
    → suffix_bits suffix_length prefix ≡ w
    → level_code_value suffix_length prefix suffix ≡ code
    → IsLevelCode (bs_write_zeros prefix ▸ bs_write1 1 ▸ bs_write_u w val) suffix_length code
code-IsLevelCode suffix_length prefix w val suffix code hp hw hs small e size value = record {
  bits = level_bits prefix w suffix;
  written = level_bits-Writes prefix w val suffix hp hw small e;
  taken = λ rest.
      read_level_code-level_bits suffix_length prefix w suffix rest size hs
      ∙ ap (λ (c : ℕ). some (c, rest)) value;
}

escape_size : (suffix_length k : ℕ) → 12 ≤ k → suffix_bits suffix_length (k + 3) ≡ k
unfolding suffix_bits
escape_size suffix_length k h = ground arith

escape_value :
    (suffix_length k total : ℕ)
    → 12 ≤ k
    → 2 ^ k ≤ total
    → level_code_value suffix_length (k + 3) (total - 2 ^ k)
      ≡ 15 * 2 ^ suffix_length + (total - 4096) + (if suffix_length == 0 then 15 else 0)
unfolding level_code_value
escape_value suffix_length k total h below =
    let power : 2 ^ (k + 3 - 3) ≡ 2 ^ k = ap (λ (e : ℕ). 2 ^ e) (omega arith) in
    let large : 2 ^ 12 ≤ 2 ^ k = pow-le-pow_right {n = 2} (omega arith) {i = 12} {j = k} h in
    elim (dec_le 13 k) [
      | yes big ↦ ground (arith, power, large, big)
      | no small ↦
          let k_is : k ≡ 12 = omega (arith, h, small) in
          let twelve : 2 ^ k ≡ 2 ^ 12 = ap (λ (e : ℕ). 2 ^ e) k_is in
          ground (arith, power, twelve, k_is)
    ]

escape-IsLevelCode :
    (suffix_length total : ℕ)
    → 4096 ≤ total
    → total < 2 ^ 20
    → IsLevelCode
        (write_escape total)
        suffix_length
        (15 * 2 ^ suffix_length + (total - 4096) + (if suffix_length == 0 then 15 else 0))
unfolding write_escape
escape-IsLevelCode suffix_length total lo hi =
    let k : ℕ = suffix_size_loop 31 0 total in
    let (below, above) = suffix_size_loop_bounds 31 0 total (omega arith) (omega arith) in
    let (low, high) = suffix_size_range total k lo hi (below, above) in
    let double : 2 ^ (k + 1) ≡ 2 * 2 ^ k = ap (λ (e : ℕ). 2 ^ e) (omega arith) ∙ two_pow_suc k in
    code-IsLevelCode suffix_length (k + 3) k (total - 2 ^ k) (total - 2 ^ k)
      (15 * 2 ^ suffix_length + (total - 4096) + (if suffix_length == 0 then 15 else 0))
      (omega arith) (omega arith) (omega arith) (omega arith) refl (escape_size suffix_length k low)
      (escape_value suffix_length k total low below)

short-IsLevelCode : (code : ℕ) → code < 14 → IsLevelCode (bs_write_zeros code ▸ bs_write1 1) 0 code
unfolding level_code_value suffix_bits bits_of
short-IsLevelCode code h = record {
  bits = level_bits code 0 0;
  written =
      unfold level_bits in
      Writes-seq (bs_write_zeros-Writes code (omega arith)) (bs_write1-Writes 1 (omega arith));
  taken = λ rest.
      read_level_code-level_bits 0 code 0 0 rest (ground arith) (omega arith)
      ∙ ap (λ (c : ℕ). some (c, rest)) (ground arith);
}

middle-IsLevelCode :
    (code : ℕ)
    → 14 ≤ code
    → code < 30
    → IsLevelCode (bs_write_zeros 14 ▸ bs_write1 1 ▸ bs_write_u 4 (code - 14)) 0 code
unfolding level_code_value suffix_bits
middle-IsLevelCode code lo hi =
    code-IsLevelCode 0 14 4 (code - 14) (code - 14) code (omega arith) (omega arith) (omega arith)
      (omega arith) refl refl (omega arith)

suffixed-IsLevelCode :
    (s code : ℕ)
    → suc s ≤ 6
    → code / 2 ^ suc s < 15
    → IsLevelCode
        (bs_write_zeros (code / 2 ^ suc s)
          ▸ bs_write1 1
          ▸ bs_write_u (suc s) (bit_and code (2 ^ suc s - 1)))
        (suc s)
        code
suffixed-IsLevelCode s code hs h =
    let small = mod-lt code (two_pow_pos (suc s)) in
    let bound = pow-le-pow_right {n = 2} (omega arith) {i = suc s} {j = 6} hs in
    code-IsLevelCode (suc s) (code / 2 ^ suc s) (suc s) (bit_and code (2 ^ suc s - 1))
      (code % 2 ^ suc s) code (omega arith) (omega arith) small (omega arith)
      (and_mask (suc s) code) (unfold suffix_bits in ground arith)
      (let whole = div-add-mod' code (2 ^ suc s) in unfold level_code_value in ground arith)

escaped-IsLevelCode :
    (s code : ℕ)
    → suc s ≤ 6
    → code < 2 ^ 18
    → 15 ≤ code / 2 ^ suc s
    → IsLevelCode (write_escape (code - 15 * 2 ^ suc s + 4096)) (suc s) code
escaped-IsLevelCode s code hs hc h =
    let whole = div-add-mod' code (2 ^ suc s) in
    let above = mul-le-mul_right (2 ^ suc s) h in
    let value : 15 * 2 ^ suc s
          + (code - 15 * 2 ^ suc s + 4096 - 4096)
          + (if suc s == 0 then 15 else 0)
        ≡ code =
      ground arith in
    subst (λ (c : ℕ). IsLevelCode (write_escape (code - 15 * 2 ^ suc s + 4096)) (suc s) c) value
      (escape-IsLevelCode (suc s) (code - 15 * 2 ^ suc s + 4096) (omega arith) (omega arith))

-- Every level code below 2^18 is written so that the reader of 9.2.2.1 takes it back, for each of
-- the suffix lengths 0..6: as a prefix alone, with a suffix, or as an escape.
pub write_level_code-IsLevelCode :
    (suffix_length code : ℕ)
    → suffix_length ≤ 6
    → code < 2 ^ 18
    → IsLevelCode (write_level_code suffix_length code) suffix_length code
unfolding write_level_code
write_level_code-IsLevelCode zero code hs hc =
    if_split (λ (f : Writer). IsLevelCode f 0 code) (ltb code 14)
      (λ e. short-IsLevelCode code (ground arith))
      (λ e.
        if_split (λ (f : Writer). IsLevelCode f 0 code) (ltb code 30)
          (λ e2. middle-IsLevelCode code (ground arith) (ground arith))
          (λ e2.
            let value : 15 * 2 ^ 0 + (code + 4066 - 4096) + (if 0 == 0 then 15 else 0) ≡ code =
              ground arith in
            subst (λ (c : ℕ). IsLevelCode (write_escape (code + 4066)) 0 c) value
              (escape-IsLevelCode 0 (code + 4066) (ground arith) (omega arith))))
write_level_code-IsLevelCode (suc s) code hs hc =
    if_split (λ (f : Writer). IsLevelCode f (suc s) code) (ltb (code / 2 ^ suc s) 15)
      (λ e. suffixed-IsLevelCode s code hs (ground arith))
      (λ e. escaped-IsLevelCode s code hs hc (ground arith))
