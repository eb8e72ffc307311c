-- ===== src/Bitstream/Signed.antt =====
-- `bs_write_se`: the mapping of signed values (H.264, 9.1.1) and the reader for it.
use bc250_vulkan_encode_stop.Base.{
  ℕ, zero, suc, ◌+◌, ◌-◌, ◌/◌, ◌%◌, ◌^◌, ◌<◌, ◌≡◌, refl, ap, Bool, List, ◌++◌, Option, none, some,
  arith, ◌==◌, if◌then◌else◌,
}
use bc250_vulkan_encode_stop.Base.Int.{ℤ, pos, negsuc, pos_part, neg_part}
use bc250_vulkan_encode_stop.Bitstream.{bs_write_se, se_mapped}
use bc250_vulkan_encode_stop.Bitstream.Writes.{Writes}
use bc250_vulkan_encode_stop.Bitstream.Golomb.{
  ue_code, bs_write_ue-Writes, read_ue, read_ue-ue_code,
}

-- codeNum k stands for (-1)^(k + 1) * ceil (k / 2).
unfoldable pub se_value : ℕ → ℤ
se_value k =
    if k % 2 == 1 then pos ((k + 1) / 2) else (if k == 0 then pos 0 else negsuc (k / 2 - 1))

unfoldable pub read_se : List Bool → Option (ℤ × List Bool)
read_se bits = elim (read_ue bits) [ none ↦ none | some (k, rest) ↦ some (se_value k, rest) ]

unfoldable pub se_code : ℤ → List Bool
se_code val = ue_code (se_mapped val)

-- An int32_t other than INT32_MIN.
abbrev pub IsSeValue : ℤ → Type 0
IsSeValue val = (pos_part val < 2 ^ 31) × (neg_part val < 2 ^ 31)

pub se_mapped-lt : (val : ℤ) → se_mapped val < 2 ^ 32
unfolding se_mapped
se_mapped-lt (pos zero) = omega arith
se_mapped-lt (pos (suc n)) = omega arith
se_mapped-lt (negsuc n) = omega arith

se_value-se_mapped : (val : ℤ) → IsSeValue val → se_value (se_mapped val) ≡ val
unfolding se_mapped se_value
se_value-se_mapped (pos zero) h = refl
se_value-se_mapped (pos (suc n)) h = ground arith
se_value-se_mapped (negsuc n) h = ground arith

-- For every integer bs_write_se appends the Exp-Golomb code of the mapped value where there is
-- room, raises the flag where there is not, and does nothing after an overflow.
pub bs_write_se-Writes : (val : ℤ) → Writes (bs_write_se val) (se_code val)
unfolding bs_write_se se_code
bs_write_se-Writes val = bs_write_ue-Writes (se_mapped val) (se_mapped-lt val)

-- The reader of the standard takes back every int32_t value other than INT32_MIN from its signed
-- code, and leaves what follows.
pub read_se-se_code :
    (val : ℤ) (rest : List Bool) → IsSeValue val → read_se (se_code val ++ rest) ≡ some (val, rest)
unfolding read_se se_code
read_se-se_code val rest h =
    rw (read_ue-ue_code (se_mapped val) rest (se_mapped-lt val), read_se)
      (ap (λ (t : ℤ). some (t, rest)) (se_value-se_mapped val h))
