-- ===== src/Hevc/Quantize/Nearest.antt =====
-- What the quantization and the dequantization of hevc_intra.c leave of a coefficient.
use native.Mathlib.Nat.{div-le_of_le-mul}
use bc250_vulkan_encode_stop.Base.{
  ℕ, suc, ◌+◌, ◌*◌, ◌/◌, ◌%◌, ◌^◌, ◌≤◌, ◌<◌, ◌≡◌, ap, arith, ltb, if_split, lt→ltb, if◌then◌else◌,
}
use bc250_vulkan_encode_stop.Base.Int.{
  ℤ, pos, negsuc, pos_part, neg_part, ◌+ℤ◌, ◌-ℤ◌, ◌*ℤ◌, +ℤ_parts, -ℤ_parts,
}
use bc250_vulkan_encode_stop.Base.Shift.{shr, shr_bounds, *ℤ_parts, Within}
use bc250_vulkan_encode_stop.Blocks.Quantize.{nearest}
use bc250_vulkan_encode_stop.Hevc.Transform.{clip_coeff}
use bc250_vulkan_encode_stop.Hevc.Transform.Bounds.{clip_coeff-small}
use bc250_vulkan_encode_stop.Hevc.Quantize.{
  denom_of, quantize_level, divide_level, signed_level, dequant_one,
}
use bc250_vulkan_encode_stop.Hevc.Quantize.Reciprocal.{quantize_level-divide_level, denom-positive}

-- A value near an int16_t stays as near when it is clipped.
clip_coeff-near :
    (w raw : ℤ) (b : ℕ)
    → Within 32767 raw
    → 32 * pos_part w + 32 * neg_part raw ≤ 32 * neg_part w + 32 * pos_part raw + b
    → 32 * neg_part w + 32 * pos_part raw ≤ 32 * pos_part w + 32 * neg_part raw + b
    → (32 * pos_part (clip_coeff w) + 32 * neg_part raw
        ≤ 32 * neg_part (clip_coeff w) + 32 * pos_part raw + b)
      × (32 * neg_part (clip_coeff w) + 32 * pos_part raw
          ≤ 32 * pos_part (clip_coeff w) + 32 * neg_part raw + b)
unfolding clip_coeff
clip_coeff-near w raw b h p q = ground arith

-- A level with the sign of a coefficient.
abbrev with_sign : ℤ → ℕ → ℤ
with_sign raw level = if ltb 0 (neg_part raw) then pos 0 -ℤ pos level else pos level

signed_level-fits :
    (raw : ℤ) (level : ℕ) → level ≤ 32767 → signed_level raw level ≡ with_sign raw level
unfolding signed_level
signed_level-fits raw level h = clip_coeff-small (with_sign raw level) (
    if_split (Within 32767) (ltb 0 (neg_part raw))
      (λ e.
        (omega (arith, -ℤ_parts (pos 0) (pos level)), omega (arith, -ℤ_parts (pos 0) (pos level))))
      (λ e. (omega arith, omega arith)))

-- The two values differ by at most `b` when both are scaled by 32.
abbrev pub Near : ℕ → ℤ → ℤ → Type 0
Near b v w =
    (32 * pos_part v + 32 * neg_part w ≤ 32 * neg_part v + 32 * pos_part w + b)
    × (32 * neg_part v + 32 * pos_part w ≤ 32 * pos_part v + 32 * neg_part w + b)

shifted-Near :
    (raw : ℤ) (d level : ℕ)
    → level * d ≤ (pos_part raw + neg_part raw) * 32 + d / 2
    → (pos_part raw + neg_part raw) * 32 + d / 2 < level * d + d
    → d % 2 ≡ 0
    → Near (d / 2 + 16) (shr (with_sign raw level *ℤ pos d +ℤ pos 16) 5) raw
shifted-Near (pos n) d level low high even =
    let v = pos level *ℤ pos d in
    let facts = shr_bounds (v +ℤ pos 16) 5 in
    (
      omega (arith, facts.0, +ℤ_parts v (pos 16), *ℤ_parts (pos level) (pos d)),
      omega (arith, facts.1, +ℤ_parts v (pos 16), *ℤ_parts (pos level) (pos d)),
    )
shifted-Near (negsuc n) d level low high even =
    let l = pos 0 -ℤ pos level in
    let v = l *ℤ pos d in
    let facts = shr_bounds (v +ℤ pos 16) 5 in
    let sign = ap (λ (t : ℕ). t * d) (-ℤ_parts (pos 0) (pos level)) in
    rw (lt→ltb 0 (suc n) (omega arith)) (
      omega (arith, facts.0, +ℤ_parts v (pos 16), *ℤ_parts l (pos d), sign),
      omega (arith, facts.1, +ℤ_parts v (pos 16), *ℤ_parts l (pos d), sign),
    )

divided-Near :
    (qp : ℕ) (raw : ℤ)
    → Within 32767 raw
    → Near (denom_of qp / 2 + 16) (dequant_one (divide_level 5 qp raw) (denom_of qp) 16) raw
unfolding dequant_one divide_level
divided-Near qp raw h =
    let d = denom_of qp in
    let num = (pos_part raw + neg_part raw) * 2 ^ 5 in
    let level = (num + d / 2) / d in
    let close = nearest num d (omega (arith, denom-positive qp)) in
    let magnitude : pos_part raw + neg_part raw ≤ 32767 = ground arith in
    let small : level ≤ 32767 = div-le_of_le-mul d (omega (arith, magnitude, denom-positive qp)) in
    let near = shifted-Near raw d level close.0 close.1 (denom-positive qp).1 in
    rw (signed_level-fits raw level small) (
      clip_coeff-near (shr (with_sign raw level *ℤ pos d +ℤ pos 16) 5) raw (d / 2 + 16) h near.0
        near.1)

-- For every QP up to 51 and a coefficient of a magnitude of at most 32767, the value that
-- dequantization restores from its level, 32 times, differs from 32 times the coefficient by at
-- most half the divisor and 16.
pub dequant_one-quantize_level :
    (qp : ℕ) (raw : ℤ)
    → qp ≤ 51
    → Within 32767 raw
    → Near (denom_of qp / 2 + 16) (dequant_one (quantize_level qp raw) (denom_of qp) 16) raw
dequant_one-quantize_level qp raw range h =
    rw (quantize_level-divide_level qp raw range (omega (arith, h.0), omega (arith, h.1)))
      (divided-Near qp raw h)
