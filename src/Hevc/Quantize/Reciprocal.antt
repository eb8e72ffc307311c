-- ===== src/Hevc/Quantize/Reciprocal.antt =====
-- The reciprocals of hevc_intra.c against the divisions that they replace.
use native.Mathlib.Nat.{
  div-add-mod', mod-lt, mod-eq_of_lt, lt_of_mul-lt-mul_right, div-div-eq-div-mul, pow-le-pow_right,
  mul_comm, div-eq_of_lt-le, mul-le-mul_right, mul-le-mul,
}
use bc250_vulkan_encode_stop.Base.{
  ℕ, ◌+◌, ◌-◌, ◌*◌, ◌/◌, ◌%◌, ◌^◌, ◌≤◌, ◌<◌, ◌≡◌, refl, sym, ap, ◌∙◌, arith, true, Bool, List, [],
  ◌∷◌, map, ◌&&◌, ltb, get_or, leb,
}
use mathlib.Core.Path.{◌≡⟨◌⟩◌, ◌∎}
use bc250_vulkan_encode_stop.Base.Below.{all_below, all_below-holds}
use bc250_vulkan_encode_stop.Base.Int.{ℤ, pos_part, neg_part}
use bc250_vulkan_encode_stop.Hevc.Quantize.{
  quant_magic, level_scale, denom_of, hevc_flat_m, quantize_level, divide_level, signed_level,
  quantize_levels, flatten, hevc_transform_quant_4x4, hevc_quantize_4x4_ref,
}
use bc250_vulkan_encode_stop.Bits.{two_pow_add, two_pow_pos}
use bc250_vulkan_encode_stop.Base.Shift.{Within, Bounded, map_congr, append-Bounded}
use bc250_vulkan_encode_stop.Hevc.Transform.{
  hevc_forward_transform_4x4, hevc_forward_transform_4x4_ref,
}
use bc250_vulkan_encode_stop.Hevc.Transform.Bounds.{RowsBounded, hevc_forward_transform_4x4-Bounded}
use bc250_vulkan_encode_stop.Hevc.Transform.Butterflies.{hevc_forward_transform_4x4-ref}
use Prim.{tt}

-- A product with `m = (2^k + e) / d`, shifted by k, is the quotient by d.
pub reciprocal : (k m d e n : ℕ) → 1 ≤ d → m * d ≡ k + e → n * e < k → n * m / k ≡ n / d
reciprocal k m d e n positive exact small =
    let sum = div-add-mod' n d in
    let rest = mod-lt n positive in
    let q = n / d in
    let below : q * d * m ≤ n * m = mul-le-mul_right {m = q * d} {n = n} m (omega (arith, sum)) in
    let above : (n + 1) * k ≤ (q * d + d) * k =
      mul-le-mul_right {m = n + 1} {n = q * d + d} k (omega (arith, sum, rest)) in
    let low : q * k ≤ n * m = omega (arith, below, ap (λ (t : ℕ). q * t) exact) in
    let scaled : n * m * d < (q + 1) * k * d =
      omega (arith, above, small, ap (λ (t : ℕ). n * t) exact) in
    div-eq_of_lt-le k low (lt_of_mul-lt-mul_right d scaled)

-- The six entries of the table: positive divisors, the reciprocals rounded up, errors below 2^14.
table_tested :
    all_below
      (λ r.
        let d = hevc_flat_m * get_or level_scale r 0 in
        let m = get_or quant_magic r 0 in
        leb 640 d
        && ltb d 1153
        && ltb m (2 ^ 33)
        && leb (2 ^ 42) (m * d)
        && ltb (m * d) (2 ^ 42 + 849))
      6
    ≡ true
unfolding all_below level_scale quant_magic
table_tested = refl

-- What the entries have.
record Entry (r : ℕ) : Type 0 where
  least : 640 ≤ hevc_flat_m * get_or level_scale r 0
  small : hevc_flat_m * get_or level_scale r 0 < 1153
  magic_small : get_or quant_magic r 0 < 2 ^ 33
  above : 2 ^ 42 ≤ get_or quant_magic r 0 * (hevc_flat_m * get_or level_scale r 0)
  near : get_or quant_magic r 0 * (hevc_flat_m * get_or level_scale r 0) < 2 ^ 42 + 849

entry : (r : ℕ) → r < 6 → Entry r
entry r h =
    let all =
      all_below-holds
        (λ r.
          let d = hevc_flat_m * get_or level_scale r 0 in
          let m = get_or quant_magic r 0 in
          leb 640 d
          && ltb d 1153
          && ltb m (2 ^ 33)
          && leb (2 ^ 42) (m * d)
          && ltb (m * d) (2 ^ 42 + 849))
        6 r h table_tested in
    record {
      least = ground arith;
      small = ground arith;
      magic_small = ground arith;
      above = ground arith;
      near = ground arith;
    }

step_limit : (qp : ℕ) → qp ≤ 51 → 2 ^ (qp / 6) ≤ 256
step_limit qp h = pow-le-pow_right {n = 2} (omega arith) {i = qp / 6} {j = 8} (omega arith)

denom-limit : (qp : ℕ) → qp ≤ 51 → denom_of qp ≤ 294912
unfolding denom_of
denom-limit qp h =
    let d = hevc_flat_m * get_or level_scale (qp % 6) 0 in
    let e = entry (qp % 6) (omega arith) in
    let wide : d * 2 ^ (qp / 6) ≤ 1152 * 2 ^ (qp / 6) =
      mul-le-mul_right {m = d} {n = 1152} (2 ^ (qp / 6)) (omega (arith, e.small)) in
    omega (arith, wide, step_limit qp h)

pub denom-positive : (qp : ℕ) → (640 ≤ denom_of qp) × (denom_of qp % 2 ≡ 0)
unfolding denom_of
denom-positive qp =
    let ls = get_or level_scale (qp % 6) 0 in
    let e = entry (qp % 6) (omega arith) in
    let least : 640 * 1 ≤ 16 * ls * 2 ^ (qp / 6) =
      mul-le-mul {n₁ = 640} {m₁ = 1} {n₂ = 16 * ls} {m₂ = 2 ^ (qp / 6)} (omega (arith, e.least))
        (two_pow_pos (qp / 6)) in
    (omega (arith, least), omega arith)

reciprocal_at :
    (qp n : ℕ)
    → qp ≤ 51
    → n < 2 ^ 28
    → n * get_or quant_magic (qp % 6) 0 % 2 ^ 64 / 2 ^ (42 + qp / 6) ≡ n / denom_of qp
unfolding denom_of
reciprocal_at qp n h small =
    let r = qp % 6 in
    let d = hevc_flat_m * get_or level_scale r 0 in
    let m = get_or quant_magic r 0 in
    let e = entry r (omega arith) in
    let wide : n * m ≤ 2 ^ 28 * m = mul-le-mul_right {m = n} {n = 2 ^ 28} m (omega arith) in
    let fits : n * m < 2 ^ 64 = omega (arith, wide, e.magic_small) in
    let error = m * d - 2 ^ 42 in
    let erred : n * error ≤ 2 ^ 28 * error =
      mul-le-mul_right {m = n} {n = 2 ^ 28} error (omega arith) in
    let near : n * error < 2 ^ 42 = omega (arith, erred, e.near) in
    n * m % 2 ^ 64 / 2 ^ (42 + qp / 6)
    ≡⟨ ap (λ (t : ℕ). t / 2 ^ (42 + qp / 6)) (mod-eq_of_lt fits) ⟩ n * m / 2 ^ (42 + qp / 6)
    ≡⟨ ap (λ (t : ℕ). n * m / t) (two_pow_add 42 (qp / 6) ∙ mul_comm (2 ^ (qp / 6)) (2 ^ 42)) ⟩
      n * m / (2 ^ 42 * 2 ^ (qp / 6))
    ≡⟨ sym (div-div-eq-div-mul (n * m) (2 ^ 42) (2 ^ (qp / 6))) ⟩ n * m / 2 ^ 42 / 2 ^ (qp / 6)
    ≡⟨ ap (λ (t : ℕ). t / 2 ^ (qp / 6))
        (reciprocal (2 ^ 42) m d error n (omega (arith, e.least)) (omega (arith, e.above)) near) ⟩
      n / d / 2 ^ (qp / 6)
    ≡⟨ div-div-eq-div-mul n d (2 ^ (qp / 6)) ⟩ n / (d * 2 ^ (qp / 6)) ∎

-- For a coefficient of at most 2^22 and a QP up to 51 the reciprocal gives the level of the division.
pub quantize_level-divide_level :
    (qp : ℕ) (raw : ℤ)
    → qp ≤ 51
    → Within 4194304 raw
    → quantize_level qp raw ≡ divide_level 5 qp raw
unfolding quantize_level divide_level
quantize_level-divide_level qp raw h small =
    let n = (pos_part raw + neg_part raw) * 2 ^ 5 + denom_of qp / 2 in
    let limit : pos_part raw + neg_part raw ≤ 4194304 = ground arith in
    ap (signed_level raw) (reciprocal_at qp n h (omega (arith, limit, denom-limit qp h)))

flat_Bounded : (b : ℕ) (rows : List (List ℤ)) → RowsBounded b rows → Bounded b (flatten rows)
unfolding flatten
flat_Bounded b [] h = tt
flat_Bounded b (row ∷ rows) h = append-Bounded b row (flatten rows) h.0 (flat_Bounded b rows h.1)

-- For every residual of int16_t values, both transforms and every QP up to 51, the butterflies
-- and the multiplication by a reciprocal give the levels of the matrix products and the literal
-- division.
pub hevc_transform_quant_4x4-ref :
    (residual : List ℤ) (qp : ℕ) (use_dst : Bool)
    → Bounded 32768 residual
    → qp ≤ 51
    → hevc_transform_quant_4x4 residual qp use_dst
      ≡ hevc_quantize_4x4_ref (flatten (hevc_forward_transform_4x4_ref residual use_dst)) qp
unfolding hevc_transform_quant_4x4 hevc_quantize_4x4_ref quantize_levels
hevc_transform_quant_4x4-ref residual qp use_dst h range =
    map_congr 4194304 (quantize_level qp) (divide_level 5 qp)
      (flatten (hevc_forward_transform_4x4 residual use_dst))
      (flat_Bounded 4194304 (hevc_forward_transform_4x4 residual use_dst)
        (hevc_forward_transform_4x4-Bounded residual use_dst h))
      (λ v small. quantize_level-divide_level qp v range small)
    ∙ ap (λ (rows : List (List ℤ)). map (divide_level 5 qp) (flatten rows))
        (hevc_forward_transform_4x4-ref residual use_dst)
