-- ===== src/Cabac/Golomb.antt =====
-- The suffix of `cabac_encode_ue_bypass` of cabac.c is the one of H.264 9.3.2.3: a string of ones
-- that ends with 0, and the bits behind it.
use native.Mathlib.Nat.{
  add-mul, mul_assoc, mul_comm, mul-add-mod_self_right, mod-eq_of_lt, div-add-mod',
  mul-le-mul_right, div-lt_iff_lt-mul, pow-le-pow_right,
}
use mathlib.Core.Path.{subst}
use bc250_vulkan_encode_stop.Base.{
  ℕ, zero, suc, ◌+◌, ◌-◌, ◌*◌, ◌/◌, ◌%◌, ◌^◌, bit_and, ◌≤◌, ◌<◌, ◌≡◌, refl, sym, ap, ◌∙◌, arith,
  Bool, true, false, List, [], ◌∷◌, ◌++◌, map, replicate, get_or, append_assoc, ◌==◌, ==_iff,
}
use bc250_vulkan_encode_stop.Base.Below.{all_below, all_below-holds}
use bc250_vulkan_encode_stop.Bits.{
  bits_of, bits_of-fields, and_mask, two_pow_add, two_pow_pos, two_pow_suc,
}
use bc250_vulkan_encode_stop.Cabac.{
  CabacEngine, ue_bypass_loop, cabac_clz32, cabac_encode_ue_bypass,
}
use bc250_vulkan_encode_stop.Cabac.Tables.{cabac_bypass_lut}
use bc250_vulkan_encode_stop.Cabac.Exact.{bypass}
use bc250_vulkan_encode_stop.Cabac.Escape.{Codes, ue_bypass_loop-Codes, clz32_loop-counts}

-- `j` ones, a zero, and the lowest bits of a number.
unfoldable pub suffix_bits : ℕ → ℕ → ℕ → List Bool
unfolding bits_of
suffix_bits exp_bits j rest = replicate j true ++ (false ∷ bits_of (exp_bits + j) rest)

all_ones : (j : ℕ) → bits_of j (2 ^ j - 1) ≡ replicate j true
unfolding bits_of
all_ones zero = refl
all_ones (suc j) =
    let split : 2 ^ suc j - 1 ≡ 1 * 2 ^ j + (2 ^ j - 1) =
      omega (arith, two_pow_suc j, two_pow_pos j) in
    let small : 2 ^ j - 1 < 2 ^ j = omega (arith, two_pow_pos j) in
    let count : suc j ≡ 1 + j = omega arith in
    ap (bits_of (suc j)) split
    ∙ ap (λ (n : ℕ). bits_of n (1 * 2 ^ j + (2 ^ j - 1))) count
    ∙ bits_of-fields 1 j 1 (2 ^ j - 1) small
    ∙ ap (λ (l : List Bool). true ∷ l) (all_ones j)

ones_and_zero : (j : ℕ) → bits_of (j + 1) (2 * 2 ^ j - 2) ≡ replicate j true ++ (false ∷ [])
unfolding bits_of
ones_and_zero j =
    let split : 2 * 2 ^ j - 2 ≡ (2 ^ j - 1) * 2 ^ 1 + 0 = omega arith in
    ap (bits_of (j + 1)) split
    ∙ bits_of-fields j 1 (2 ^ j - 1) 0 (omega arith)
    ∙ ap (λ (l : List Bool). l ++ bits_of 1 0) (all_ones j)

lut_test : ℕ → Bool
lut_test j = (get_or cabac_bypass_lut j 0 + 2 ^ j) % 2 ^ 32 == (2 * 2 ^ j - 2) * 2 ^ j

lut_tested : all_below lut_test 16 ≡ true
unfolding all_below lut_test cabac_bypass_lut
lut_tested = refl

lut_entry :
    (j : ℕ) → j < 16 → (get_or cabac_bypass_lut j 0 + 2 ^ j) % 2 ^ 32 ≡ (2 * 2 ^ j - 2) * 2 ^ j
unfolding lut_test
lut_entry j h =
    (==_iff ((get_or cabac_bypass_lut j 0 + 2 ^ j) % 2 ^ 32) ((2 * 2 ^ j - 2) * 2 ^ j)).0
      (all_below-holds lut_test 16 j h lut_tested)

-- A 32-bit word loses what a table entry has above 32 bits.
wrapped :
    (entry j_power g scale rest w : ℕ)
    → (entry + j_power) % w ≡ g
    → g * scale + rest < w
    → (entry * scale + (j_power * scale + rest)) % w ≡ g * scale + rest
wrapped entry j_power g scale rest w same small =
    let n = entry + j_power in
    let digits = div-add-mod' n w in
    let sum : entry * scale + (j_power * scale + rest) ≡ n / w * scale * w + (g * scale + rest) =
      omega (
        arith,
        add-mul entry j_power scale,
        ap (λ (t : ℕ). t * scale) (sym digits ∙ ap (λ (t : ℕ). n / w * w + t) same),
        add-mul (n / w * w) g scale,
        mul_assoc (n / w) w scale,
        mul_assoc (n / w) scale w,
        mul_comm w scale,
      ) in
    ap (λ (t : ℕ). t % w) sum
    ∙ mul-add-mod_self_right (n / w * scale) w (g * scale + rest)
    ∙ mod-eq_of_lt small

first_chunk : (x i n : ℕ) → x < 2 ^ (i + n) → i ≤ 8 → x / 2 ^ n % 2 ^ 8 ≡ x / 2 ^ n % 2 ^ i
first_chunk x i n h small =
    let below : x / 2 ^ n < 2 ^ i =
      (div-lt_iff_lt-mul {k = 2 ^ n} {x = x} {y = 2 ^ i} (two_pow_pos n)).1
        (omega (arith, h, two_pow_add i n, mul_comm (2 ^ n) (2 ^ i))) in
    let bound = pow-le-pow_right {n = 2} (omega arith) {i = i} {j = 8} small in
    mod-eq_of_lt {n = x / 2 ^ n} {m = 2 ^ 8} (omega (arith, below, bound))
    ∙ sym (mod-eq_of_lt below)

-- A value, with 2^exp_bits added, of which the highest bit is number exp_bits + j.
module _ (exp_bits j rest : ℕ) (table : j < 16) (word : exp_bits + j + (j + 1) ≤ 32) where
  abbrev top : ℕ
  top = exp_bits + j

  abbrev offset : ℕ
  offset = 2 ^ top + rest

  clz_top : rest < 2 ^ top → 31 - cabac_clz32 offset ≡ top
  unfolding cabac_clz32
  clz_top h =
      let whole : 31 - top + top ≡ 31 = omega (arith, word) in
      let power : 2 ^ top * 2 ^ (31 - top) ≡ 2 ^ 31 =
        sym (two_pow_add (31 - top) top) ∙ ap (λ (n : ℕ). 2 ^ n) whole in
      let low = mul-le-mul_right {m = 2 ^ top} {n = offset} (2 ^ (31 - top)) (omega arith) in
      let high =
        mul-le-mul_right {m = offset + 1} {n = 2 * 2 ^ top} (2 ^ (31 - top)) (omega (arith, h)) in
      let counted =
        clz32_loop-counts 32 (31 - top) offset 0 (omega arith) (omega (arith, low, power)) (
          omega (
            arith,
            high,
            power,
            add-mul offset 1 (2 ^ (31 - top)),
            mul_assoc 2 (2 ^ top) (2 ^ (31 - top)),
            two_pow_pos (31 - top),
          )) in
      omega (arith, counted, word)

  suffix_small : rest < 2 ^ top → (2 * 2 ^ j - 2) * 2 ^ top + rest < 2 ^ (j + 1 + top)
  suffix_small h =
      let room =
        mul-le-mul_right {m = 2 * 2 ^ j - 2 + 1} {n = 2 ^ suc j} (2 ^ top)
          (omega (arith, two_pow_suc j, two_pow_pos j)) in
      let exponent : j + 1 + top ≡ top + suc j = omega arith in
      let total : 2 ^ (j + 1 + top) ≡ 2 ^ suc j * 2 ^ top =
        ap (λ (n : ℕ). 2 ^ n) exponent ∙ two_pow_add top (suc j) in
      omega (arith, h, room, total, add-mul (2 * 2 ^ j - 2) 1 (2 ^ top))

  -- The word that goes out.
  suffix_word :
      rest < 2 ^ top
      → (get_or cabac_bypass_lut j 0 * 2 ^ exp_bits + offset) % 2 ^ 32
        ≡ (2 * 2 ^ j - 2) * 2 ^ top + rest
  suffix_word h =
      let power : 2 ^ top ≡ 2 ^ j * 2 ^ exp_bits = two_pow_add exp_bits j in
      let g = (2 * 2 ^ j - 2) * 2 ^ j in
      let scale = mul_assoc (2 * 2 ^ j - 2) (2 ^ j) (2 ^ exp_bits) in
      let product = ap (λ (t : ℕ). (2 * 2 ^ j - 2) * t) power in
      let bound =
        pow-le-pow_right {n = 2} (omega arith) {i = j + 1 + top} {j = 32} (omega (arith, word)) in
      let small : g * 2 ^ exp_bits + rest < 2 ^ 32 =
        omega (arith, scale, product, suffix_small h, bound) in
      ap (λ (t : ℕ). (get_or cabac_bypass_lut j 0 * 2 ^ exp_bits + (t + rest)) % 2 ^ 32) power
      ∙ wrapped (get_or cabac_bypass_lut j 0) (2 ^ j) g (2 ^ exp_bits) rest (2 ^ 32)
          (lut_entry j table) small
      ∙ omega (arith, scale, product)

  suffix_bits-word :
      rest < 2 ^ top
      → bits_of (j + 1 + top) ((2 * 2 ^ j - 2) * 2 ^ top + rest) ≡ suffix_bits exp_bits j rest
  unfolding suffix_bits
  suffix_bits-word h =
      bits_of-fields (j + 1) top (2 * 2 ^ j - 2) rest h
      ∙ ap (λ (l : List Bool). l ++ bits_of top rest) (ones_and_zero j)
      ∙ append_assoc (replicate j true) (false ∷ []) (bits_of top rest)

  offset_word : rest < 2 ^ top → offset < 2 ^ 32
  offset_word h =
      let bound =
        pow-le-pow_right {n = 2} (omega arith) {i = suc top} {j = 32} (omega (arith, word)) in
      omega (arith, bound, two_pow_suc top, h)

  -- The source puts out the suffix of the value `2^top + rest - 2^exp_bits`.
  pub cabac_encode_ue_bypass-offset :
      (e : CabacEngine) (val : ℕ)
      → rest < 2 ^ top
      → val + 2 ^ exp_bits ≡ offset
      → Codes (map bypass (suffix_bits exp_bits j rest)) e (cabac_encode_ue_bypass e exp_bits val)
  unfolding cabac_encode_ue_bypass
  cabac_encode_ue_bypass-offset e val h same =
      let count = j + 1 + top in
      let m = (count - 1) / 8 in
      let i = bit_and (count - 1) 7 + 1 in
      let x = (2 * 2 ^ j - 2) * 2 ^ top + rest in
      let first : bit_and (count - 1) 7 ≡ (count - 1) % 8 = and_mask 3 (count - 1) in
      let split : count ≡ i + 8 * m = omega (arith, first) in
      let highest : 31 - cabac_clz32 offset ≡ top = clz_top h in
      let prefix : top - exp_bits ≡ j = omega arith in
      let bits : 2 * top + 1 - exp_bits ≡ count = omega arith in
      let whole : offset % 2 ^ 32 ≡ offset = mod-eq_of_lt (offset_word h) in
      let coded = ue_bypass_loop-Codes 8 m i e x (omega (arith, word)) (omega (arith, first)) (
        first_chunk x i (8 * m) (subst (λ (n : ℕ). x < 2 ^ n) split (suffix_small h))
          (omega (arith, first))) in
      let bins = sym (suffix_bits-word h) ∙ ap (λ (n : ℕ). bits_of n x) split in
      let run =
        subst (λ (n : ℕ). Codes (map bypass (bits_of (i + 8 * m) x)) e (ue_bypass_loop 8 e x i n))
          (sym split) coded in
      rw (same, whole, highest, prefix, bits, suffix_word h, bins) run
