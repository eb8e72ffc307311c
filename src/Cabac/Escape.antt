-- ===== src/Cabac/Escape.antt =====
-- `cabac_encode_ue_bypass` of cabac.c: the Exp-Golomb suffix of a level or of a motion vector
-- difference, which goes out eight bits at a time.
use native.Mathlib.Nat.{
  add-mul, mul_assoc, mul_comm, mod-lt, mul-add-mod_self_right, mod-eq_of_lt, div-add-mod',
  mul-le-mul_right, mul-le-mul_left,
}
use native.Mathlib.Decide.{dec_le}
use mathlib.Core.Path.{subst}
use bc250_vulkan_encode_stop.Base.{
  ℕ, zero, suc, ◌+◌, ◌-◌, ◌*◌, ◌/◌, ◌%◌, ◌^◌, bit_and, ◌≤◌, ◌<◌, ◌≡◌, refl, sym, ap, ◌∙◌, arith,
  Bool, true, false, List, [], ◌∷◌, ◌++◌, map, if◌then◌else◌, ltb, ltb-false, lt→ltb, ◌==◌,
}
use bc250_vulkan_encode_stop.Bits.{
  odd, bits_of, bits_of-split, and_mask, and_single_bit, two_pow_pos, two_pow_suc,
}
use bc250_vulkan_encode_stop.Cabac.{CabacEngine, put_bits, ue_bypass_loop, clz32_loop}
use bc250_vulkan_encode_stop.Cabac.Exact.{Coder, Bin, bypass, code_bin, code_bins}
use bc250_vulkan_encode_stop.Cabac.Moves.{view, IsCoder, Reaches, coder_eq, moved-Reaches}
use bc250_vulkan_encode_stop.Cabac.Sequence.{AllInTable, cabac_putbyte-unflagged}

-- `after` is `e` with the bins coded, and its overflow flag shows that of `e`.
unfoldable pub Codes : List Bin → CabacEngine → CabacEngine → Type 0
unfolding AllInTable
Codes bins e after =
    (after.buffer.overflow ≡ false → e.buffer.overflow ≡ false)
    × (IsCoder e
        → AllInTable bins
        → after.buffer.overflow ≡ false
        → Reaches e (code_bins (view e) bins) after)

AllInTable-split : (bs cs : List Bin) → AllInTable (bs ++ cs) → AllInTable bs × AllInTable cs
unfolding AllInTable
AllInTable-split [] cs h = (tt, h)
AllInTable-split (b ∷ bs) cs (h, all) =
    let (left, right) = AllInTable-split bs cs all in ((h, left), right)

code_bins-append :
    (c : Coder) (bs cs : List Bin) → code_bins c (bs ++ cs) ≡ code_bins (code_bins c bs) cs
unfolding code_bins
code_bins-append c [] cs = refl
code_bins-append c (b ∷ bs) cs = code_bins-append (code_bin c b) bs cs

-- One string of bins behind the other.
pub Codes-append :
    (bs cs : List Bin) (e mid after : CabacEngine)
    → Codes bs e mid
    → Codes cs mid after
    → Codes (bs ++ cs) e after
unfolding Codes Reaches
Codes-append bs cs e mid after (flag, first) (flag_next, second) = (
  λ ok. flag (flag_next ok),
  λ coding all ok.
      let (left, right) = AllInTable-split bs cs all in
      let (coding_mid, same, kept, unflagged) = first coding left (flag_next ok) in
      let (coding_last, same_last, kept_last, unflagged_mid) = second coding_mid right ok in
      (
        coding_last,
        same_last ∙ ap (λ (c : Coder). code_bins c cs) same ∙ sym (code_bins-append (view e) bs cs),
        kept_last ∙ kept,
        unflagged,
      ),
)

distribute : (l b r t m : ℕ) → (l * 2 + b * r) * t + m * r ≡ l * (2 * t) + (b * t + m) * r
distribute l b r t m = omega (
  arith,
  add-mul (l * 2) (b * r) t,
  add-mul (b * t) m r,
  mul_assoc b r t,
  mul_assoc b t r,
  mul_comm r t,
  mul_assoc l 2 t,
)

bit_share : (n r : ℕ) → (if odd n then r else 0) ≡ n % 2 * r
bit_share n r = elim (dec_le 1 (n % 2)) [
  | yes h ↦ let one : n % 2 ≡ 1 = omega arith in rw one (omega arith)
  | no h ↦ let nothing : n % 2 ≡ 0 = omega (arith, h) in rw nothing (omega arith)
]

low_bits : (y k : ℕ) → y % 2 ^ suc k ≡ y / 2 ^ k % 2 * 2 ^ k + y % 2 ^ k
low_bits y k =
    let t = 2 ^ k in
    let h = y / t / 2 in
    let b = y / t % 2 in
    let power = two_pow_suc k in
    let digits = div-add-mod' y t in
    let split : y / t ≡ 2 * h + b = omega arith in
    let product : y / t * t ≡ h * (2 * t) + b * t =
      ap (λ (n : ℕ). n * t) split
      ∙ (add-mul (2 * h) b t ∙ omega (arith, mul_assoc h 2 t, mul_assoc 2 h t)) in
    let carry : b * t ≤ t = elim (dec_le 1 b) [
      | yes one ↦ let e : b ≡ 1 = omega (arith, one) in rw e (omega arith)
      | no less ↦ let e : b ≡ 0 = omega (arith, less) in rw e (omega arith)
    ] in
    let sum : y ≡ h * (2 * t) + (b * t + y % t) = omega (arith, digits, product) in
    let small : b * t + y % t < 2 * t = omega (arith, carry, mod-lt y (two_pow_pos k)) in
    rw power (
      ap (λ (n : ℕ). n % (2 * t)) sum
      ∙ mul-add-mod_self_right h (2 * t) (b * t + y % t)
      ∙ mod-eq_of_lt small)

-- The part of the interval after `k` bins without contexts.
bypass_bits :
    (k y : ℕ) (c : Coder)
    → code_bins c (map bypass (bits_of k y))
      ≡ record c { low = c.low * 2 ^ k + y % 2 ^ k * c.range; shifts = c.shifts + k }
unfolding code_bins code_bin bits_of
bypass_bits zero y c =
    let whole : y % 2 ^ 0 ≡ 0 = omega arith in
    rw whole (
      coder_eq c (record c { low = c.low * 2 ^ 0 + 0 * c.range; shifts = c.shifts + 0 })
        (omega arith) refl (omega arith) refl)
bypass_bits (suc k) y c =
    let first = code_bin c (bypass (odd (y / 2 ^ k))) in
    bypass_bits k y first
    ∙ coder_eq
        (record first { low = first.low * 2 ^ k + y % 2 ^ k * c.range; shifts = first.shifts + k })
        (record c { low = c.low * 2 ^ suc k + y % 2 ^ suc k * c.range; shifts = c.shifts + suc k })
        (rw (bit_share (y / 2 ^ k) c.range, low_bits y k, two_pow_suc k)
          (distribute c.low (y / 2 ^ k % 2) c.range (2 ^ k) (y % 2 ^ k)))
        refl (omega arith) refl

-- Eight or fewer bits that the chunk of `x` at `k - i` has room for.
put_bits-Codes :
    (e : CabacEngine) (x i k y : ℕ)
    → i ≤ 8
    → x / 2 ^ (k - i) ≡ y
    → y % 2 ^ 8 ≡ y % 2 ^ i
    → Codes (map bypass (bits_of i y)) e (put_bits e x i k)
unfolding Codes put_bits IsCoder view
put_bits-Codes e x i k y small same chunk =
    let taken : bit_and (x / 2 ^ (k - i)) 255 ≡ y % 2 ^ i = rw same (and_mask 8 y ∙ chunk) in
    let low = e.low * 2 ^ i + bit_and (x / 2 ^ (k - i)) 255 * e.range in
    (
      λ ok. cabac_putbyte-unflagged (record e { low = low; queue = e.queue + i }) ok,
      λ coding all.
          let (least, most, queue, fits, has) = coding in
          let share : y % 2 ^ i * e.range + e.range ≤ e.range * 2 ^ i = omega (
            arith,
            mul-le-mul_right {m = y % 2 ^ i + 1} {n = 2 ^ i} e.range
                (omega (arith, mod-lt y (two_pow_pos i))),
            add-mul (y % 2 ^ i) 1 e.range,
            mul_comm e.range (2 ^ i),
          ) in
          rw (taken, bypass_bits i y (view e))
            (moved-Reaches e i (y % 2 ^ i * e.range) e.range e.state coding small share least most
              has),
    )

pub map_bypass-append : (bs cs : List Bool) → map bypass (bs ++ cs) ≡ map bypass bs ++ map bypass cs
map_bypass-append [] cs = refl
map_bypass-append (b ∷ bs) cs = ap (λ (l : List Bin). bypass b ∷ l) (map_bypass-append bs cs)

-- The loop puts out all the bits of `x`; a fuel above the number of whole bytes is enough.
pub ue_bypass_loop-Codes :
    (fuel m i : ℕ) (e : CabacEngine) (x : ℕ)
    → m < fuel
    → i ≤ 8
    → x / 2 ^ (8 * m) % 2 ^ 8 ≡ x / 2 ^ (8 * m) % 2 ^ i
    → Codes (map bypass (bits_of (i + 8 * m) x)) e (ue_bypass_loop fuel e x i (i + 8 * m))
unfolding ue_bypass_loop
ue_bypass_loop-Codes zero m i e x h small chunk = elim h [ ]
ue_bypass_loop-Codes (suc fuel) zero i e x h small chunk =
    let ended : ltb 0 (i + 0 - i) ≡ false = ltb-false 0 (i + 0 - i) (omega arith) in
    let alone : i + 0 ≡ i = omega arith in
    let nothing : i - i ≡ 0 = omega arith in
    let whole : x / 2 ^ 0 ≡ x = omega arith in
    let same : x / 2 ^ (i - i) ≡ x = ap (λ (n : ℕ). x / 2 ^ n) nothing ∙ whole in
    let fits : x % 2 ^ 8 ≡ x % 2 ^ i = rw (← whole) chunk in
    rw (ended, alone) (put_bits-Codes e x i i x small same fits)
ue_bypass_loop-Codes (suc fuel) (suc m) i e x h small chunk =
    let k = i + 8 * suc m in
    let y = x / 2 ^ (8 * suc m) in
    let more : ltb 0 (k - i) ≡ true = lt→ltb 0 (k - i) (omega arith) in
    let rest : k - i ≡ 8 + 8 * m = omega arith in
    let behind : 8 * suc m ≡ 8 + 8 * m = omega arith in
    let exact : k - i ≡ 8 * suc m = omega arith in
    let same : x / 2 ^ (k - i) ≡ y = ap (λ (n : ℕ). x / 2 ^ n) exact in
    let bins : map bypass (bits_of k x)
        ≡ map bypass (bits_of i y) ++ map bypass (bits_of (8 + 8 * m) x) =
      ap (map bypass) (bits_of-split i (8 * suc m) x)
      ∙ map_bypass-append (bits_of i y) (bits_of (8 * suc m) x)
      ∙ ap (λ (n : ℕ). map bypass (bits_of i y) ++ map bypass (bits_of n x)) behind in
    let first = put_bits e x i k in
    let after = ue_bypass_loop fuel first x 8 (8 + 8 * m) in
    let others = ue_bypass_loop-Codes fuel m 8 first x (omega arith) (omega arith) refl in
    let whole =
      Codes-append (map bypass (bits_of i y)) (map bypass (bits_of (8 + 8 * m) x)) e first after
        (put_bits-Codes e x i k y small same chunk) others in
    let moved =
      subst
        (λ (n : ℕ).
          Codes (map bypass (bits_of i y) ++ map bypass (bits_of (8 + 8 * m) x)) e
            (ue_bypass_loop fuel first x 8 n))
        (sym rest) whole in
    rw (bins, more) moved

-- `cabac_clz32` counts the places above the highest bit.
pub clz32_loop-counts :
    (fuel d x n : ℕ)
    → d < fuel
    → 2 ^ 31 ≤ x * 2 ^ d
    → x * 2 ^ d < 2 ^ 32
    → clz32_loop fuel x n ≡ n + d
unfolding clz32_loop
clz32_loop-counts zero d x n h low high = elim h [ ]
clz32_loop-counts (suc fuel) zero x n h low high =
    let set : bit_and x (2 ^ 31) ≡ 2 ^ 31 = omega (arith, and_single_bit 31 x, low, high) in
    let found : (bit_and x (2 ^ 31) == 0) ≡ false = rw set refl in rw found (omega arith)
clz32_loop-counts (suc fuel) (suc d) x n h low high =
    let double = two_pow_suc d in
    let product : x * 2 ^ suc d ≡ x * 2 * 2 ^ d =
      ap (λ (t : ℕ). x * t) double ∙ omega (arith, mul_assoc x 2 (2 ^ d)) in
    let small : x * 2 < 2 ^ 32 =
      omega (arith, high, product, mul-le-mul_left (x * 2) (two_pow_pos d)) in
    let clear : bit_and x (2 ^ 31) ≡ 0 = omega (arith, and_single_bit 31 x, small) in
    let shifted : x * 2 % 2 ^ 32 ≡ x * 2 = mod-eq_of_lt small in
    let found : (bit_and x (2 ^ 31) == 0) ≡ true = rw clear refl in
    rw (found, shifted)
      (clz32_loop-counts fuel d (x * 2) (n + 1) (omega arith) (omega (arith, low, product))
          (omega (arith, high, product))
        ∙ omega arith)
