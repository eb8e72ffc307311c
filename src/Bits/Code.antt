-- ===== src/Bits/Code.antt =====
-- Bit strings: the bits of a word from the most significant one, and reading them back. This is the
-- order of bitstream.h ("Writes bits MSB-first") and of the u(n) descriptor of H.264.
use Prim.Native.Nat.add
use native.Mathlib.Nat.{
  div-add-mod', div-div-eq-div-mul, div-eq_of_lt, mod-lt, mul-add-div_right, zero-div,
  div-lt_iff_lt-mul,
}
use bc250_vulkan_encode_stop.Base.{
  ℕ, zero, suc, ◌+◌, ◌*◌, ◌/◌, ◌%◌, ◌^◌, ◌<◌, ◌≡◌, refl, sym, ap, ◌∙◌, arith, ◌==◌, Bool, false,
  List, [], ◌∷◌, ◌++◌, Option, none, some, length, if◌then◌else◌, replicate,
}
use bc250_vulkan_encode_stop.Bits.Mask.{two_pow_suc, two_pow_pos}

abbrev pub odd : ℕ → Bool
odd n = n % 2 == 1

abbrev pub bit_value : Bool → ℕ
bit_value b = if b then 1 else 0

-- The low `w` bits of `v`, most significant first.
unfoldable pub bits_of : ℕ → ℕ → List Bool
bits_of zero v = []
bits_of (suc w) v = odd (v / 2 ^ w) ∷ bits_of w v

-- Reads `w` bits onto what was read before, or fails at the end of the input.
unfoldable pub read_bits : ℕ → ℕ → List Bool → Option (ℕ × List Bool)
read_bits zero acc bits = some (acc, bits)
read_bits (suc w) acc [] = none
read_bits (suc w) acc (b ∷ bits) = read_bits w (acc * 2 + bit_value b) bits

pub length-bits_of : (w v : ℕ) → length (bits_of w v) ≡ w
unfolding bits_of
length-bits_of zero v = refl
length-bits_of (suc w) v = ap suc (length-bits_of w v)

pub two_pow_add : (a b : ℕ) → 2 ^ (a + b) ≡ 2 ^ b * 2 ^ a
two_pow_add zero b = rw add.zero (omega arith)
two_pow_add (suc a) b =
    rw add.suc (
      omega
        (arith, two_pow_suc (a + b), ap (λ (t : ℕ). 2 ^ b * t) (two_pow_suc a), two_pow_add a b))

pub doubled : (q w : ℕ) → q * 2 ^ suc w ≡ q * 2 * 2 ^ w
doubled q w = omega (arith, ap (λ (t : ℕ). q * t) (two_pow_suc w))

upper_bits : (q w v : ℕ) → (q * 2 ^ w + v) / 2 ^ w ≡ q + v / 2 ^ w
upper_bits q w v = mul-add-div_right (two_pow_pos w) q v

-- Bits above the width do not show.
pub bits_of-add_mul : (w q v : ℕ) → bits_of w (q * 2 ^ w + v) ≡ bits_of w v
unfolding bits_of
bits_of-add_mul zero q v = refl
bits_of-add_mul (suc w) q v = rw (doubled q w) (
    rw (bits_of-add_mul w (q * 2) v) (
      rw (upper_bits (q * 2) w v)
        (let parity : (q * 2 + v / 2 ^ w) % 2 ≡ v / 2 ^ w % 2 = omega arith in rw parity)))

pub bits_of-mod : (w v : ℕ) → bits_of w (v % 2 ^ w) ≡ bits_of w v
bits_of-mod w v =
    sym (bits_of-add_mul w (v / 2 ^ w) (v % 2 ^ w)) ∙ ap (bits_of w) (div-add-mod' v (2 ^ w))

shifted_fields : (a b hi lo : ℕ) → lo < 2 ^ b → (hi * 2 ^ b + lo) / 2 ^ (a + b) ≡ hi / 2 ^ a
shifted_fields a b hi lo h = rw (two_pow_add a b) (
    sym (div-div-eq-div-mul (hi * 2 ^ b + lo) (2 ^ b) (2 ^ a))
    ∙ ap (λ (t : ℕ). t / 2 ^ a) (upper_bits hi b lo ∙ omega (arith, div-eq_of_lt h)))

-- A word made of two fields is the one field's bits before the other's.
pub bits_of-fields :
    (a b hi lo : ℕ) → lo < 2 ^ b → bits_of (a + b) (hi * 2 ^ b + lo) ≡ bits_of a hi ++ bits_of b lo
unfolding bits_of
bits_of-fields zero b hi lo h = rw add.zero (bits_of-add_mul b hi lo)
bits_of-fields (suc a) b hi lo h =
    rw add.suc (rw (shifted_fields a b hi lo h, bits_of-fields a b hi lo h))

pub bits_of-zero : (w : ℕ) → bits_of w 0 ≡ replicate w false
unfolding bits_of
bits_of-zero zero = refl
bits_of-zero (suc w) = rw (zero-div (2 ^ w), bits_of-zero w)

-- The first bit and the other ones of a number that fits `w + 1` bits.
lead_bit : (w v : ℕ) → v < 2 ^ suc w → v / 2 ^ w ≡ bit_value (odd (v / 2 ^ w))
lead_bit w v h =
    ground (arith, two_pow_suc w, div-lt_iff_lt-mul {k = 2 ^ w} {x = v} {y = 2} (two_pow_pos w))

pub read_bits-bits_of :
    (w acc v : ℕ) (rest : List Bool)
    → v < 2 ^ w
    → read_bits w acc (bits_of w v ++ rest) ≡ some (acc * 2 ^ w + v, rest)
unfolding read_bits bits_of
read_bits-bits_of zero acc v rest h = ground arith
read_bits-bits_of (suc w) acc v rest h = rw (← lead_bit w v h) (
    rw (← bits_of-mod w v) (
      read_bits-bits_of w (acc * 2 + v / 2 ^ w) (v % 2 ^ w) rest (mod-lt v (two_pow_pos w))
      ∙ ap (λ (t : ℕ). some (t, rest)) (omega (arith, doubled acc w, div-add-mod' v (2 ^ w)))))

-- A bit string splits at every place.
pub bits_of-split : (a b v : ℕ) → bits_of (a + b) v ≡ bits_of a (v / 2 ^ b) ++ bits_of b v
bits_of-split a b v =
    ap (bits_of (a + b)) (sym (div-add-mod' v (2 ^ b)))
    ∙ bits_of-fields a b (v / 2 ^ b) (v % 2 ^ b) (mod-lt v (two_pow_pos b))
    ∙ ap (λ (l : List Bool). bits_of a (v / 2 ^ b) ++ l) (bits_of-mod b v)
