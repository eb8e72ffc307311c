-- ===== src/Bits/Mask.antt =====
-- `|` of disjoint fields is a sum and `&` with 2^k - 1 is a remainder, for every width k.
-- The native operations stand for a recursion on binary digits that carries a bound on their number.
use Prim.Native.Nat.{min, max, digits, bit_and-bitwise, bit_or-bitwise}
use native.Mathlib.Nat.{pow-suc, one-le-pow, div-add-mod, mod-lt, div-div-eq-div-mul}
use bc250_vulkan_encode_stop.Base.{
  ℕ, zero, suc, ◌+◌, ◌-◌, ◌*◌, ◌/◌, ◌%◌, ◌^◌, ◌≤◌, ◌<◌, bit_and, bit_or, ◌≡◌, refl, ap, arith,
}

-- Any bound that is large enough gives the same digits.
module _ (rest : ℕ → ℕ) (op : ℕ → ℕ → ℕ) where
  enough_digits : (a b n m : ℕ) → a ≤ n → a ≤ m → digits rest op n a b ≡ digits rest op m a b
  enough_digits zero b zero zero hn hm = refl
  enough_digits zero b zero (suc m) hn hm = refl
  enough_digits zero b (suc n) zero hn hm = refl
  enough_digits zero b (suc n) (suc m) hn hm = refl
  enough_digits (suc a) b zero m hn hm = elim hn [ ]
  enough_digits (suc a) b (suc n) zero hn hm = elim hm [ ]
  enough_digits (suc a) b (suc n) (suc m) hn hm =
      ap (λ (d : ℕ). d * 2 + op (suc a % 2) (b % 2))
        (enough_digits (suc a / 2) (b / 2) n m (omega arith) (omega arith))

-- The lowest digit, with the bound dropped.
and_digit : (a b : ℕ) → bit_and a b ≡ bit_and (a / 2) (b / 2) * 2 + min (a % 2) (b % 2)
and_digit zero b = omega (arith, bit_and-bitwise 0 b, bit_and-bitwise 0 (b / 2))
and_digit (suc a) b = omega (
  arith,
  bit_and-bitwise (suc a) b,
  bit_and-bitwise (suc a / 2) (b / 2),
  enough_digits (λ y. 0) min (suc a / 2) (b / 2) a (suc a / 2) (omega arith) (omega arith),
)

or_digit : (a b : ℕ) → bit_or a b ≡ bit_or (a / 2) (b / 2) * 2 + max (a % 2) (b % 2)
or_digit zero b = omega (arith, bit_or-bitwise 0 b, bit_or-bitwise 0 (b / 2))
or_digit (suc a) b = omega (
  arith,
  bit_or-bitwise (suc a) b,
  bit_or-bitwise (suc a / 2) (b / 2),
  enough_digits (λ y. y) max (suc a / 2) (b / 2) a (suc a / 2) (omega arith) (omega arith),
)

-- With 0 on the right; the first argument bounds the second.
or_nothing : (n a : ℕ) → a ≤ n → bit_or a 0 ≡ a
or_nothing n zero h = refl
or_nothing zero (suc a) h = elim h [ ]
or_nothing (suc n) (suc a) h =
    omega (arith, or_digit (suc a) 0, or_nothing n (suc a / 2) (omega arith))

and_nothing : (n a : ℕ) → a ≤ n → bit_and a 0 ≡ 0
and_nothing n zero h = refl
and_nothing zero (suc a) h = elim h [ ]
and_nothing (suc n) (suc a) h =
    omega (arith, and_digit (suc a) 0, and_nothing n (suc a / 2) (omega arith))

pub two_pow_suc : (k : ℕ) → 2 ^ suc k ≡ 2 * 2 ^ k
two_pow_suc k = omega (arith, pow-suc 2 k)

pub two_pow_pos : (k : ℕ) → 1 ≤ 2 ^ k
two_pow_pos k = one-le-pow k 2 (omega arith)

twice_scaled : (q k : ℕ) → q * 2 ^ suc k ≡ 2 * (q * 2 ^ k)
twice_scaled q k = omega (arith, ap (λ (t : ℕ). q * t) (two_pow_suc k))

-- `(hi << k) | lo` for `lo` below 2^k.
pub or_fields : (k hi lo : ℕ) → lo < 2 ^ k → bit_or (hi * 2 ^ k) lo ≡ hi * 2 ^ k + lo
or_fields zero hi lo h = ground (arith, or_nothing hi hi)
or_fields (suc k) hi lo h = ground (
  arith,
  two_pow_suc k,
  twice_scaled hi k,
  or_digit (hi * 2 ^ suc k) lo,
  or_fields k hi (lo / 2) (omega (arith, two_pow_suc k)),
)

mod_double : (a p : ℕ) → 1 ≤ p → a % (2 * p) ≡ a / 2 % p * 2 + a % 2
mod_double a p h = grind (
  arith,
  div-add-mod (a / 2) p,
  div-add-mod a (2 * p),
  mod-lt (a / 2) h,
  div-div-eq-div-mul a 2 p,
)

-- `a & (2^k - 1)`.
pub and_mask : (k a : ℕ) → bit_and a (2 ^ k - 1) ≡ a % 2 ^ k
and_mask zero a = omega (arith, and_nothing a a)
and_mask (suc k) a = ground (
  arith,
  two_pow_suc k,
  two_pow_pos k,
  and_digit a (2 ^ suc k - 1),
  and_mask k (a / 2),
  mod_double a (2 ^ k),
)

-- `a & (1 << k)`.
pub and_single_bit : (k a : ℕ) → bit_and a (2 ^ k) ≡ a / 2 ^ k % 2 * 2 ^ k
and_single_bit zero a = omega (arith, and_digit a 1, and_nothing (a / 2) (a / 2))
and_single_bit (suc k) a = ground (
  arith,
  two_pow_suc k,
  and_digit a (2 ^ suc k),
  and_single_bit k (a / 2),
  div-div-eq-div-mul a 2 (2 ^ k),
  twice_scaled (a / 2 ^ suc k % 2) k,
)

-- `a | 1`.
pub or_one : (a : ℕ) → bit_or a 1 ≡ a / 2 * 2 + 1
or_one a = omega (arith, or_digit a 1, or_nothing (a / 2) (a / 2) (omega arith))

-- `a | 0`.
pub or_zero : (a : ℕ) → bit_or a 0 ≡ a
or_zero a = or_nothing a a (omega arith)

-- A bit that is set already.
pub or_set_bit : (k h : ℕ) → bit_or ((2 * h + 1) * 2 ^ k) (2 ^ k) ≡ (2 * h + 1) * 2 ^ k
or_set_bit zero h =
    let one : (2 * h + 1) * 2 ^ 0 ≡ 2 * h + 1 = omega arith in
    rw one (omega (arith, or_one (2 * h + 1)))
or_set_bit (suc k) h = ground (
  arith,
  two_pow_suc k,
  twice_scaled (2 * h + 1) k,
  or_digit ((2 * h + 1) * 2 ^ suc k) (2 ^ suc k),
  or_set_bit k h,
)
