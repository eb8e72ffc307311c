-- ===== src/Base/Shift.antt =====
-- The arithmetic shift right and the low bits of a signed integer, and integers of bounded size.
use Prim.{Unit, tt}
use native.Mathlib.Nat.{div-add-mod', mod-lt, lt_of_mul-lt-mul_right}
use bc250_vulkan_encode_stop.Base.{
  ℕ, zero, suc, ◌+◌, ◌-◌, ◌*◌, ◌/◌, ◌%◌, ◌^◌, ◌≤◌, ◌<◌, ◌≡◌, arith, refl, List, [], ◌∷◌, ◌++◌, map,
  get_or,
}
use bc250_vulkan_encode_stop.Base.Int.{
  ℤ, pos, negsuc, pos_part, neg_part, ◌+ℤ◌, ◌-ℤ◌, ◌*ℤ◌, ◌≤ℤ◌, +ℤ_parts, -ℤ_parts, eq_of_parts,
}
use bc250_vulkan_encode_stop.Bits.{two_pow_pos}

-- `v >> k`, which rounds down.
unfoldable pub shr : ℤ → ℕ → ℤ
shr (pos n) k = pos (n / 2 ^ k)
shr (negsuc n) k = negsuc (n / 2 ^ k)

-- `v & (2^k - 1)` in two's complement.
unfoldable pub low_bits : ℤ → ℕ → ℕ
low_bits (pos n) k = n % 2 ^ k
low_bits (negsuc n) k = 2 ^ k - 1 - n % 2 ^ k

pub *ℤ_parts :
    (a b : ℤ)
    → pos_part (a *ℤ b) + (pos_part a * neg_part b + neg_part a * pos_part b)
      ≡ neg_part (a *ℤ b) + (pos_part a * pos_part b + neg_part a * neg_part b)
unfolding ◌*ℤ◌
*ℤ_parts a b = ground arith

pub ruleset ring_laws = (arith, +ℤ_parts, -ℤ_parts, *ℤ_parts, eq_of_parts)

-- The magnitude is at most `b`.
abbrev pub Within : ℕ → ℤ → Type 0
Within b v = (pos_part v ≤ neg_part v + b) × (neg_part v ≤ pos_part v + b)

pub shr_bounds :
    (v : ℤ) (k : ℕ)
    → (pos_part (shr v k) * 2 ^ k + neg_part v ≤ pos_part v + neg_part (shr v k) * 2 ^ k)
      × (pos_part v + neg_part (shr v k) * 2 ^ k < pos_part (shr v k) * 2 ^ k + neg_part v + 2 ^ k)
unfolding shr
shr_bounds (pos n) k =
    let sum = div-add-mod' n (2 ^ k) in
    let rest = mod-lt n (two_pow_pos k) in (omega (arith, sum), omega (arith, sum, rest))
shr_bounds (negsuc n) k =
    let sum = div-add-mod' n (2 ^ k) in
    let rest = mod-lt n (two_pow_pos k) in
    let whole : suc (n / 2 ^ k) * 2 ^ k ≡ n / 2 ^ k * 2 ^ k + 2 ^ k = omega arith in
    (omega (arith, sum, rest, whole), omega (arith, sum, rest, whole))

-- The shift of a value of -(c 2^k) to (c + 1) 2^k - 1.
pub shr-Within :
    (v : ℤ) (k c : ℕ)
    → pos_part v < neg_part v + (c + 1) * 2 ^ k
    → neg_part v ≤ pos_part v + c * 2 ^ k
    → Within c (shr v k)
shr-Within v k c up down =
    let s = shr_bounds v k in
    let above : pos_part (shr v k) * 2 ^ k < (neg_part (shr v k) + (c + 1)) * 2 ^ k =
      omega (arith, s.0, up) in
    let below : neg_part (shr v k) * 2 ^ k < (pos_part (shr v k) + (c + 1)) * 2 ^ k =
      omega (arith, s.1, down) in
    (
      omega (arith, lt_of_mul-lt-mul_right (2 ^ k) above),
      omega (arith, lt_of_mul-lt-mul_right (2 ^ k) below),
    )

-- A list of integers of bounded size.
abbrev pub Bounded : ℕ → List ℤ → Type 0
Bounded b [] = Unit {0}
Bounded b (v ∷ vs) = Within b v × Bounded b vs

pub get_or-Within : (b : ℕ) (vs : List ℤ) (i : ℕ) → Bounded b vs → Within b (get_or vs i (pos 0))
get_or-Within b [] i h = (omega arith, omega arith)
get_or-Within b (v ∷ vs) zero h = h.0
get_or-Within b (v ∷ vs) (suc i) h = get_or-Within b vs i h.1

pub map-Bounded :
    (b c : ℕ) (f : ℤ → ℤ) (vs : List ℤ)
    → Bounded b vs
    → ((v : ℤ) → Within b v → Within c (f v))
    → Bounded c (map f vs)
map-Bounded b c f [] h step = tt
map-Bounded b c f (v ∷ vs) h step = (step v h.0, map-Bounded b c f vs h.1 step)

-- Maps that agree on the bounded values agree on a bounded list.
pub map_congr :
    (b : ℕ) (f g : ℤ → ℤ) (vs : List ℤ)
    → Bounded b vs
    → ((v : ℤ) → Within b v → f v ≡ g v)
    → map f vs ≡ map g vs
map_congr b f g [] h same = refl
map_congr b f g (v ∷ vs) h same = λ i. same v h.0 i ∷ map_congr b f g vs h.1 same i

pub append-Bounded : (b : ℕ) (us vs : List ℤ) → Bounded b us → Bounded b vs → Bounded b (us ++ vs)
append-Bounded b [] vs h k = k
append-Bounded b (u ∷ us) vs h k = (h.0, append-Bounded b us vs h.1 k)
