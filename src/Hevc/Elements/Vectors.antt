-- ===== src/Hevc/Elements/Vectors.antt =====
-- Motion vector differences through the bins of hevc_cabac.c and back.
use bc250_vulkan_encode_stop.Base.{
  ℕ, zero, suc, ◌+◌, ◌-◌, ◌^◌, ◌≤◌, ◌<◌, ◌≡◌, refl, sym, ap, ◌∙◌, arith, Bool, true, false, List,
  [], ◌∷◌, ◌++◌, map, append_assoc, append-nil, Option, none, some, if◌then◌else◌, ltb, leb, not,
  ◌>>=◌, Bool-cases, inl, inr, ◌==◌, leb→le, ltb→lt, lt→ltb, ltb_false→le, ◌&&◌,
}
use bc250_vulkan_encode_stop.Base.Int.{ℤ, pos, negsuc, pos_part, neg_part}
use bc250_vulkan_encode_stop.Bits.{bits_of, read_bits, read_bits-bits_of, odd}
use bc250_vulkan_encode_stop.Cabac.Exact.{Bin, decision, bypass}
use bc250_vulkan_encode_stop.Cabac.Decoder.{bit_of}
use bc250_vulkan_encode_stop.Hevc.Elements.{
  listing, flag, egk_loop, write_egk_bypass, mvd_rest, mvd_greater1, mvd_greater0, code_mvd,
}
use bc250_vulkan_encode_stop.Hevc.Elements.LumaMode.{map-bypass}

egk_bins : ℕ → ℕ → ℕ → List Bin
egk_bins zero v k = bypass false ∷ map bypass (bits_of k v)
egk_bins (suc fuel) v k =
    if leb (2 ^ k) v
    then bypass true ∷ egk_bins fuel (v - 2 ^ k) (suc k)
    else bypass false ∷ map bypass (bits_of k v)

egk_loop-egk_bins :
    (fuel v k : ℕ) (bins : List Bin) → egk_loop listing fuel v k bins ≡ bins ++ egk_bins fuel v k
unfolding egk_loop egk_bins
egk_loop-egk_bins zero v k bins = append_assoc bins (bypass false ∷ []) (map bypass (bits_of k v))
egk_loop-egk_bins (suc fuel) v k bins =
    elim (leb (2 ^ k) v)
      as (λ (b : Bool).
        ◌≡◌ {A = List Bin}
          (elim b [
            | true ↦ egk_loop listing fuel (v - 2 ^ k) (suc k) (bins ++ bypass true ∷ [])
            | false ↦ (bins ++ bypass false ∷ []) ++ map bypass (bits_of k v)
          ])
          (bins
            ++ (if b
                then bypass true ∷ egk_bins fuel (v - 2 ^ k) (suc k)
                else bypass false ∷ map bypass (bits_of k v)))) [
                  | true ↦
                      egk_loop-egk_bins fuel (v - 2 ^ k) (suc k) (bins ++ bypass true ∷ [])
                      ∙ append_assoc bins (bypass true ∷ []) (egk_bins fuel (v - 2 ^ k) (suc k))
                  | false ↦ append_assoc bins (bypass false ∷ []) (map bypass (bits_of k v))
                ]

-- H.265 9.3.3.5: k-th order Exp-Golomb, from what the prefix has added.
unfoldable pub read_egk : ℕ → ℕ → List Bool → Option (ℕ × List Bool)
read_egk acc k [] = none
read_egk acc k (true ∷ rest) = read_egk (acc + 2 ^ k) (suc k) rest
read_egk acc k (false ∷ rest) = read_bits k 0 rest >>= λ r. some (acc + r.0, r.1)

read_suffix :
    (acc v k : ℕ) (rest : List Bool)
    → v < 2 ^ k
    → read_egk acc k (false ∷ (map bit_of (map bypass (bits_of k v)) ++ rest))
      ≡ some (acc + v, rest)
unfolding read_egk
read_suffix acc v k rest h =
    rw (map-bypass (bits_of k v) rest, read_bits-bits_of k 0 v rest h)
      (ap (λ (t : ℕ). some (acc + t, rest)) (omega arith))

leb_false→lt : (a b : ℕ) → leb a b ≡ false → b < a
leb_false→lt a b h = ground arith

-- One more bit of the prefix.
read_more :
    (fuel v k acc : ℕ) (rest : List Bool)
    → 2 ^ k ≤ v
    → v < 2 ^ (k + suc fuel)
    → (v - 2 ^ k < 2 ^ (suc k + fuel)
        → read_egk (acc + 2 ^ k) (suc k) (map bit_of (egk_bins fuel (v - 2 ^ k) (suc k)) ++ rest)
          ≡ some (acc + 2 ^ k + (v - 2 ^ k), rest))
    → read_egk acc k (true ∷ (map bit_of (egk_bins fuel (v - 2 ^ k) (suc k)) ++ rest))
      ≡ some (acc + v, rest)
unfolding read_egk
read_more fuel v k acc rest least h next =
    let same : k + suc fuel ≡ suc k + fuel = omega arith in
    let bound : v < 2 ^ (suc k + fuel) = rw (← same) h in
    next (omega (arith, bound)) ∙ ap (λ (t : ℕ). some (t, rest)) (omega (arith, least))

read_egk-egk_bins :
    (fuel v k acc : ℕ) (rest : List Bool)
    → v < 2 ^ (k + fuel)
    → read_egk acc k (map bit_of (egk_bins fuel v k) ++ rest) ≡ some (acc + v, rest)
unfolding egk_bins bit_of
read_egk-egk_bins zero v k acc rest h =
    let whole : k + 0 ≡ k = omega arith in read_suffix acc v k rest (rw (← whole) h)
read_egk-egk_bins (suc fuel) v k acc rest h = elim (Bool-cases (leb (2 ^ k) v)) [
  | inl more ↦ rw more (
      read_more fuel v k acc rest (leb→le (2 ^ k) v more) h
        (λ left. read_egk-egk_bins fuel (v - 2 ^ k) (suc k) (acc + 2 ^ k) rest left))
  | inr last ↦ rw last (read_suffix acc v k rest (omega (arith, leb_false→lt (2 ^ k) v last)))
]

write_egk_bypass-egk_bins :
    (v k : ℕ) (bins : List Bin) → write_egk_bypass listing v k bins ≡ bins ++ egk_bins 32 v k
unfolding write_egk_bypass
write_egk_bypass-egk_bins v k bins = egk_loop-egk_bins 32 v k bins

-- The reader of the standard takes back a value below 2^(k + 32) from its code of order k.
pub read_egk-write_egk_bypass :
    (v k : ℕ) (rest : List Bool)
    → v < 2 ^ (k + 32)
    → read_egk 0 k (map bit_of (write_egk_bypass listing v k []) ++ rest) ≡ some (v, rest)
read_egk-write_egk_bypass v k rest h =
    rw (write_egk_bypass-egk_bins v k [])
      (read_egk-egk_bins 32 v k 0 rest h ∙ ap (λ (t : ℕ). some (t, rest)) (omega arith))

-- A signed value by its sign and its magnitude.
unfoldable pub signed : Bool → ℕ → ℤ
signed true zero = pos 0
signed true (suc n) = negsuc n
signed false n = pos n

-- 7.3.8.9: the flags of both components, then the rest of one after the other.
unfoldable pub read_greater1 : Bool → List Bool → Option (Bool × List Bool)
read_greater1 false rest = some (false, rest)
read_greater1 true (b ∷ rest) = some (b, rest)
read_greater1 true [] = none

unfoldable pub read_sign : ℕ → List Bool → Option (ℤ × List Bool)
unfolding signed
read_sign a [] = none
read_sign a (negative ∷ rest) = some (signed negative a, rest)

unfoldable pub read_rest : Bool → Bool → List Bool → Option (ℤ × List Bool)
unfolding read_egk read_sign
read_rest false greater1 rest = some (pos 0, rest)
read_rest true false rest = read_sign 1 rest
read_rest true true rest = read_egk 0 1 rest >>= λ r. read_sign (r.0 + 2) r.1

unfoldable pub read_mvd : List Bool → Option ((ℤ × ℤ) × List Bool)
unfolding read_greater1 read_rest
read_mvd (x0 ∷ y0 ∷ rest) = read_greater1 x0 rest >>= λ x1. read_greater1 y0 x1.1 >>= λ y1.
    read_rest x0 x1.0 y1.1 >>= λ x. read_rest y0 y1.0 x.1 >>= λ y. some ((x.0, y.0), y.1)
read_mvd other = none

abbrev pub magnitude : ℤ → ℕ
magnitude v = pos_part v + neg_part v

greater1_bins : ℤ → List Bin
greater1_bins v =
    if ltb 0 (magnitude v) then decision 136 (odd (flag (ltb 1 (magnitude v)))) ∷ [] else []

rest_bins : ℤ → List Bin
rest_bins v =
    if ltb 0 (magnitude v)
    then (if ltb 1 (magnitude v) then egk_bins 32 (magnitude v - 2) 1 else [])
      ++ bypass (not (flag (ltb 0 (neg_part v)) == 0)) ∷ []
    else []

append_if :
    (b : Bool) (bins more : List Bin)
    → (if b then bins ++ more else bins) ≡ bins ++ (if b then more else [])
append_if true bins more = refl
append_if false bins more = sym (append-nil bins)

mvd_greater1-bins :
    (v : ℤ) (bins : List Bin) → mvd_greater1 listing v bins ≡ bins ++ greater1_bins v
unfolding mvd_greater1 greater1_bins
mvd_greater1-bins v bins =
    append_if (ltb 0 (magnitude v)) bins (decision 136 (odd (flag (ltb 1 (magnitude v)))) ∷ [])

mvd_rest-bins : (v : ℤ) (bins : List Bin) → mvd_rest listing v bins ≡ bins ++ rest_bins v
unfolding mvd_rest rest_bins
mvd_rest-bins v bins =
    let a = pos_part v + neg_part v in
    let sign : List Bin = bypass (not (flag (ltb 0 (neg_part v)) == 0)) ∷ [] in
    let large : List Bin = if ltb 1 a then egk_bins 32 (a - 2) 1 else [] in
    let inner : (if ltb 1 a then write_egk_bypass listing (a - 2) 1 bins else bins)
        ≡ bins ++ large =
      ap (λ (t : List Bin). if ltb 1 a then t else bins) (write_egk_bypass-egk_bins (a - 2) 1 bins)
      ∙ append_if (ltb 1 a) bins (egk_bins 32 (a - 2) 1) in
    ap (λ (t : List Bin). if ltb 0 a then t ++ sign else bins) inner
    ∙ ap (λ (t : List Bin). if ltb 0 a then t else bins) (append_assoc bins large sign)
    ∙ append_if (ltb 0 a) bins (large ++ sign)

map-append-bit_of :
    (xs ys : List Bin) (rest : List Bool)
    → map bit_of (xs ++ ys) ++ rest ≡ map bit_of xs ++ (map bit_of ys ++ rest)
map-append-bit_of [] ys rest = refl
map-append-bit_of (x ∷ xs) ys rest = ap (λ l. bit_of x ∷ l) (map-append-bit_of xs ys rest)

flag_bit : (b : Bool) → odd (flag b) ≡ b
flag_bit true = refl
flag_bit false = refl

flag_bypass : (b : Bool) → not (flag b == 0) ≡ b
flag_bypass true = refl
flag_bypass false = refl

read_greater1-code :
    (b0 b1 : Bool) (rest : List Bool)
    → read_greater1 b0 (map bit_of (if b0 then decision 136 (odd (flag b1)) ∷ [] else []) ++ rest)
      ≡ some (b0 && b1, rest)
unfolding read_greater1 bit_of
read_greater1-code true b1 rest = ap (λ (b : Bool). some (b, rest)) (flag_bit b1)
read_greater1-code false b1 rest = refl

read_greater1-bins :
    (v : ℤ) (rest : List Bool)
    → read_greater1 (ltb 0 (magnitude v)) (map bit_of (greater1_bins v) ++ rest)
      ≡ some (ltb 1 (magnitude v), rest)
unfolding greater1_bins
read_greater1-bins v rest =
    read_greater1-code (ltb 0 (magnitude v)) (ltb 1 (magnitude v)) rest
    ∙ ap (λ (b : Bool). some (b, rest)) (ground arith)

read_sign-code :
    (m : ℕ) (s : Bool) (rest : List Bool)
    → read_sign m (map bit_of (bypass (not (flag s == 0)) ∷ []) ++ rest) ≡ some (signed s m, rest)
unfolding read_sign bit_of
read_sign-code m s rest = ap (λ (b : Bool). some (signed b m, rest)) (flag_bypass s)

signed_zero :
    (s : Bool) (rest : List Bool)
    → ◌≡◌ {A = Option (ℤ × List Bool)} (some (pos 0, rest)) (some (signed s 0, rest))
unfolding signed
signed_zero true rest = refl
signed_zero false rest = refl

signed_negative : (m n : ℕ) → m ≡ suc n → signed true m ≡ negsuc n
unfolding signed
signed_negative m n e = rw e refl

read_rest-code :
    (b0 b1 s : Bool) (m : ℕ) (rest : List Bool)
    → (b0 ≡ false → m ≡ 0)
    → (b1 ≡ false → m ≤ 1)
    → (b0 ≡ true → 1 ≤ m)
    → (b1 ≡ true → 2 ≤ m)
    → m < 2 ^ 32
    → read_rest b0 b1 (
        map bit_of (
          if b0
          then (if b1 then egk_bins 32 (m - 2) 1 else []) ++ bypass (not (flag s == 0)) ∷ []
          else [])
        ++ rest)
      ≡ some (signed s m, rest)
unfolding read_rest
read_rest-code false b1 s m rest none_ small some_ large h = rw (none_ refl) (signed_zero s rest)
read_rest-code true false s m rest none_ small some_ large h =
    let one : m ≡ 1 = omega (arith, small refl, some_ refl) in
    read_sign-code 1 s rest ∙ ap (λ (t : ℕ). some (signed s t, rest)) (sym one)
read_rest-code true true s m rest none_ small some_ large h =
    let sign : List Bin = bypass (not (flag s == 0)) ∷ [] in
    rw
      (
        map-append-bit_of (egk_bins 32 (m - 2) 1) sign rest,
        read_egk-egk_bins 32 (m - 2) 1 0 (map bit_of sign ++ rest) (omega (arith, h)),
      )
      (read_sign-code (0 + (m - 2) + 2) s rest
        ∙ ap (λ (t : ℕ). some (signed s t, rest)) (omega (arith, large refl)))

signed-magnitude : (v : ℤ) → signed (ltb 0 (neg_part v)) (magnitude v) ≡ v
unfolding signed
signed-magnitude (pos n) = ap pos (omega arith)
signed-magnitude (negsuc n) =
    rw (lt→ltb 0 (suc n) (omega arith)) (signed_negative (0 + suc n) n (omega arith))

read_rest-bins :
    (v : ℤ) (rest : List Bool)
    → magnitude v < 2 ^ 32
    → read_rest (ltb 0 (magnitude v)) (ltb 1 (magnitude v)) (map bit_of (rest_bins v) ++ rest)
      ≡ some (v, rest)
unfolding rest_bins
read_rest-bins v rest h =
    let m = magnitude v in
    read_rest-code (ltb 0 m) (ltb 1 m) (ltb 0 (neg_part v)) m rest
      (λ e. omega (arith, ltb_false→le 0 m e)) (ltb_false→le 1 m) (ltb→lt 0 m) (ltb→lt 1 m) h
    ∙ ap (λ (t : ℤ). some (t, rest)) (signed-magnitude v)

regroup : (a b c d e : List Bin) → (((a ++ b) ++ c) ++ d) ++ e ≡ a ++ (b ++ (c ++ (d ++ e)))
regroup a b c d e = simp append_assoc

code_mvd-bins :
    (x y : ℤ)
    → code_mvd listing x y []
      ≡ decision 135 (odd (flag (ltb 0 (magnitude x))))
        ∷ decision 135 (odd (flag (ltb 0 (magnitude y))))
        ∷ (greater1_bins x ++ (greater1_bins y ++ (rest_bins x ++ rest_bins y)))
unfolding code_mvd mvd_greater0
code_mvd-bins x y =
    let start : List Bin =
      decision 135 (odd (flag (ltb 0 (magnitude x))))
      ∷ decision 135 (odd (flag (ltb 0 (magnitude y))))
      ∷ [] in
    let gx = greater1_bins x in
    let gy = greater1_bins y in
    let rx = rest_bins x in
    ap (λ bins. mvd_rest listing y (mvd_rest listing x (mvd_greater1 listing y bins)))
      (mvd_greater1-bins x start)
    ∙ ap (λ bins. mvd_rest listing y (mvd_rest listing x bins)) (mvd_greater1-bins y (start ++ gx))
    ∙ ap (mvd_rest listing y) (mvd_rest-bins x ((start ++ gx) ++ gy))
    ∙ mvd_rest-bins y (((start ++ gx) ++ gy) ++ rx)
    ∙ regroup start gx gy rx (rest_bins y)

-- For two components of a magnitude below 2^32, the syntax of the standard reads the motion
-- vector difference back from its bins, whatever follows.
pub read_mvd-code_mvd :
    (x y : ℤ) (rest : List Bool)
    → magnitude x < 2 ^ 32
    → magnitude y < 2 ^ 32
    → read_mvd (map bit_of (code_mvd listing x y []) ++ rest) ≡ some ((x, y), rest)
unfolding read_mvd bit_of
read_mvd-code_mvd x y rest hx hy =
    let gx = greater1_bins x in
    let gy = greater1_bins y in
    let rx = rest_bins x in
    let ry = rest_bins y in
    rw
      (
        code_mvd-bins x y,
        flag_bit (ltb 0 (magnitude x)),
        flag_bit (ltb 0 (magnitude y)),
        map-append-bit_of gx (gy ++ (rx ++ ry)) rest,
        map-append-bit_of gy (rx ++ ry) rest,
        map-append-bit_of rx ry rest,
        read_greater1-bins x (map bit_of gy ++ (map bit_of rx ++ (map bit_of ry ++ rest))),
        read_greater1-bins y (map bit_of rx ++ (map bit_of ry ++ rest)),
        read_rest-bins x (map bit_of ry ++ rest) hx,
        read_rest-bins y rest hy,
      )
      refl
