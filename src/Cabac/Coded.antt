-- ===== src/Cabac/Coded.antt =====
-- What the syntax elements of cabac.c and cabac.h do to the coded interval.
use bc250_vulkan_encode_stop.Base.{
  ℕ, ◌+◌, ◌-◌, ◌/◌, ◌^◌, ◌≤◌, ◌<◌, ◌≡◌, Bool, false, map, if◌then◌else◌, suc, ltb, List, [], ◌∷◌,
  ◌++◌, arith, tests, true, if_split, ◌==◌, replicate, zero,
}
use bc250_vulkan_encode_stop.Base.Int.{ℤ}
use bc250_vulkan_encode_stop.Bits.{odd}
use bc250_vulkan_encode_stop.Cabac.{CabacEngine, cabac_encode_ue_bypass}
use bc250_vulkan_encode_stop.Cabac.Exact.{Bin, decision, bypass, code_bins}
use bc250_vulkan_encode_stop.Cabac.Moves.{view, IsCoder, Reaches}
use bc250_vulkan_encode_stop.Cabac.Sequence.{AllInTable}
use bc250_vulkan_encode_stop.Cabac.Steps.{InTable}
use bc250_vulkan_encode_stop.Cabac.Escape.{Codes}
use bc250_vulkan_encode_stop.Cabac.Golomb.{suffix_bits, cabac_encode_ue_bypass-offset}
use bc250_vulkan_encode_stop.Cabac.Elements.{
  magnitude, negative, cabac_write_mb_type_i16x16, cabac_write_mvd_component,
}
use bc250_vulkan_encode_stop.Cabac.Binarization.{
  mb_type_bins, mvd_prefix, mvd_bins, cabac_write_mb_type_i16x16-Codes,
  cabac_write_mvd_component-Codes,
}
use bc250_vulkan_encode_stop.Cabac.Residual.{write_level}
use bc250_vulkan_encode_stop.Cabac.Levels.{
  node_of, first_inc, other_inc, level_bins, write_level-Codes,
}

bypass_listed : (bits : List Bool) → AllInTable (map bypass bits)
unfolding AllInTable
bypass_listed [] = tt
bypass_listed (b ∷ bs) = (tt, bypass_listed bs)

AllInTable-append : (bs cs : List Bin) → AllInTable bs → AllInTable cs → AllInTable (bs ++ cs)
unfolding AllInTable
AllInTable-append [] cs left right = right
AllInTable-append (b ∷ bs) cs (h, left) right = (h, AllInTable-append bs cs left right)

ones_listed : (k ctx : ℕ) → ctx < 276 → AllInTable (replicate k (decision ctx true))
unfolding AllInTable InTable
ones_listed zero ctx h = tt
ones_listed (suc k) ctx h = (h, ones_listed k ctx h)

pair_listed :
    (ctx : ℕ) (sign : Bool) → ctx < 276 → AllInTable (decision ctx false ∷ bypass sign ∷ [])
unfolding AllInTable InTable
pair_listed ctx sign h = (h, (tt, tt))

suffix_listed :
    (exp_bits j rest : ℕ) (sign : Bool)
    → AllInTable (map bypass (suffix_bits exp_bits j rest) ++ (bypass sign ∷ []))
suffix_listed exp_bits j rest sign =
    AllInTable-append (map bypass (suffix_bits exp_bits j rest)) (bypass sign ∷ [])
      (bypass_listed (suffix_bits exp_bits j rest)) (bypass_listed (sign ∷ []))

-- A bin with a context in front of one of two strings.
choice_listed :
    (ctx : ℕ) (bit test : Bool) (bs cs : List Bin)
    → ctx < 276
    → AllInTable bs
    → AllInTable cs
    → AllInTable (decision ctx bit ∷ (if test then bs else cs))
unfolding AllInTable InTable
choice_listed ctx bit test bs cs h left right =
    (h, if_split AllInTable test (λ yes1. left) (λ no1. right))

zero_listed : (ctx : ℕ) → ctx < 276 → AllInTable (decision ctx false ∷ [])
unfolding AllInTable InTable
zero_listed ctx h = (h, tt)

unary_bound : (ctxbase a : ℕ) → ctxbase ≤ 47 → ctxbase + (if ltb a 4 then a + 2 else 6) < 276
unary_bound ctxbase a h =
    if_split (λ n. ctxbase + n < 276) (ltb a 4) (λ small. omega (tests, small, h))
      (λ large. omega (arith, h))

inc_bounds :
    (ones larger base : ℕ)
    → base ≤ 266
    → (first_inc ones larger + base < 276) × (other_inc larger + base < 276)
unfolding first_inc other_inc
inc_bounds ones zero base h = (omega arith, omega arith)
inc_bounds ones (suc larger) base h = (omega arith, omega arith)

prefix_listed : (ctxbase count i : ℕ) → ctxbase ≤ 47 → AllInTable (mvd_prefix ctxbase count i)
unfolding AllInTable InTable mvd_prefix
prefix_listed ctxbase zero i h = tt
prefix_listed ctxbase (suc count) i h =
    (unary_bound ctxbase i h, prefix_listed ctxbase count (i + 1) h)

mb_type_listed :
    (neighbours : ℕ) (luma : Bool) (chroma mode : ℕ)
    → neighbours ≤ 2
    → AllInTable (mb_type_bins neighbours luma chroma mode)
unfolding mb_type_bins AllInTable InTable
mb_type_listed neighbours luma chroma mode h =
    let second = odd (chroma / 2) in
    let pattern =
      if_split AllInTable (chroma == 0) {x = decision 7 false ∷ []}
        {y = decision 7 true ∷ decision 8 second ∷ []} (λ alone. (omega arith, tt))
        (λ both. (omega arith, (omega arith, tt))) in
    (
      omega (arith, h),
      (
        tt,
        (
          omega arith,
          AllInTable-append
              (if chroma == 0
                then decision 7 false ∷ []
                else decision 7 true ∷ decision 8 second ∷ [])
              (decision 9 (odd (mode / 2)) ∷ decision 10 (odd mode) ∷ []) pattern
              (omega arith, (omega arith, tt)),
        ),
      ),
    )

mvd_listed :
    (ctxbase ctx : ℕ) (mvd : ℤ) (j rest : ℕ)
    → ctxbase ≤ 47
    → ctx ≤ 2
    → AllInTable (mvd_bins ctxbase ctx mvd j rest)
unfolding mvd_bins
mvd_listed ctxbase ctx mvd j rest h k =
    let a = magnitude mvd in
    let sign = negative mvd in
    let end = ctxbase + (if ltb a 4 then a + 2 else 6) in
    let ends : end < 276 = unary_bound ctxbase a h in
    let short =
      AllInTable-append (mvd_prefix ctxbase (a - 1) 1) (decision end false ∷ bypass sign ∷ [])
        (prefix_listed ctxbase (a - 1) 1 h) (pair_listed end sign ends) in
    let long =
      AllInTable-append (mvd_prefix ctxbase 8 1)
        (map bypass (suffix_bits 3 j rest) ++ (bypass sign ∷ [])) (prefix_listed ctxbase 8 1 h)
        (suffix_listed 3 j rest sign) in
    if_split AllInTable (a == 0) (λ nothing. zero_listed (ctxbase + ctx) (omega arith))
      (λ any.
        choice_listed (ctxbase + ctx) true (ltb a 9)
          (mvd_prefix ctxbase (a - 1) 1 ++ (decision end false ∷ bypass sign ∷ []))
          (mvd_prefix ctxbase 8 1 ++ (map bypass (suffix_bits 3 j rest) ++ (bypass sign ∷ [])))
          (omega arith) short long)

level_listed :
    (base ones larger : ℕ) (coeff : ℤ) (j rest : ℕ)
    → base ≤ 266
    → AllInTable (level_bins base ones larger coeff j rest)
unfolding level_bins
level_listed base ones larger coeff j rest h =
    let a = magnitude coeff in
    let sign = negative coeff in
    let first = first_inc ones larger + base in
    let other = other_inc larger + base in
    let (first_in, other_in) = inc_bounds ones larger base h in
    let short =
      AllInTable-append (replicate (a - 2) (decision other true))
        (decision other false ∷ bypass sign ∷ []) (ones_listed (a - 2) other other_in)
        (pair_listed other sign other_in) in
    let long =
      AllInTable-append (replicate 13 (decision other true))
        (map bypass (suffix_bits 0 j rest) ++ (bypass sign ∷ [])) (ones_listed 13 other other_in)
        (suffix_listed 0 j rest sign) in
    if_split AllInTable (ltb 1 a)
      (λ more.
        choice_listed first true (ltb a 15)
          (replicate (a - 2) (decision other true) ++ (decision other false ∷ bypass sign ∷ []))
          (replicate 13 (decision other true)
            ++ (map bypass (suffix_bits 0 j rest) ++ (bypass sign ∷ [])))
          first_in short long)
      (λ less. pair_listed first sign first_in)

-- From an engine in order and without overflow, a value that with 2^exp_bits added is 2^(exp_bits
-- + j) + rest, with rest below 2^(exp_bits + j), j below 16 and a code of at most 32 bits, goes
-- out of cabac_encode_ue_bypass whole, as j ones, a zero and the exp_bits + j bits of rest.
pub cabac_encode_ue_bypass-Reaches :
    (e : CabacEngine) (exp_bits j rest val : ℕ)
    → j < 16
    → exp_bits + j + (j + 1) ≤ 32
    → rest < 2 ^ (exp_bits + j)
    → val + 2 ^ exp_bits ≡ 2 ^ (exp_bits + j) + rest
    → IsCoder e
    → (cabac_encode_ue_bypass e exp_bits val).buffer.overflow ≡ false
    → Reaches e
        (code_bins (view e) (map bypass (suffix_bits exp_bits j rest)))
        (cabac_encode_ue_bypass e exp_bits val)
unfolding Codes
cabac_encode_ue_bypass-Reaches e exp_bits j rest val table word h same coding =
    (cabac_encode_ue_bypass-offset exp_bits j rest table word e val h same).1 coding
      (bypass_listed (suffix_bits exp_bits j rest))

-- Without overflow, and with at most 2 neighbours, the type of an Intra16x16 macroblock goes out
-- in the binarization of Table 9-36.
pub cabac_write_mb_type_i16x16-Reaches :
    (e : CabacEngine) (neighbours : ℕ) (luma : Bool) (chroma mode : ℕ)
    → IsCoder e
    → neighbours ≤ 2
    → (cabac_write_mb_type_i16x16 e neighbours luma chroma mode).buffer.overflow ≡ false
    → Reaches e
        (code_bins (view e) (mb_type_bins neighbours luma chroma mode))
        (cabac_write_mb_type_i16x16 e neighbours luma chroma mode)
unfolding Codes
cabac_write_mb_type_i16x16-Reaches e neighbours luma chroma mode coding h =
    (cabac_write_mb_type_i16x16-Codes e neighbours luma chroma mode).1 coding
      (mb_type_listed neighbours luma chroma mode h)

-- Without overflow, a motion vector difference whose magnitude less 1 is 2^(3 + j) + rest when it
-- is 9 or more goes out in the UEG3 binarization with its sign, with the contexts of 9.3.3.1
-- behind the base 40 or 47.
pub cabac_write_mvd_component-Reaches :
    (e : CabacEngine) (is_vertical : Bool) (ctx : ℕ) (mvd : ℤ) (j rest : ℕ)
    → j ≤ 13
    → rest < 2 ^ (3 + j)
    → (9 ≤ magnitude mvd → magnitude mvd - 1 ≡ 2 ^ (3 + j) + rest)
    → IsCoder e
    → ctx ≤ 2
    → (cabac_write_mvd_component e is_vertical ctx mvd).0.buffer.overflow ≡ false
    → Reaches e
        (code_bins (view e) (mvd_bins (if is_vertical then 47 else 40) ctx mvd j rest))
        (cabac_write_mvd_component e is_vertical ctx mvd).0
unfolding Codes
cabac_write_mvd_component-Reaches e is_vertical ctx mvd j rest small h same coding low =
    (cabac_write_mvd_component-Codes e is_vertical ctx mvd j rest small h same).1 coding (
      mvd_listed (if is_vertical then 47 else 40) ctx mvd j rest
        (if_split (λ n. n ≤ 47) is_vertical (λ v. omega arith) (λ v. omega arith)) low)

-- From an engine in order and without overflow, for a context base of at most 266 and a level
-- whose magnitude, where it is 15 or more, is 14 + 2^j + rest with j at most 15 and rest below
-- 2^j, which takes it to 2^16 + 13 at most, write_level puts out the level in the UEG0
-- binarization with its sign, the contexts of its bins are those of 9.3.3.1.3 for the numbers of
-- levels equal to 1 and above 1 before it, and the node that is handed on stands for the new
-- numbers.
pub write_level-Reaches :
    (base ones larger : ℕ) (e : CabacEngine) (coeff : ℤ) (j rest : ℕ)
    → j ≤ 15
    → rest < 2 ^ j
    → (15 ≤ magnitude coeff → magnitude coeff - 14 ≡ 2 ^ j + rest)
    → IsCoder e
    → base ≤ 266
    → (write_level base e (node_of ones larger) coeff).0.buffer.overflow ≡ false
    → Reaches e
        (code_bins (view e) (level_bins base ones larger coeff j rest))
        (write_level base e (node_of ones larger) coeff).0
      × ((write_level base e (node_of ones larger) coeff).1 ≡ (
          if ltb 1 (magnitude coeff) then node_of ones (suc larger) else node_of (ones + 1) larger))
unfolding Codes
write_level-Reaches base ones larger e coeff j rest small h same coding low ok =
    let (coded, node) = write_level-Codes base ones larger e coeff j rest small h same in
    (coded.1 coding (level_listed base ones larger coeff j rest low) ok, node)
