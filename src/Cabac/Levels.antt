-- ===== src/Cabac/Levels.antt =====
-- The levels of a residual block in cabac.h against H.264 9.3.2.3 (UEG0) and 9.3.3.1.3, which
-- takes the contexts from the numbers of levels equal to 1 and above 1 that came before.
use mathlib.Core.Path.{subst}
use native.Mathlib.Decide.{dec_le}
use Prim.Native.Nat.{min}
use bc250_vulkan_encode_stop.Base.{
  ℕ, zero, suc, ◌+◌, ◌-◌, ◌^◌, ◌≤◌, ◌<◌, ◌≡◌, refl, sym, ap, ◌∙◌, arith, List, [], ◌∷◌, ◌++◌, map,
  replicate, true, false, if◌then◌else◌, ltb, lt→ltb, ltb-false, get_or,
}
use bc250_vulkan_encode_stop.Base.Int.{ℤ}
use bc250_vulkan_encode_stop.Cabac.{
  CabacEngine, cabac_encode_decision, cabac_encode_bypass, cabac_encode_ue_bypass,
}
use bc250_vulkan_encode_stop.Cabac.Exact.{Bin, decision, bypass}
use bc250_vulkan_encode_stop.Cabac.Sequence.{encode_bins, encode_bin}
use bc250_vulkan_encode_stop.Cabac.Escape.{Codes, Codes-append}
use bc250_vulkan_encode_stop.Cabac.Golomb.{suffix_bits, cabac_encode_ue_bypass-offset}
use bc250_vulkan_encode_stop.Cabac.Binarization.{encode_bins-Codes, bypass-Codes, decision-Codes}
use bc250_vulkan_encode_stop.Cabac.Elements.{magnitude, negative}
use bc250_vulkan_encode_stop.Cabac.Residual.{
  cabac_level1_ctx, cabac_levelgt1_ctx, cabac_level_transition, level_ones, write_level,
}

-- The node of the source for `ones` levels of 1 and `larger` levels above 1.
unfoldable pub node_of : ℕ → ℕ → ℕ
node_of ones zero = min ones 3
node_of ones (suc larger) = min (4 + larger) 7

-- ctxIdxInc of the first bin of a level, and of the other bins of its prefix.
unfoldable pub first_inc : ℕ → ℕ → ℕ
first_inc ones zero = min 4 (1 + ones)
first_inc ones (suc larger) = 0

unfoldable pub other_inc : ℕ → ℕ
other_inc larger = 5 + min 4 larger

small_node :
    (n : ℕ)
    → n ≤ 3
    → (get_or cabac_level1_ctx n 0 ≡ n + 1)
      × (get_or cabac_levelgt1_ctx n 0 ≡ 5)
      × (get_or (cabac_level_transition false) n 0 ≡ min (n + 1) 3)
      × (get_or (cabac_level_transition true) n 0 ≡ 4)
unfolding cabac_level1_ctx cabac_levelgt1_ctx cabac_level_transition
small_node zero h = (refl, refl, refl, refl)
small_node (suc zero) h = (refl, refl, refl, refl)
small_node (suc (suc zero)) h = (refl, refl, refl, refl)
small_node (suc (suc (suc zero))) h = (refl, refl, refl, refl)
small_node (suc (suc (suc (suc n)))) h = absurd (omega (arith, h))

large_node :
    (n : ℕ)
    → n ≤ 3
    → (get_or cabac_level1_ctx (4 + n) 0 ≡ 0)
      × (get_or cabac_levelgt1_ctx (4 + n) 0 ≡ 6 + n)
      × (get_or (cabac_level_transition false) (4 + n) 0 ≡ 4 + n)
      × (get_or (cabac_level_transition true) (4 + n) 0 ≡ min (5 + n) 7)
unfolding cabac_level1_ctx cabac_levelgt1_ctx cabac_level_transition
large_node zero h = (refl, refl, refl, refl)
large_node (suc zero) h = (refl, refl, refl, refl)
large_node (suc (suc zero)) h = (refl, refl, refl, refl)
large_node (suc (suc (suc zero))) h = (refl, refl, refl, refl)
large_node (suc (suc (suc (suc n)))) h = absurd (omega (arith, h))

-- The tables of the source are the rules of 9.3.3.1.3 on the two counts.
pub node-counts :
    (ones larger : ℕ)
    → (get_or cabac_level1_ctx (node_of ones larger) 0 ≡ first_inc ones larger)
      × (get_or cabac_levelgt1_ctx (node_of ones larger) 0 ≡ other_inc larger)
      × (get_or (cabac_level_transition false) (node_of ones larger) 0 ≡ node_of (ones + 1) larger)
      × (get_or (cabac_level_transition true) (node_of ones larger) 0 ≡ node_of ones (suc larger))
unfolding node_of first_inc other_inc
node-counts ones zero =
    let (a, b, c, d) = small_node (min ones 3) (omega arith) in
    (a ∙ omega arith, b, c ∙ omega arith, d)
node-counts ones (suc larger) =
    let whole : min (4 + larger) 7 ≡ 4 + min larger 3 = omega arith in
    let (a, b, c, d) = large_node (min larger 3) (omega arith) in
    rw whole (a, b ∙ omega arith, c, d ∙ omega arith)

-- UEG0 with the sign: ones up to 14, and behind 14 of them the suffix of `rest` behind `j` ones.
unfoldable pub level_bins : ℕ → ℕ → ℕ → ℤ → ℕ → ℕ → List Bin
level_bins base ones larger coeff j rest =
    let a = magnitude coeff in
    let first = first_inc ones larger + base in
    let other = other_inc larger + base in
    let short =
      replicate (a - 2) (decision other true)
      ++ (decision other false ∷ bypass (negative coeff) ∷ []) in
    let long =
      replicate 13 (decision other true)
      ++ (map bypass (suffix_bits 0 j rest) ++ (bypass (negative coeff) ∷ [])) in
    if ltb 1 a
    then decision first true ∷ (if ltb a 15 then short else long)
    else decision first false ∷ bypass (negative coeff) ∷ []

level_ones-bins :
    (ctx k : ℕ) (e : CabacEngine)
    → level_ones ctx k e ≡ encode_bins e (replicate k (decision ctx true))
unfolding level_ones encode_bins encode_bin
level_ones-bins ctx zero e = refl
level_ones-bins ctx (suc k) e = level_ones-bins ctx k (cabac_encode_decision e ctx true)

level_ones-Codes :
    (ctx k : ℕ) (e : CabacEngine) → Codes (replicate k (decision ctx true)) e (level_ones ctx k e)
level_ones-Codes ctx k e =
    subst (Codes (replicate k (decision ctx true)) e) (sym (level_ones-bins ctx k e))
      (encode_bins-Codes e (replicate k (decision ctx true)))

-- A level goes out in its binarization, with the contexts of the counts, and the node follows them.
pub write_level-Codes :
    (base ones larger : ℕ) (e : CabacEngine) (coeff : ℤ) (j rest : ℕ)
    → j ≤ 15
    → rest < 2 ^ j
    → (15 ≤ magnitude coeff → magnitude coeff - 14 ≡ 2 ^ j + rest)
    → Codes
        (level_bins base ones larger coeff j rest)
        e
        (write_level base e (node_of ones larger) coeff).0
      × ((write_level base e (node_of ones larger) coeff).1 ≡ (
          if ltb 1 (magnitude coeff) then node_of ones (suc larger) else node_of (ones + 1) larger))
unfolding level_bins write_level
write_level-Codes base ones larger e coeff j rest small h same =
    let (first_ctx, other_ctx, next_one, next_larger) = node-counts ones larger in
    let a = magnitude coeff in
    let sign = negative coeff in
    let first = first_inc ones larger + base in
    let other = other_inc larger + base in
    let present = cabac_encode_decision e first true in
    let start = decision-Codes e first true in
    elim (dec_le 2 a) [
      | no less ↦
          let test : ltb 1 a ≡ false = ltb-false 1 a (omega (arith, less)) in
          let single = cabac_encode_decision e first false in
          rw (test, first_ctx)
            (
              Codes-append (decision first false ∷ []) (bypass sign ∷ []) e single
                  (cabac_encode_bypass single sign) (decision-Codes e first false)
                  (bypass-Codes single sign),
              next_one,
            )
      | yes more ↦
          let test : ltb 1 a ≡ true = lt→ltb 1 a more in
          elim (dec_le 15 a) [
            | no short ↦
                let fits : ltb a 15 ≡ true = lt→ltb a 15 (omega (arith, short)) in
                let run = level_ones other (a - 2) present in
                let end = cabac_encode_decision run other false in
                let tail =
                  Codes-append (decision other false ∷ []) (bypass sign ∷ []) run end
                    (cabac_encode_bypass end sign) (decision-Codes run other false)
                    (bypass-Codes end sign) in
                let bins =
                  replicate (a - 2) (decision other true)
                  ++ (decision other false ∷ bypass sign ∷ []) in
                let whole =
                  Codes-append (replicate (a - 2) (decision other true))
                    (decision other false ∷ bypass sign ∷ []) present run
                    (cabac_encode_bypass end sign) (level_ones-Codes other (a - 2) present) tail in
                rw (test, fits, first_ctx, other_ctx)
                  (
                    Codes-append (decision first true ∷ []) bins e present
                        (cabac_encode_bypass end sign) start whole,
                    next_larger,
                  )
            | yes long ↦
                let full : ltb a 15 ≡ false = ltb-false a 15 long in
                let run = level_ones other 13 present in
                let end = cabac_encode_ue_bypass run 0 (a - 15) in
                let power : 2 ^ (0 + j) ≡ 2 ^ j =
                  let zero_sum : 0 + j ≡ j = omega arith in ap (λ (n : ℕ). 2 ^ n) zero_sum in
                let suffix =
                  cabac_encode_ue_bypass-offset 0 j rest (omega (arith, small))
                    (omega (arith, small)) run (a - 15) (omega (arith, h, power))
                    (omega (arith, same long, power, long)) in
                let tail =
                  Codes-append (map bypass (suffix_bits 0 j rest)) (bypass sign ∷ []) run end
                    (cabac_encode_bypass end sign) suffix (bypass-Codes end sign) in
                let bins = map bypass (suffix_bits 0 j rest) ++ (bypass sign ∷ []) in
                let whole =
                  Codes-append (replicate 13 (decision other true)) bins present run
                    (cabac_encode_bypass end sign) (level_ones-Codes other 13 present) tail in
                rw (test, full, first_ctx, other_ctx)
                  (
                    Codes-append (decision first true ∷ [])
                        (replicate 13 (decision other true) ++ bins) e present
                        (cabac_encode_bypass end sign) start whole,
                    next_larger,
                  )
          ]
    ]
