-- ===== src/Cabac/Binarization.antt =====
-- The binarizations of H.264 9.3.2 and the contexts of 9.3.3.1 for what cabac.c puts out.
use mathlib.Core.Path.{subst}
use native.Mathlib.Decide.{dec_le}
use bc250_vulkan_encode_stop.Base.{
  ℕ, zero, suc, ◌+◌, ◌-◌, ◌/◌, ◌^◌, ◌≤◌, ◌<◌, ◌≡◌, refl, sym, ap, ◌∙◌, arith, List, [], ◌∷◌, ◌++◌,
  map, Bool, true, false, if◌then◌else◌, ltb, ◌==◌, get_or, ==-false, ==_iff, ltb-false, lt→ltb,
}
use bc250_vulkan_encode_stop.Base.Below.{all_below, all_below-holds}
use bc250_vulkan_encode_stop.Base.Int.{ℤ}
use bc250_vulkan_encode_stop.Bits.{odd}
use bc250_vulkan_encode_stop.Cabac.{
  CabacEngine, cabac_encode_decision, cabac_encode_bypass, cabac_encode_terminal,
  cabac_encode_ue_bypass,
}
use bc250_vulkan_encode_stop.Cabac.Exact.{Bin, decision, bypass, terminal}
use bc250_vulkan_encode_stop.Cabac.Sequence.{
  encode_bin, encode_bins, encode_bins-unflagged, encode_bins-Reaches,
}
use bc250_vulkan_encode_stop.Cabac.Escape.{Codes, Codes-append}
use bc250_vulkan_encode_stop.Cabac.Golomb.{suffix_bits, cabac_encode_ue_bypass-offset}
use bc250_vulkan_encode_stop.Cabac.Elements.{
  magnitude, negative, cabac_write_mb_type_i16x16, cabac_mvd_unary_ctx, mvd_ones,
  cabac_write_mvd_component,
}

pub encode_bins-Codes : (e : CabacEngine) (bins : List Bin) → Codes bins e (encode_bins e bins)
unfolding Codes
encode_bins-Codes e bins = (encode_bins-unflagged e bins, encode_bins-Reaches e bins)

-- Table 9-36 for an Intra16x16 type: the pattern and the prediction mode follow the fixed bins.
unfoldable pub mb_type_bins : ℕ → Bool → ℕ → ℕ → List Bin
mb_type_bins neighbours luma chroma mode =
    decision (3 + neighbours) true
    ∷ terminal
    ∷ decision 6 luma
    ∷ ((if chroma == 0
          then decision 7 false ∷ []
          else decision 7 true ∷ decision 8 (odd (chroma / 2)) ∷ [])
        ++ (decision 9 (odd (mode / 2)) ∷ decision 10 (odd mode) ∷ []))

cabac_write_mb_type_i16x16-bins :
    (e : CabacEngine) (neighbours : ℕ) (luma : Bool) (chroma mode : ℕ)
    → encode_bins e (mb_type_bins neighbours luma chroma mode)
      ≡ cabac_write_mb_type_i16x16 e neighbours luma chroma mode
unfolding mb_type_bins cabac_write_mb_type_i16x16 encode_bins
cabac_write_mb_type_i16x16-bins e neighbours luma chroma mode =
    let prefix = cabac_encode_terminal (cabac_encode_decision e (3 + neighbours) true) in
    let before = cabac_encode_decision prefix 6 luma in
    let second = odd (chroma / 2) in
    let high = odd (mode / 2) in
    let low = odd mode in
    elim (chroma == 0)
      as (λ alone.
        encode_bins before (
          (if alone then decision 7 false ∷ [] else decision 7 true ∷ decision 8 second ∷ [])
          ++ (decision 9 high ∷ decision 10 low ∷ []))
        ≡ cabac_encode_decision
            (cabac_encode_decision
              (if alone
                then cabac_encode_decision before 7 false
                else cabac_encode_decision (cabac_encode_decision before 7 true) 8 second)
              9 high)
            10 low) [ true ↦ refl | false ↦ refl ]

pub cabac_write_mb_type_i16x16-Codes :
    (e : CabacEngine) (neighbours : ℕ) (luma : Bool) (chroma mode : ℕ)
    → Codes
        (mb_type_bins neighbours luma chroma mode)
        e
        (cabac_write_mb_type_i16x16 e neighbours luma chroma mode)
cabac_write_mb_type_i16x16-Codes e neighbours luma chroma mode =
    subst (Codes (mb_type_bins neighbours luma chroma mode) e)
      (cabac_write_mb_type_i16x16-bins e neighbours luma chroma mode)
      (encode_bins-Codes e (mb_type_bins neighbours luma chroma mode))

-- The unary part of a motion vector difference: bin number `i` has the context 3, 4, 5, 6, 6, ...
unfoldable pub mvd_prefix : ℕ → ℕ → ℕ → List Bin
mvd_prefix ctxbase zero i = []
mvd_prefix ctxbase (suc count) i =
    decision (ctxbase + (if ltb i 4 then i + 2 else 6)) true ∷ mvd_prefix ctxbase count (i + 1)

unary_test : ℕ → Bool
unary_test n = get_or cabac_mvd_unary_ctx n 0 == (if ltb (n + 1) 4 then n + 1 + 2 else 6)

unary_tested : all_below unary_test 8 ≡ true
unfolding all_below unary_test cabac_mvd_unary_ctx
unary_tested = refl

unary_entry :
    (i : ℕ) → 1 ≤ i → i ≤ 8 → get_or cabac_mvd_unary_ctx (i - 1) 0 ≡ (if ltb i 4 then i + 2 else 6)
unfolding unary_test
unary_entry i h k =
    let before : i - 1 + 1 ≡ i = omega (arith, h) in
    (==_iff (get_or cabac_mvd_unary_ctx (i - 1) 0)
        (if ltb (i - 1 + 1) 4 then i - 1 + 1 + 2 else 6)).0
      (all_below-holds unary_test 8 (i - 1) (omega (arith, h, k)) unary_tested)
    ∙ ap (λ (n : ℕ). if ltb n 4 then n + 2 else 6) before

mvd_ones-bins :
    (ctxbase count i : ℕ) (e : CabacEngine)
    → 1 ≤ i
    → i + count ≤ 9
    → mvd_ones ctxbase count i e ≡ encode_bins e (mvd_prefix ctxbase count i)
unfolding mvd_ones mvd_prefix encode_bins encode_bin
mvd_ones-bins ctxbase zero i e h k = refl
mvd_ones-bins ctxbase (suc count) i e h k =
    let after = cabac_encode_decision e (ctxbase + get_or cabac_mvd_unary_ctx (i - 1) 0) true in
    mvd_ones-bins ctxbase count (i + 1) after (omega arith) (omega (arith, k))
    ∙ ap
        (λ (n : ℕ).
          encode_bins (cabac_encode_decision e (ctxbase + n) true)
            (mvd_prefix ctxbase count (i + 1)))
        (unary_entry i h (omega (arith, k)))

-- UEG3 with the sign, 9.3.2.3: nothing but a zero, a unary string, or nine ones and the suffix of
-- `rest` behind `j` ones.
unfoldable pub mvd_bins : ℕ → ℕ → ℤ → ℕ → ℕ → List Bin
mvd_bins ctxbase ctx mvd j rest =
    let a = magnitude mvd in
    let short =
      mvd_prefix ctxbase (a - 1) 1
      ++ (decision (ctxbase + (if ltb a 4 then a + 2 else 6)) false ∷ bypass (negative mvd) ∷ []) in
    let long =
      mvd_prefix ctxbase 8 1
      ++ (map bypass (suffix_bits 3 j rest) ++ (bypass (negative mvd) ∷ [])) in
    if a == 0
    then decision (ctxbase + ctx) false ∷ []
    else decision (ctxbase + ctx) true ∷ (if ltb a 9 then short else long)

prefix-Codes :
    (ctxbase count : ℕ) (e : CabacEngine)
    → count ≤ 8
    → Codes (mvd_prefix ctxbase count 1) e (mvd_ones ctxbase count 1 e)
prefix-Codes ctxbase count e h =
    subst (Codes (mvd_prefix ctxbase count 1) e)
      (sym (mvd_ones-bins ctxbase count 1 e (omega arith) (omega arith)))
      (encode_bins-Codes e (mvd_prefix ctxbase count 1))

pub bypass-Codes :
    (e : CabacEngine) (bit : Bool) → Codes (bypass bit ∷ []) e (cabac_encode_bypass e bit)
unfolding encode_bins encode_bin
bypass-Codes e bit = encode_bins-Codes e (bypass bit ∷ [])

pub decision-Codes :
    (e : CabacEngine) (ctx : ℕ) (bit : Bool)
    → Codes (decision ctx bit ∷ []) e (cabac_encode_decision e ctx bit)
unfolding encode_bins encode_bin
decision-Codes e ctx bit = encode_bins-Codes e (decision ctx bit ∷ [])

module _ (e : CabacEngine) (ctxbase a : ℕ) (sign : Bool) where
  short-Codes :
      1 ≤ a
      → a ≤ 8
      → Codes
          (mvd_prefix ctxbase (a - 1) 1
            ++ (decision (ctxbase + (if ltb a 4 then a + 2 else 6)) false ∷ bypass sign ∷ []))
          e
          (cabac_encode_bypass
            (cabac_encode_decision
              (mvd_ones ctxbase (a - 1) 1 e)
              (ctxbase + get_or cabac_mvd_unary_ctx (a - 1) 0)
              false)
            sign)
  short-Codes h k =
      let ones = mvd_ones ctxbase (a - 1) 1 e in
      let end = cabac_encode_decision ones (ctxbase + (if ltb a 4 then a + 2 else 6)) false in
      let last =
        Codes-append (decision (ctxbase + (if ltb a 4 then a + 2 else 6)) false ∷ [])
          (bypass sign ∷ []) ones end (cabac_encode_bypass end sign)
          (decision-Codes ones (ctxbase + (if ltb a 4 then a + 2 else 6)) false)
          (bypass-Codes end sign) in
      rw (unary_entry a h k) (
        Codes-append (mvd_prefix ctxbase (a - 1) 1)
          (decision (ctxbase + (if ltb a 4 then a + 2 else 6)) false ∷ bypass sign ∷ []) e ones
          (cabac_encode_bypass end sign) (prefix-Codes ctxbase (a - 1) e (omega (arith, k))) last)

  long-Codes :
      (j rest : ℕ)
      → j ≤ 13
      → rest < 2 ^ (3 + j)
      → 9 ≤ a
      → a - 1 ≡ 2 ^ (3 + j) + rest
      → Codes
          (mvd_prefix ctxbase 8 1 ++ (map bypass (suffix_bits 3 j rest) ++ (bypass sign ∷ [])))
          e
          (cabac_encode_bypass (cabac_encode_ue_bypass (mvd_ones ctxbase 8 1 e) 3 (a - 9)) sign)
  long-Codes j rest small h large same =
      let ones = mvd_ones ctxbase 8 1 e in
      let end = cabac_encode_ue_bypass ones 3 (a - 9) in
      let suffix =
        cabac_encode_ue_bypass-offset 3 j rest (omega (arith, small)) (omega (arith, small)) ones
          (a - 9) h (omega (arith, same, large)) in
      let last =
        Codes-append (map bypass (suffix_bits 3 j rest)) (bypass sign ∷ []) ones end
          (cabac_encode_bypass end sign) suffix (bypass-Codes end sign) in
      Codes-append (mvd_prefix ctxbase 8 1)
        (map bypass (suffix_bits 3 j rest) ++ (bypass sign ∷ [])) e ones
        (cabac_encode_bypass end sign) (prefix-Codes ctxbase 8 e (omega arith)) last

-- A motion vector difference goes out in its binarization, where its magnitude less 1 is
-- 2^(3 + j) + rest when it has a suffix.
pub cabac_write_mvd_component-Codes :
    (e : CabacEngine) (is_vertical : Bool) (ctx : ℕ) (mvd : ℤ) (j rest : ℕ)
    → j ≤ 13
    → rest < 2 ^ (3 + j)
    → (9 ≤ magnitude mvd → magnitude mvd - 1 ≡ 2 ^ (3 + j) + rest)
    → Codes
        (mvd_bins (if is_vertical then 47 else 40) ctx mvd j rest)
        e
        (cabac_write_mvd_component e is_vertical ctx mvd).0
unfolding mvd_bins cabac_write_mvd_component
cabac_write_mvd_component-Codes e is_vertical ctx mvd j rest small h same =
    let a = magnitude mvd in
    let base : ℕ = if is_vertical then 47 else 40 in
    let present = cabac_encode_decision e (base + ctx) true in
    let first = decision-Codes e (base + ctx) true in
    let sign = negative mvd in
    elim (dec_le 1 a) [
      | no less ↦
          let nothing : a ≡ 0 = omega (arith, less) in
          let found : (a == 0) ≡ true = (==_iff a 0).1 nothing in
          rw found (decision-Codes e (base + ctx) false)
      | yes any ↦
          let found : (a == 0) ≡ false = ==-false a 0 (λ z. absurd (omega (arith, any, z))) in
          elim (dec_le 9 a) [
            | yes large ↦
                let test : ltb a 9 ≡ false = ltb-false a 9 large in
                let ones = mvd_ones base 8 1 present in
                let after = cabac_encode_bypass (cabac_encode_ue_bypass ones 3 (a - 9)) sign in
                let bins =
                  mvd_prefix base 8 1
                  ++ (map bypass (suffix_bits 3 j rest) ++ (bypass sign ∷ [])) in
                rw (found, test)
                  (Codes-append (decision (base + ctx) true ∷ []) bins e present after first
                    (long-Codes present base a sign j rest small h large (same large)))
            | no more ↦
                let test : ltb a 9 ≡ true = lt→ltb a 9 (omega (arith, more)) in
                let ones = mvd_ones base (a - 1) 1 present in
                let end =
                  cabac_encode_decision ones (base + get_or cabac_mvd_unary_ctx (a - 1) 0) false in
                let bins =
                  mvd_prefix base (a - 1) 1
                  ++ (decision (base + (if ltb a 4 then a + 2 else 6)) false ∷ bypass sign ∷ []) in
                rw (found, test)
                  (Codes-append (decision (base + ctx) true ∷ []) bins e present
                    (cabac_encode_bypass end sign) first
                    (short-Codes present base a sign any (omega (arith, more))))
          ]
    ]
