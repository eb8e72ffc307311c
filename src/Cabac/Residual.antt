-- ===== src/Cabac/Residual.antt =====
-- `cabac_write_residual_block` of cabac.h: the significance map forwards, and the levels backwards
-- with a context that counts the levels before.
use bc250_vulkan_encode_stop.Base.{
  ℕ, zero, suc, ◌+◌, ◌-◌, List, [], ◌∷◌, Option, none, some, Bool, true, false, if◌then◌else◌, ltb,
  ◌==◌, get_or,
}
use bc250_vulkan_encode_stop.Base.Int.{ℤ, pos}
use bc250_vulkan_encode_stop.Cabac.{
  CabacEngine, cabac_encode_decision, cabac_encode_bypass, cabac_encode_ue_bypass,
}
use bc250_vulkan_encode_stop.Cabac.Elements.{
  CabacCtxBlockCat, luma_dc, luma_ac, luma_4x4, chroma_dc, chroma_ac, cabac_count_m1, magnitude,
  negative,
}

unfoldable pub cabac_sig_base : CabacCtxBlockCat → ℕ
cabac_sig_base luma_dc = 105
cabac_sig_base luma_ac = 120
cabac_sig_base luma_4x4 = 134
cabac_sig_base chroma_dc = 149
cabac_sig_base chroma_ac = 152

unfoldable pub cabac_last_base : CabacCtxBlockCat → ℕ
cabac_last_base luma_dc = 166
cabac_last_base luma_ac = 181
cabac_last_base luma_4x4 = 195
cabac_last_base chroma_dc = 210
cabac_last_base chroma_ac = 213

unfoldable pub cabac_level_base : CabacCtxBlockCat → ℕ
cabac_level_base luma_dc = 227
cabac_level_base luma_ac = 237
cabac_level_base luma_4x4 = 247
cabac_level_base chroma_dc = 257
cabac_level_base chroma_ac = 266

unfoldable pub cabac_level1_ctx : List ℕ
cabac_level1_ctx = 1 ∷ 2 ∷ 3 ∷ 4 ∷ 0 ∷ 0 ∷ 0 ∷ 0 ∷ []

unfoldable pub cabac_levelgt1_ctx : List ℕ
cabac_levelgt1_ctx = 5 ∷ 5 ∷ 5 ∷ 5 ∷ 6 ∷ 7 ∷ 8 ∷ 9 ∷ []

-- The row for a level of 1 and the row for a larger one.
unfoldable pub cabac_level_transition : Bool → List ℕ
cabac_level_transition false = 1 ∷ 2 ∷ 3 ∷ 3 ∷ 4 ∷ 5 ∷ 6 ∷ 7 ∷ []
cabac_level_transition true = 4 ∷ 4 ∷ 4 ∷ 4 ∷ 5 ∷ 6 ∷ 7 ∷ 7 ∷ []

abbrev pub is_zero : ℤ → Bool
is_zero v = magnitude v == 0

-- `scanned[i]`.
abbrev pub at_index : List ℤ → ℕ → ℤ
at_index scanned i = get_or scanned i (pos 0)

-- The loop from `i = count_m1` down, with the number of places that are left.
unfoldable pub find_last : List ℤ → ℕ → Option ℕ
find_last scanned zero = none
find_last scanned (suc i) =
    let below = find_last scanned i in if is_zero (at_index scanned i) then below else some i

-- The loop over the map with `n` places up to count_m1, where the last coefficient is not coded;
-- the coefficients come last one first, as the next loop reads them.
unfoldable pub write_map : ℕ → ℕ → List ℤ → ℕ → ℕ → ℕ → CabacEngine → List ℤ → CabacEngine × List ℤ
write_map ctx_sig ctx_last scanned last zero i e coeffs = (e, at_index scanned i ∷ coeffs)
write_map ctx_sig ctx_last scanned last (suc n) i e coeffs =
    let c = at_index scanned i in
    let nonzero = cabac_encode_decision e (ctx_sig + i) true in
    let ended : CabacEngine × List ℤ =
      (cabac_encode_decision nonzero (ctx_last + i) true, c ∷ coeffs) in
    let next =
      write_map ctx_sig ctx_last scanned last n (i + 1)
        (cabac_encode_decision nonzero (ctx_last + i) false) (c ∷ coeffs) in
    let skipped =
      write_map ctx_sig ctx_last scanned last n (i + 1)
        (cabac_encode_decision e (ctx_sig + i) false) coeffs in
    if is_zero c then skipped else if i == last then ended else next

-- `for (k = capped - 2; k > 0; k--)`.
unfoldable pub level_ones : ℕ → ℕ → CabacEngine → CabacEngine
level_ones ctx zero e = e
level_ones ctx (suc k) e = level_ones ctx k (cabac_encode_decision e ctx true)

unfoldable pub write_level : ℕ → CabacEngine → ℕ → ℤ → CabacEngine × ℕ
write_level ctx_level e node_ctx coeff =
    let abs_coeff = magnitude coeff in
    let ctx = get_or cabac_level1_ctx node_ctx 0 + ctx_level in
    let ctx_more = get_or cabac_levelgt1_ctx node_ctx 0 + ctx_level in
    let capped = if ltb abs_coeff 15 then abs_coeff else 15 in
    let ones = level_ones ctx_more (capped - 2) (cabac_encode_decision e ctx true) in
    let larger =
      if ltb abs_coeff 15
      then cabac_encode_decision ones ctx_more false
      else cabac_encode_ue_bypass ones 0 (abs_coeff - 15) in
    if ltb 1 abs_coeff
    then (
      cabac_encode_bypass larger (negative coeff),
      get_or (cabac_level_transition true) node_ctx 0,
    )
    else (
      cabac_encode_bypass (cabac_encode_decision e ctx false) (negative coeff),
      get_or (cabac_level_transition false) node_ctx 0,
    )

unfoldable pub write_levels : ℕ → CabacEngine → ℕ → List ℤ → CabacEngine
write_levels ctx_level e node_ctx [] = e
write_levels ctx_level e node_ctx (coeff ∷ coeffs) =
    let (after, next) = write_level ctx_level e node_ctx coeff in
    write_levels ctx_level after next coeffs

unfoldable pub cabac_write_residual_block : CabacEngine → CabacCtxBlockCat → List ℤ → CabacEngine
cabac_write_residual_block e cat scanned = elim (find_last scanned (cabac_count_m1 cat + 1)) [
  | none ↦ e
  | some last ↦
      let (mapped, coeffs) =
        write_map (cabac_sig_base cat) (cabac_last_base cat) scanned last (cabac_count_m1 cat) 0 e
          [] in
      write_levels (cabac_level_base cat) mapped 0 coeffs
]
