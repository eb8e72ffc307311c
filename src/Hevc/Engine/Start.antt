-- ===== src/Hevc/Engine/Start.antt =====
-- `hevc_sbac_init_state` and `hevc_cabac_reset_contexts` of hevc_cabac.c: the 139 context states
-- that a slice starts with.
use bc250_vulkan_encode_stop.Base.{
  ℕ, zero, suc, ◌+◌, ◌-◌, ◌*◌, ◌/◌, ◌%◌, ◌≤◌, ◌<◌, ◌≡◌, refl, ◌∙◌, length, length-set, arith, Bool,
  true, false, List, [], ◌∷◌, if◌then◌else◌, leb, set, get_or,
}
use bc250_vulkan_encode_stop.Base.Int.{ℤ, pos, pos_part, ◌+ℤ◌, ◌-ℤ◌, ◌*ℤ◌, ltb_ℤ}
use bc250_vulkan_encode_stop.Base.Shift.{shr}
use bc250_vulkan_encode_stop.Hevc.Engine.{HevcCabac}
use bc250_vulkan_encode_stop.Hevc.Engine.Tables.{
  init_split_flag, init_part_size, init_intra_pred_mode, init_chroma_pred_mode, init_qt_cbf,
  init_sig_flag, init_last, init_one_flag, init_abs_flag, init_sig_cg_flag, init_trans_subdiv,
  init_skip_flag, init_pred_mode, init_merge_flag, init_merge_idx, init_mvd, init_mvp_idx,
  init_root_cbf,
}

unfoldable clamped : ℕ → ℕ → ℤ → ℕ
clamped low high v =
    if ltb_ℤ v (pos low) then low else if ltb_ℤ (pos high) v then high else pos_part v

-- `(state << 1) + mps` of an `init_state`.
unfoldable packed : ℕ → ℕ
packed init_state = if leb 64 init_state then (init_state - 64) * 2 + 1 else (63 - init_state) * 2

unfoldable pub hevc_sbac_init_state : ℤ → ℕ → ℕ
unfolding clamped packed shr ◌+ℤ◌ ◌-ℤ◌ ◌*ℤ◌
hevc_sbac_init_state qp init_value =
    let slope = pos (init_value / 16 * 5) -ℤ pos 45 in
    let offset = pos (init_value % 16 * 8) -ℤ pos 16 in
    packed (clamped 1 126 (shr (slope *ℤ pos (clamped 0 51 qp)) 4 +ℤ offset))

-- The contexts from `first` on.
unfoldable pub init_bank : ℤ → ℕ → List ℕ → List ℕ → List ℕ
unfolding hevc_sbac_init_state
init_bank qp first [] ctx = ctx
init_bank qp first (v ∷ vs) ctx =
    init_bank qp (suc first) vs (set ctx first (hevc_sbac_init_state qp v))

unfoldable pub init_banks : ℤ → List (ℕ × List ℕ) → List ℕ → List ℕ
unfolding init_bank
init_banks qp [] ctx = ctx
init_banks qp (bank ∷ banks) ctx = init_banks qp banks (init_bank qp bank.0 bank.1 ctx)

unfoldable row : List (List ℕ) → ℕ → List ℕ
row table type_idx = get_or table type_idx []

-- The calls for every slice, in the order of the source; `type_idx` is 0 in a P slice.
unfoldable pub shared_banks : ℕ → List (ℕ × List ℕ)
unfolding row init_split_flag init_part_size init_intra_pred_mode init_chroma_pred_mode init_qt_cbf
    init_sig_flag init_last init_one_flag init_abs_flag init_sig_cg_flag init_trans_subdiv
shared_banks type_idx =
    (0, row init_split_flag type_idx)
    ∷ (3, get_or init_part_size type_idx 0 ∷ [])
    ∷ (4, get_or init_intra_pred_mode type_idx 0 ∷ [])
    ∷ (5, row init_chroma_pred_mode type_idx)
    ∷ (7, row init_qt_cbf type_idx)
    ∷ (14, row init_sig_flag type_idx)
    ∷ (56, row init_last type_idx)
    ∷ (74, row init_last type_idx)
    ∷ (92, row init_one_flag type_idx)
    ∷ (116, row init_abs_flag type_idx)
    ∷ (128, row init_sig_cg_flag type_idx)
    ∷ (132, row init_trans_subdiv type_idx)
    ∷ []

-- The calls for a P slice only.
unfoldable pub inter_banks : List (ℕ × List ℕ)
unfolding init_skip_flag init_mvd
inter_banks =
    (122, init_skip_flag)
    ∷ (125, init_pred_mode ∷ [])
    ∷ (126, init_merge_flag ∷ [])
    ∷ (127, init_merge_idx ∷ [])
    ∷ (135, init_mvd)
    ∷ (137, init_mvp_idx ∷ [])
    ∷ (138, init_root_cbf ∷ [])
    ∷ []

unfoldable pub hevc_cabac_reset_contexts : ℤ → Bool → HevcCabac → HevcCabac
unfolding init_banks shared_banks inter_banks
hevc_cabac_reset_contexts slice_qp is_p cb =
    let shared = init_banks slice_qp (shared_banks (if is_p then 0 else 1)) cb.ctx in
    record cb { ctx = if is_p then init_banks slice_qp inter_banks shared else shared }

-- The states that the coder of a bin can go on with: 126 and 127 have the least share of all.
abbrev pub IsUsable : ℕ → Type 0
IsUsable s = s < 126

abbrev pub AllUsable : List ℕ → Type 0
AllUsable ctx = (i : ℕ) → IsUsable (get_or ctx i 0)

packed-IsUsable : (v : ℕ) → 1 ≤ v → v ≤ 126 → IsUsable (packed v)
unfolding packed
packed-IsUsable v low high = ground arith

clamped-within :
    (low high : ℕ) (v : ℤ) → low ≤ high → (low ≤ clamped low high v) × (clamped low high v ≤ high)
unfolding clamped
clamped-within low high v h = ground arith

hevc_sbac_init_state-IsUsable :
    (qp : ℤ) (init_value : ℕ) → IsUsable (hevc_sbac_init_state qp init_value)
unfolding hevc_sbac_init_state
hevc_sbac_init_state-IsUsable qp init_value =
    let slope = pos (init_value / 16 * 5) -ℤ pos 45 in
    let offset = pos (init_value % 16 * 8) -ℤ pos 16 in
    let (least, most) =
      clamped-within 1 126 (shr (slope *ℤ pos (clamped 0 51 qp)) 4 +ℤ offset) (omega arith) in
    packed-IsUsable (clamped 1 126 (shr (slope *ℤ pos (clamped 0 51 qp)) 4 +ℤ offset)) least most

pub set-AllUsable : (ctx : List ℕ) (i v : ℕ) → IsUsable v → AllUsable ctx → AllUsable (set ctx i v)
set-AllUsable [] i v h all j = all j
set-AllUsable (s ∷ ss) zero v h all zero = h
set-AllUsable (s ∷ ss) zero v h all (suc j) = all (suc j)
set-AllUsable (s ∷ ss) (suc i) v h all zero = all zero
set-AllUsable (s ∷ ss) (suc i) v h all (suc j) = set-AllUsable ss i v h (λ k. all (suc k)) j

init_bank-AllUsable :
    (qp : ℤ) (first : ℕ) (values ctx : List ℕ)
    → AllUsable ctx
    → AllUsable (init_bank qp first values ctx)
unfolding init_bank
init_bank-AllUsable qp first [] ctx all = all
init_bank-AllUsable qp first (v ∷ vs) ctx all =
    init_bank-AllUsable qp (suc first) vs (set ctx first (hevc_sbac_init_state qp v))
      (set-AllUsable ctx first (hevc_sbac_init_state qp v) (hevc_sbac_init_state-IsUsable qp v) all)

init_banks-AllUsable :
    (qp : ℤ) (banks : List (ℕ × List ℕ)) (ctx : List ℕ)
    → AllUsable ctx
    → AllUsable (init_banks qp banks ctx)
unfolding init_banks
init_banks-AllUsable qp [] ctx all = all
init_banks-AllUsable qp (bank ∷ banks) ctx all =
    init_banks-AllUsable qp banks (init_bank qp bank.0 bank.1 ctx)
      (init_bank-AllUsable qp bank.0 bank.1 ctx all)

-- For every QP and slice type, when all context states are usable before, all are after it.
pub hevc_cabac_reset_contexts-AllUsable :
    (slice_qp : ℤ) (is_p : Bool) (cb : HevcCabac)
    → AllUsable cb.ctx
    → AllUsable (hevc_cabac_reset_contexts slice_qp is_p cb).ctx
unfolding hevc_cabac_reset_contexts
hevc_cabac_reset_contexts-AllUsable slice_qp true cb all =
    let shared = init_banks slice_qp (shared_banks 0) cb.ctx in
    init_banks-AllUsable slice_qp inter_banks shared
      (init_banks-AllUsable slice_qp (shared_banks 0) cb.ctx all)
hevc_cabac_reset_contexts-AllUsable slice_qp false cb all =
    init_banks-AllUsable slice_qp (shared_banks 1) cb.ctx all

init_bank-length :
    (qp : ℤ) (first : ℕ) (values ctx : List ℕ) → length (init_bank qp first values ctx) ≡ length ctx
unfolding init_bank
init_bank-length qp first [] ctx = refl
init_bank-length qp first (v ∷ vs) ctx =
    init_bank-length qp (suc first) vs (set ctx first (hevc_sbac_init_state qp v))
    ∙ length-set ctx first (hevc_sbac_init_state qp v)

init_banks-length :
    (qp : ℤ) (banks : List (ℕ × List ℕ)) (ctx : List ℕ)
    → length (init_banks qp banks ctx) ≡ length ctx
unfolding init_banks
init_banks-length qp [] ctx = refl
init_banks-length qp (bank ∷ banks) ctx =
    init_banks-length qp banks (init_bank qp bank.0 bank.1 ctx)
    ∙ init_bank-length qp bank.0 bank.1 ctx

pub hevc_cabac_reset_contexts-length :
    (slice_qp : ℤ) (is_p : Bool) (cb : HevcCabac)
    → length (hevc_cabac_reset_contexts slice_qp is_p cb).ctx ≡ length cb.ctx
unfolding hevc_cabac_reset_contexts
hevc_cabac_reset_contexts-length slice_qp true cb =
    init_banks-length slice_qp inter_banks (init_banks slice_qp (shared_banks 0) cb.ctx)
    ∙ init_banks-length slice_qp (shared_banks 0) cb.ctx
hevc_cabac_reset_contexts-length slice_qp false cb =
    init_banks-length slice_qp (shared_banks 1) cb.ctx
