-- ===== src/Cabac/Contexts.antt =====
-- `cabac_context_init` of cabac.c: the 276 states that a slice starts with.
use bc250_vulkan_encode_stop.Base.{
  ℕ, zero, suc, ◌<◌, ◌≡◌, refl, ◌∙◌, arith, Bool, true, false, ◌&&◌, List, [], ◌∷◌, map, length,
  length-map, get_or, leb, if◌then◌else◌,
}
use bc250_vulkan_encode_stop.Base.Below.{all_below, all_below-holds, and-right}
use bc250_vulkan_encode_stop.Base.Int.{ℤ, ◌+ℤ◌, ◌*ℤ◌}
use bc250_vulkan_encode_stop.Cabac.{CabacEngine, initial_state, clamp_qp, cabac_context_init}
use bc250_vulkan_encode_stop.Cabac.Initial.{cabac_init_i, cabac_init_pb0}
use bc250_vulkan_encode_stop.Cabac.Exact.{IsState}
use bc250_vulkan_encode_stop.Cabac.Moves.{HasStates}

all_states : List ℕ → Bool
all_states [] = true
all_states (p ∷ ps) = leb 2 p && (leb p 127 && all_states ps)

all_states-IsState :
    (ps : List ℕ) (i : ℕ) → all_states ps ≡ true → i < length ps → IsState (get_or ps i 0)
unfolding all_states IsState
all_states-IsState [] i all h = elim h [ ]
all_states-IsState (p ∷ ps) zero all h = ground (arith, all)
all_states-IsState (p ∷ ps) (suc i) all h =
    all_states-IsState ps i
      (and-right (leb p 127) (all_states ps) (and-right (leb 2 p) (leb p 127 && all_states ps) all))
      (omega arith)

tables_usable :
    (all_below (λ qp. all_states (map (initial_state qp) cabac_init_i)) 52 ≡ true)
    × (all_below (λ qp. all_states (map (initial_state qp) cabac_init_pb0)) 52 ≡ true)
unfolding all_below all_states initial_state cabac_init_i cabac_init_pb0 ◌+ℤ◌ ◌*ℤ◌
tables_usable = (refl, refl)

tables_full : (length cabac_init_i ≡ 276) × (length cabac_init_pb0 ≡ 276)
unfolding cabac_init_i cabac_init_pb0
tables_full = (refl, refl)

clamp_qp-le : (qp : ℤ) → clamp_qp qp < 52
unfolding clamp_qp
clamp_qp-le qp = ground arith

table_states :
    (table : List (ℤ × ℤ)) (qp : ℕ)
    → length table ≡ 276
    → all_states (map (initial_state qp) table) ≡ true
    → HasStates (map (initial_state qp) table)
unfolding HasStates
table_states table qp count usable =
    let counted = length-map table (initial_state qp) ∙ count in
    (
      counted,
      λ i h. all_states-IsState (map (initial_state qp) table) i usable (omega (arith, counted)),
    )

-- For both slice types and every QP, also outside 0..51, cabac_context_init gives 276 states,
-- each in 2..127.
pub cabac_context_init-HasStates :
    (e : CabacEngine) (is_intra_slice : Bool) (qp : ℤ)
    → HasStates (cabac_context_init e is_intra_slice qp).state
unfolding cabac_context_init
cabac_context_init-HasStates e is_intra_slice qp =
    let (intra, inter) = tables_usable in
    let (full_intra, full_inter) = tables_full in
    elim is_intra_slice
      as (λ b.
        HasStates
          (map (initial_state (clamp_qp qp)) (if b then cabac_init_i else cabac_init_pb0))) [
            | true ↦ table_states cabac_init_i (clamp_qp qp) full_intra (
                all_below-holds (λ q. all_states (map (initial_state q) cabac_init_i)) 52
                  (clamp_qp qp) (clamp_qp-le qp) intra)
            | false ↦ table_states cabac_init_pb0 (clamp_qp qp) full_inter (
                all_below-holds (λ q. all_states (map (initial_state q) cabac_init_pb0)) 52
                  (clamp_qp qp) (clamp_qp-le qp) inter)
          ]
