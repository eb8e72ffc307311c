-- ===== src/Hevc/Transform.antt =====
-- The 4x4 transforms of hevc_intra.c: the butterflies that the encoder runs and the matrix products
-- that they replace.
pub mod Butterflies
pub mod Bounds
use bc250_vulkan_encode_stop.Base.{
  ℕ, zero, suc, ◌+◌, ◌*◌, List, [], ◌∷◌, map, Bool, if◌then◌else◌, get_or,
}
use bc250_vulkan_encode_stop.Base.Int.{ℤ, pos, negsuc, ◌+ℤ◌, ◌-ℤ◌, ◌*ℤ◌, ltb_ℤ}
use bc250_vulkan_encode_stop.Base.Shift.{shr}
use bc250_vulkan_encode_stop.Base.Loops.{sum_to}

unfoldable pub dct4 : List (List ℤ)
dct4 =
    (pos 64 ∷ pos 64 ∷ pos 64 ∷ pos 64 ∷ [])
    ∷ (pos 83 ∷ pos 36 ∷ negsuc 35 ∷ negsuc 82 ∷ [])
    ∷ (pos 64 ∷ negsuc 63 ∷ negsuc 63 ∷ pos 64 ∷ [])
    ∷ (pos 36 ∷ negsuc 82 ∷ pos 83 ∷ negsuc 35 ∷ [])
    ∷ []

unfoldable pub dst4 : List (List ℤ)
dst4 =
    (pos 29 ∷ pos 55 ∷ pos 74 ∷ pos 84 ∷ [])
    ∷ (pos 74 ∷ pos 74 ∷ pos 0 ∷ negsuc 73 ∷ [])
    ∷ (pos 84 ∷ negsuc 28 ∷ negsuc 73 ∷ pos 55 ∷ [])
    ∷ (pos 55 ∷ negsuc 83 ∷ pos 74 ∷ negsuc 28 ∷ [])
    ∷ []

unfoldable pub clip_coeff : ℤ → ℤ
clip_coeff v =
    if ltb_ℤ (pos 32767) v then pos 32767 else if ltb_ℤ v (negsuc 32767) then negsuc 32767 else v

-- A kernel takes four values to four.
abbrev pub Kernel : Type 0
Kernel = ℤ → ℤ → ℤ → ℤ → List ℤ

unfoldable pub fwd_dct4 : Kernel
fwd_dct4 i0 i1 i2 i3 =
    let s03 = i0 +ℤ i3 in
    let s12 = i1 +ℤ i2 in
    let d03 = i0 -ℤ i3 in
    let d12 = i1 -ℤ i2 in
    (pos 64 *ℤ (s03 +ℤ s12))
    ∷ (pos 83 *ℤ d03 +ℤ pos 36 *ℤ d12)
    ∷ (pos 64 *ℤ (s03 -ℤ s12))
    ∷ (pos 36 *ℤ d03 -ℤ pos 83 *ℤ d12)
    ∷ []

unfoldable pub fwd_dst4 : Kernel
fwd_dst4 i0 i1 i2 i3 =
    let c0 = i0 +ℤ i3 in
    let c1 = i1 +ℤ i3 in
    let c2 = i0 -ℤ i1 in
    let c3 = pos 74 *ℤ i2 in
    (pos 29 *ℤ c0 +ℤ pos 55 *ℤ c1 +ℤ c3)
    ∷ (pos 74 *ℤ (i0 +ℤ i1 -ℤ i3))
    ∷ (pos 29 *ℤ c2 +ℤ pos 55 *ℤ c0 -ℤ c3)
    ∷ (pos 55 *ℤ c2 -ℤ pos 29 *ℤ c1 +ℤ c3)
    ∷ []

unfoldable pub inv_dct4 : Kernel
inv_dct4 i0 i1 i2 i3 =
    let e0 = pos 64 *ℤ (i0 +ℤ i2) in
    let e1 = pos 64 *ℤ (i0 -ℤ i2) in
    let o0 = pos 83 *ℤ i1 +ℤ pos 36 *ℤ i3 in
    let o1 = pos 36 *ℤ i1 -ℤ pos 83 *ℤ i3 in (e0 +ℤ o0) ∷ (e1 +ℤ o1) ∷ (e1 -ℤ o1) ∷ (e0 -ℤ o0) ∷ []

unfoldable pub inv_dst4 : Kernel
inv_dst4 i0 i1 i2 i3 =
    let c0 = i0 +ℤ i2 in
    let c1 = i2 +ℤ i3 in
    let c2 = i0 -ℤ i3 in
    let c3 = pos 74 *ℤ i1 in
    (pos 29 *ℤ c0 +ℤ pos 55 *ℤ c1 +ℤ c3)
    ∷ (pos 55 *ℤ c2 -ℤ pos 29 *ℤ c1 +ℤ c3)
    ∷ (pos 74 *ℤ (i0 -ℤ i2 +ℤ i3))
    ∷ (pos 55 *ℤ c0 +ℤ pos 29 *ℤ c2 -ℤ c3)
    ∷ []

-- The values of a block are listed row by row.
unfoldable pub at : List ℤ → ℕ → ℤ
at block i = get_or block i (pos 0)

-- A loop of four rounds whose bodies fill four values each.
unfoldable pub four : (ℕ → List ℤ) → List (List ℤ)
four f = f 0 ∷ f 1 ∷ f 2 ∷ f 3 ∷ []

-- The value `i` of the list `c` of four, as `t[4 * i + c]` where the lists are columns.
unfoldable pub pick : List (List ℤ) → ℕ → ℕ → ℤ
pick lists c i = get_or (get_or lists c []) i (pos 0)

-- `FWD_BODY`: the first stage leaves columns of `t`, the second rows of `out`.
unfoldable pub fwd_body : Kernel → List ℤ → List (List ℤ)
unfolding at four pick
fwd_body kernel residual =
    let t = four (λ c.
      map (λ (y : ℤ). shr (y +ℤ pos 1) 1)
        (kernel (at residual c) (at residual (4 + c)) (at residual (8 + c))
          (at residual (12 + c)))) in
    four (λ i.
      map (λ (y : ℤ). shr (y +ℤ pos 128) 8)
        (kernel (pick t 0 i) (pick t 1 i) (pick t 2 i) (pick t 3 i)))

-- `INV_BODY` with the loading of a coefficient.
unfoldable pub inv_body : Kernel → (ℕ → ℤ) → List (List ℤ)
unfolding four pick
inv_body kernel load =
    let t = four (λ c.
      map (λ (y : ℤ). clip_coeff (shr (y +ℤ pos 64) 7))
        (kernel (load c) (load (4 + c)) (load (8 + c)) (load (12 + c)))) in
    four (λ r.
      map (λ (y : ℤ). shr (y +ℤ pos 2048) 12)
        (kernel (pick t 0 r) (pick t 1 r) (pick t 2 r) (pick t 3 r)))

-- The rows of `out`.
unfoldable pub hevc_forward_transform_4x4 : List ℤ → Bool → List (List ℤ)
unfolding fwd_body fwd_dct4 fwd_dst4
hevc_forward_transform_4x4 residual use_dst =
    if use_dst then fwd_body fwd_dst4 residual else fwd_body fwd_dct4 residual

unfoldable pub hevc_inverse_transform_4x4 : List ℤ → Bool → List (List ℤ)
unfolding inv_body inv_dct4 inv_dst4 at
hevc_inverse_transform_4x4 coeff use_dst =
    if use_dst then inv_body inv_dst4 (at coeff) else inv_body inv_dct4 (at coeff)

unfoldable pub matrix_of : Bool → ℕ → ℕ → ℤ
unfolding pick dct4 dst4
matrix_of use_dst i r = if use_dst then pick dst4 i r else pick dct4 i r

-- The sums of the first stage with their rounding, `tmp[i][c]`.
unfoldable pub fwd_stage_ref : (ℕ → ℕ → ℤ) → List ℤ → ℕ → ℕ → ℤ
unfolding sum_to at
fwd_stage_ref m residual i c = shr (sum_to 4 (λ r. m i r *ℤ at residual (r * 4 + c)) +ℤ pos 1) 1

unfoldable pub hevc_forward_transform_4x4_ref : List ℤ → Bool → List (List ℤ)
unfolding four sum_to matrix_of fwd_stage_ref
hevc_forward_transform_4x4_ref residual use_dst = four (λ i.
    map
      (λ (j : ℕ).
        shr
          (sum_to 4 (λ c. matrix_of use_dst j c *ℤ fwd_stage_ref (matrix_of use_dst) residual i c)
            +ℤ pos 128)
          8)
      (0 ∷ 1 ∷ 2 ∷ 3 ∷ []))

unfoldable pub inv_stage_ref : (ℕ → ℕ → ℤ) → List ℤ → ℕ → ℕ → ℤ
unfolding sum_to at clip_coeff
inv_stage_ref m coeff r c =
    clip_coeff (shr (sum_to 4 (λ k. m k r *ℤ at coeff (k * 4 + c)) +ℤ pos 64) 7)

unfoldable pub hevc_inverse_transform_4x4_ref : List ℤ → Bool → List (List ℤ)
unfolding four sum_to matrix_of inv_stage_ref clip_coeff
hevc_inverse_transform_4x4_ref coeff use_dst = four (λ r.
    map
      (λ (c : ℕ). clip_coeff (
        shr
          (sum_to 4 (λ k. matrix_of use_dst k c *ℤ inv_stage_ref (matrix_of use_dst) coeff r k)
            +ℤ pos 2048)
          12))
      (0 ∷ 1 ∷ 2 ∷ 3 ∷ []))
