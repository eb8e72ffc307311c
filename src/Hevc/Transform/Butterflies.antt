-- ===== src/Hevc/Transform/Butterflies.antt =====
-- The butterflies of hevc_intra.c against the matrix products that they replace.
use mathlib.Core.Path.{fun_ext}
use bc250_vulkan_encode_stop.Base.{
  ℕ, ◌≡◌, refl, sym, ◌∙◌, List, [], ◌∷◌, map, Bool, true, false, get_or, arith, ap, ◌≤◌,
}
use bc250_vulkan_encode_stop.Base.Int.{ℤ, pos, ◌*ℤ◌}
use bc250_vulkan_encode_stop.Base.Shift.{ring_laws, Bounded}
use bc250_vulkan_encode_stop.Base.Loops.{sum_to}
use bc250_vulkan_encode_stop.Hevc.Transform.Bounds.{
  RowsBounded, clip_coeff-small, inv_dct4-Bounded, inv_dst4-Bounded,
}
use bc250_vulkan_encode_stop.Hevc.Transform.{
  Kernel, fwd_dct4, fwd_dst4, inv_dct4, inv_dst4, at, fwd_body, inv_body, matrix_of,
  hevc_forward_transform_4x4, hevc_forward_transform_4x4_ref, hevc_inverse_transform_4x4,
  hevc_inverse_transform_4x4_ref, clip_coeff,
}

-- The four values of a list, as a function of their place.
abbrev quad : ℤ → ℤ → ℤ → ℤ → ℕ → ℤ
quad a b c d k = get_or (a ∷ b ∷ c ∷ d ∷ []) k (pos 0)

-- The products of the rows of a matrix with a vector.
row_products : (ℕ → ℕ → ℤ) → Kernel
unfolding sum_to
row_products m a b c d =
    map (λ (i : ℕ). sum_to 4 (λ k. m i k *ℤ quad a b c d k)) (0 ∷ 1 ∷ 2 ∷ 3 ∷ [])

list_of_four :
    {a b c d a' b' c' d' : ℤ}
    → a ≡ a'
    → b ≡ b'
    → c ≡ c'
    → d ≡ d'
    → ◌≡◌ {A = List ℤ} (a ∷ b ∷ c ∷ d ∷ []) (a' ∷ b' ∷ c' ∷ d' ∷ [])
list_of_four p q r s = λ i. p i ∷ q i ∷ r i ∷ s i ∷ []

-- Two kernels that agree on all values are one.
same_kernel : {f g : Kernel} → ((a b c d : ℤ) → f a b c d ≡ g a b c d) → f ≡ g
same_kernel h = fun_ext λ a. fun_ext λ b. fun_ext λ c. fun_ext λ d. h a b c d

fwd_dct4-products : fwd_dct4 ≡ row_products (matrix_of false)
unfolding fwd_dct4 row_products matrix_of
fwd_dct4-products =
    same_kernel λ a b c d.
      list_of_four (omega ring_laws) (omega ring_laws) (omega ring_laws) (omega ring_laws)

fwd_dst4-products : fwd_dst4 ≡ row_products (matrix_of true)
unfolding fwd_dst4 row_products matrix_of
fwd_dst4-products =
    same_kernel λ a b c d.
      list_of_four (omega ring_laws) (omega ring_laws) (omega ring_laws) (omega ring_laws)

inv_dct4-products : inv_dct4 ≡ row_products (λ i k. matrix_of false k i)
unfolding inv_dct4 row_products matrix_of
inv_dct4-products =
    same_kernel λ a b c d.
      list_of_four (omega ring_laws) (omega ring_laws) (omega ring_laws) (omega ring_laws)

inv_dst4-products : inv_dst4 ≡ row_products (λ i k. matrix_of true k i)
unfolding inv_dst4 row_products matrix_of
inv_dst4-products =
    same_kernel λ a b c d.
      list_of_four (omega ring_laws) (omega ring_laws) (omega ring_laws) (omega ring_laws)

fwd_body-products :
    (residual : List ℤ) (use_dst : Bool)
    → fwd_body (row_products (matrix_of use_dst)) residual
      ≡ hevc_forward_transform_4x4_ref residual use_dst
unfolding fwd_body row_products hevc_forward_transform_4x4_ref
fwd_body-products residual use_dst = refl

-- The forward butterflies give the matrix products.
pub hevc_forward_transform_4x4-ref :
    (residual : List ℤ) (use_dst : Bool)
    → hevc_forward_transform_4x4 residual use_dst ≡ hevc_forward_transform_4x4_ref residual use_dst
unfolding hevc_forward_transform_4x4
hevc_forward_transform_4x4-ref residual true =
    ap (λ k. fwd_body k residual) fwd_dst4-products ∙ fwd_body-products residual true
hevc_forward_transform_4x4-ref residual false =
    ap (λ k. fwd_body k residual) fwd_dct4-products ∙ fwd_body-products residual false

clip_row : (b : ℕ) (vs : List ℤ) → b ≤ 32767 → Bounded b vs → map clip_coeff vs ≡ vs
clip_row b [] h small = refl
clip_row b (v ∷ vs) h small =
    let same = clip_coeff-small v (omega (arith, small.0)) in
    λ i. same i ∷ clip_row b vs h small.1 i

clip_rows :
    (b : ℕ) (rows : List (List ℤ))
    → b ≤ 32767
    → RowsBounded b rows
    → map (map clip_coeff) rows ≡ rows
clip_rows b [] h small = refl
clip_rows b (row ∷ rows) h small = λ i. clip_row b row h small.0 i ∷ clip_rows b rows h small.1 i

-- The reference clips once more.
inv_body-products :
    (coeff : List ℤ) (use_dst : Bool)
    → map (map clip_coeff) (inv_body (row_products (λ i k. matrix_of use_dst k i)) (at coeff))
      ≡ hevc_inverse_transform_4x4_ref coeff use_dst
unfolding inv_body row_products hevc_inverse_transform_4x4_ref
inv_body-products coeff use_dst = refl

-- The inverse butterflies give the matrix products, of which the second clip changes nothing.
pub hevc_inverse_transform_4x4-ref :
    (coeff : List ℤ) (use_dst : Bool)
    → hevc_inverse_transform_4x4 coeff use_dst ≡ hevc_inverse_transform_4x4_ref coeff use_dst
unfolding hevc_inverse_transform_4x4
hevc_inverse_transform_4x4-ref coeff true =
    sym (clip_rows 1976 (inv_body inv_dst4 (at coeff)) (omega arith) (inv_dst4-Bounded (at coeff)))
    ∙ ap (λ k. map (map clip_coeff) (inv_body k (at coeff))) inv_dst4-products
    ∙ inv_body-products coeff true
hevc_inverse_transform_4x4-ref coeff false =
    sym (clip_rows 1976 (inv_body inv_dct4 (at coeff)) (omega arith) (inv_dct4-Bounded (at coeff)))
    ∙ ap (λ k. map (map clip_coeff) (inv_body k (at coeff))) inv_dct4-products
    ∙ inv_body-products coeff false
