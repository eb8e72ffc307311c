-- ===== src/Hevc/Transform/Bounds.antt =====
-- The sizes of the values in the 4x4 transforms of hevc_intra.c.
use Prim.{Unit, tt}
use bc250_vulkan_encode_stop.Base.{
  ℕ, zero, suc, ◌+◌, ◌*◌, ◌^◌, ◌<◌, ◌≤◌, ◌≡◌, List, [], ◌∷◌, map, Bool, true, false, arith, get_or,
}
use bc250_vulkan_encode_stop.Base.Int.{ℤ, pos, ◌+ℤ◌, +ℤ_parts}
use bc250_vulkan_encode_stop.Base.Shift.{
  shr, ring_laws, Within, shr-Within, Bounded, get_or-Within, map-Bounded,
}
use bc250_vulkan_encode_stop.Hevc.Transform.{
  Kernel, fwd_dct4, fwd_dst4, inv_dct4, inv_dst4, at, four, pick, fwd_body, inv_body, clip_coeff,
  hevc_forward_transform_4x4,
}

-- The results of a kernel are at most `g` times its arguments.
abbrev pub HasGain : ℕ → Kernel → Type 0
HasGain g kernel =
    (m : ℕ) (a b c d : ℤ)
    → Within m a
    → Within m b
    → Within m c
    → Within m d
    → Bounded (g * m) (kernel a b c d)

fwd_dct4-HasGain : HasGain 256 fwd_dct4
unfolding fwd_dct4
fwd_dct4-HasGain m a b c d p q r s = omega ring_laws

fwd_dst4-HasGain : HasGain 256 fwd_dst4
unfolding fwd_dst4
fwd_dst4-HasGain m a b c d p q r s = omega ring_laws

inv_dct4-HasGain : HasGain 247 inv_dct4
unfolding inv_dct4
inv_dct4-HasGain m a b c d p q r s = omega ring_laws

inv_dst4-HasGain : HasGain 247 inv_dst4
unfolding inv_dst4
inv_dst4-HasGain m a b c d p q r s = omega ring_laws

-- A rounding shift by `k` of values up to `c` steps.
pub rounded-Within :
    (k half c b : ℕ) (v : ℤ)
    → Within b v
    → b + half < (c + 1) * 2 ^ k
    → b ≤ c * 2 ^ k + half
    → Within c (shr (v +ℤ pos half) k)
rounded-Within k half c b v h up down =
    shr-Within (v +ℤ pos half) k c (omega (arith, +ℤ_parts v (pos half), h.0, up))
      (omega (arith, +ℤ_parts v (pos half), h.1, down))

pub clip_coeff-Within : (v : ℤ) → Within 32768 (clip_coeff v)
unfolding clip_coeff
clip_coeff-Within v = ground arith

pub clip_coeff-small : (v : ℤ) → Within 32767 v → clip_coeff v ≡ v
unfolding clip_coeff
clip_coeff-small v h = ground arith

clipped :
    (f : ℤ → ℤ) (vs : List ℤ) (i : ℕ)
    → Within 32768 (get_or (map (λ (v : ℤ). clip_coeff (f v)) vs) i (pos 0))
clipped f [] i = (omega arith, omega arith)
clipped f (v ∷ vs) zero = clip_coeff-Within (f v)
clipped f (v ∷ vs) (suc i) = clipped f vs i

stage-Bounded :
    (kernel : Kernel) (gain : HasGain 256 kernel) (half k m c : ℕ) (a b u d : ℤ)
    → 256 * m + half < (c + 1) * 2 ^ k
    → 256 * m ≤ c * 2 ^ k + half
    → Within m a
    → Within m b
    → Within m u
    → Within m d
    → Bounded c (map (λ (y : ℤ). shr (y +ℤ pos half) k) (kernel a b u d))
stage-Bounded kernel gain half k m c a b u d up down p q r s =
    map-Bounded (256 * m) c (λ (y : ℤ). shr (y +ℤ pos half) k) (kernel a b u d)
      (gain m a b u d p q r s) (λ v h. rounded-Within k half c (256 * m) v h up down)

abbrev pub RowsBounded : ℕ → List (List ℤ) → Type 0
RowsBounded b [] = Unit {0}
RowsBounded b (row ∷ rows) = Bounded b row × RowsBounded b rows

fwd_body-Bounded :
    (kernel : Kernel)
    → HasGain 256 kernel
    → (residual : List ℤ) → Bounded 32768 residual
    → RowsBounded 4194304 (fwd_body kernel residual)
unfolding fwd_body
fwd_body-Bounded kernel gain residual h =
    let t = four (λ c.
      map (λ (y : ℤ). shr (y +ℤ pos 1) 1)
        (kernel (at residual c) (at residual (4 + c)) (at residual (8 + c))
          (at residual (12 + c)))) in
    let first : (c : ℕ)
        → Bounded 4194304 (
            map (λ (y : ℤ). shr (y +ℤ pos 1) 1)
              (kernel (at residual c) (at residual (4 + c)) (at residual (8 + c))
                (at residual (12 + c)))) =
      λ c.
        stage-Bounded kernel gain 1 1 32768 4194304 (at residual c) (at residual (4 + c))
          (at residual (8 + c)) (at residual (12 + c)) (omega arith) (omega arith)
          (get_or-Within 32768 residual c h) (get_or-Within 32768 residual (4 + c) h)
          (get_or-Within 32768 residual (8 + c) h) (get_or-Within 32768 residual (12 + c) h) in
    let second : (i : ℕ)
        → Bounded 4194304 (
            map (λ (y : ℤ). shr (y +ℤ pos 128) 8)
              (kernel (pick t 0 i) (pick t 1 i) (pick t 2 i) (pick t 3 i))) =
      λ i.
        stage-Bounded kernel gain 128 8 4194304 4194304 (pick t 0 i) (pick t 1 i) (pick t 2 i)
          (pick t 3 i) (omega arith) (omega arith)
          (get_or-Within 4194304 (get_or t 0 []) i (first 0))
          (get_or-Within 4194304 (get_or t 1 []) i (first 1))
          (get_or-Within 4194304 (get_or t 2 []) i (first 2))
          (get_or-Within 4194304 (get_or t 3 []) i (first 3)) in
    (second 0, (second 1, (second 2, (second 3, tt))))

inv_body-Bounded :
    (kernel : Kernel)
    → HasGain 247 kernel
    → (load : ℕ → ℤ) → RowsBounded 1976 (inv_body kernel load)
unfolding inv_body
inv_body-Bounded kernel gain load =
    let y = λ (c : ℕ). kernel (load c) (load (4 + c)) (load (8 + c)) (load (12 + c)) in
    let t = four (λ c. map (λ (v : ℤ). clip_coeff (shr (v +ℤ pos 64) 7)) (y c)) in
    let first : (c i : ℕ)
        → Within 32768
            (get_or (map (λ (v : ℤ). clip_coeff (shr (v +ℤ pos 64) 7)) (y c)) i (pos 0)) =
      λ c i. clipped (λ (v : ℤ). shr (v +ℤ pos 64) 7) (y c) i in
    let second : (r : ℕ)
        → Bounded 1976 (
            map (λ (v : ℤ). shr (v +ℤ pos 2048) 12)
              (kernel (pick t 0 r) (pick t 1 r) (pick t 2 r) (pick t 3 r))) =
      λ r.
        map-Bounded 8093696 1976 (λ (v : ℤ). shr (v +ℤ pos 2048) 12)
          (kernel (pick t 0 r) (pick t 1 r) (pick t 2 r) (pick t 3 r))
          (gain 32768 (pick t 0 r) (pick t 1 r) (pick t 2 r) (pick t 3 r) (first 0 r) (first 1 r)
            (first 2 r) (first 3 r))
          (λ v h. rounded-Within 12 2048 1976 8093696 v h (omega arith) (omega arith)) in
    (second 0, (second 1, (second 2, (second 3, tt))))

-- The results of an inverse transform fit in 12 bits, whatever the coefficients are.
pub inv_dct4-Bounded : (load : ℕ → ℤ) → RowsBounded 1976 (inv_body inv_dct4 load)
inv_dct4-Bounded = inv_body-Bounded inv_dct4 inv_dct4-HasGain

pub inv_dst4-Bounded : (load : ℕ → ℤ) → RowsBounded 1976 (inv_body inv_dst4 load)
inv_dst4-Bounded = inv_body-Bounded inv_dst4 inv_dst4-HasGain

pub hevc_forward_transform_4x4-Bounded :
    (residual : List ℤ) (use_dst : Bool)
    → Bounded 32768 residual
    → RowsBounded 4194304 (hevc_forward_transform_4x4 residual use_dst)
unfolding hevc_forward_transform_4x4
hevc_forward_transform_4x4-Bounded residual true h =
    fwd_body-Bounded fwd_dst4 fwd_dst4-HasGain residual h
hevc_forward_transform_4x4-Bounded residual false h =
    fwd_body-Bounded fwd_dct4 fwd_dct4-HasGain residual h
