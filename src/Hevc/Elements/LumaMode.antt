-- ===== src/Hevc/Elements/LumaMode.antt =====
-- A luma mode through the bins of hevc_cabac.c and back.
use Prim.Native.Nat.{◌-◌}
use bc250_vulkan_encode_stop.Base.{
  ℕ, ◌+◌, ◌*◌, ◌^◌, ◌<◌, ◌≡◌, ◌≢◌, refl, ap, ◌∙◌, arith, Bool, true, false, List, [], ◌∷◌, ◌++◌,
  map, Option, none, some, if◌then◌else◌, leb, ◌==◌, get_or, ◌>>=◌, Bool-cases, inl, inr,
  ==-differs, ==_iff, sym,
}
use bc250_vulkan_encode_stop.Bits.{bits_of, read_bits, read_bits-bits_of}
use bc250_vulkan_encode_stop.Cabac.Exact.{Bin, bypass}
use bc250_vulkan_encode_stop.Cabac.Decoder.{bit_of}
use bc250_vulkan_encode_stop.Hevc.Modes.{hevc_derive_mpm}
use bc250_vulkan_encode_stop.Hevc.Modes.Probable.{AreProbable, hevc_derive_mpm-AreProbable}
use bc250_vulkan_encode_stop.Hevc.Elements.{
  listing, sorted3, remaining_mode, code_intra_luma_flag, code_intra_luma_data,
}

-- H.265 8.4.2: the mode that a remaining mode stands for, one higher for every probable mode, in
-- ascending order, that it reaches.
unfoldable pub passed : ℕ → ℕ → ℕ
passed bound mode = if leb bound mode then mode + 1 else mode

smallest : ℕ → ℕ → ℕ
smallest a b = if leb a b then a else b

largest : ℕ → ℕ → ℕ
largest a b = if leb a b then b else a

unfoldable pub restored_mode : ℕ → ℕ → ℕ → ℕ → ℕ
unfolding passed smallest largest
restored_mode rem a b c =
    let low = smallest a (smallest b c) in
    let high = largest a (largest b c) in
    passed high (passed (a + b + c - low - high) (passed low rem))

-- 7.3.8.5: the flag, then mpm_idx as truncated unary, or the remaining mode in five bits.
unfoldable pub read_luma_mode : List ℕ → List Bool → Option (ℕ × List Bool)
read_luma_mode mpm (true ∷ false ∷ rest) = some (get_or mpm 0 0, rest)
read_luma_mode mpm (true ∷ true ∷ false ∷ rest) = some (get_or mpm 1 0, rest)
read_luma_mode mpm (true ∷ true ∷ true ∷ rest) = some (get_or mpm 2 0, rest)
read_luma_mode mpm (false ∷ rest) = read_bits 5 0 rest >>= λ r.
    some (restored_mode r.0 (get_or mpm 0 0) (get_or mpm 1 0) (get_or mpm 2 0), r.1)
read_luma_mode mpm other = none

-- The three exchanges sort.
sorted3-smallest : (a b c : ℕ) → (sorted3 a b c).0 ≡ smallest a (smallest b c)
unfolding sorted3 smallest
sorted3-smallest a b c = ground arith

sorted3-middle :
    (a b c : ℕ)
    → (sorted3 a b c).1 ≡ a + b + c - smallest a (smallest b c) - largest a (largest b c)
unfolding sorted3 smallest largest
sorted3-middle a b c = ground arith

sorted3-largest : (a b c : ℕ) → (sorted3 a b c).2 ≡ largest a (largest b c)
unfolding sorted3 largest
sorted3-largest a b c = ground arith

-- The remaining mode fits five bits, and stands for the mode, when the list is in the order of the
-- exchanges.
in_order :
    (mode a b c : ℕ)
    → mode < 35
    → AreProbable (a ∷ b ∷ c ∷ [])
    → mode ≢ a
    → mode ≢ b
    → mode ≢ c
    → (remaining_mode mode a b c < 32)
      × (passed
            (sorted3 a b c).2
            (passed (sorted3 a b c).1 (passed (sorted3 a b c).0 (remaining_mode mode a b c)))
          ≡ mode)
unfolding remaining_mode passed AreProbable
in_order mode a b c h p na nb nc = ground arith

restored_mode-remaining_mode :
    (mode a b c : ℕ)
    → mode < 35
    → AreProbable (a ∷ b ∷ c ∷ [])
    → mode ≢ a
    → mode ≢ b
    → mode ≢ c
    → (remaining_mode mode a b c < 32) × (restored_mode (remaining_mode mode a b c) a b c ≡ mode)
unfolding restored_mode
restored_mode-remaining_mode mode a b c h p na nb nc =
    let (fits, same) = in_order mode a b c h p na nb nc in
    let rem = remaining_mode mode a b c in
    let orders : passed (sorted3 a b c).2 (passed (sorted3 a b c).1 (passed (sorted3 a b c).0 rem))
        ≡ restored_mode rem a b c =
      λ i.
        passed (sorted3-largest a b c i)
          (passed (sorted3-middle a b c i) (passed (sorted3-smallest a b c i) rem)) in
    (fits, sym orders ∙ same)

-- The bins of one prediction unit.
unfoldable pub luma_mode_bins : ℕ → List ℕ → List Bin
unfolding code_intra_luma_flag code_intra_luma_data
luma_mode_bins mode mpm =
    let (after, pred_idx) = code_intra_luma_flag listing mode mpm [] in
    code_intra_luma_data listing mode pred_idx mpm after

pub map-bypass : (bits rest : List Bool) → map bit_of (map bypass bits) ++ rest ≡ bits ++ rest
unfolding bit_of
map-bypass [] rest = refl
map-bypass (b ∷ bits) rest = ap (λ l. b ∷ l) (map-bypass bits rest)

read_remaining :
    (mode a b c : ℕ) (rest : List Bool)
    → mode < 35
    → AreProbable (a ∷ b ∷ c ∷ [])
    → mode ≢ a
    → mode ≢ b
    → mode ≢ c
    → read_luma_mode
        (a ∷ b ∷ c ∷ [])
        (false ∷ (map bit_of (map bypass (bits_of 5 (remaining_mode mode a b c))) ++ rest))
      ≡ some (mode, rest)
unfolding read_luma_mode
read_remaining mode a b c rest h p na nb nc =
    let rem = remaining_mode mode a b c in
    let (fits, same) = restored_mode-remaining_mode mode a b c h p na nb nc in
    let plain : 0 * 2 ^ 5 + rem ≡ rem = omega arith in
    rw (map-bypass (bits_of 5 rem) rest, read_bits-bits_of 5 0 rem rest fits)
      (ap (λ (t : ℕ). some (restored_mode t a b c, rest)) plain
        ∙ ap (λ (t : ℕ). some (t, rest)) same)

read_listed :
    (mode a b c : ℕ) (rest : List Bool)
    → mode < 35
    → AreProbable (a ∷ b ∷ c ∷ [])
    → read_luma_mode (a ∷ b ∷ c ∷ []) (map bit_of (luma_mode_bins mode (a ∷ b ∷ c ∷ [])) ++ rest)
      ≡ some (mode, rest)
unfolding luma_mode_bins bit_of read_luma_mode bits_of
read_listed mode a b c rest h p =
    let at : (v : ℕ)
        → (mode == v) ≡ true
        → ◌≡◌ {A = Option (ℕ × List Bool)} (some (v, rest)) (some (mode, rest)) =
      λ v e. ap (λ (t : ℕ). some (t, rest)) (sym ((==_iff mode v).0 e)) in
    elim (Bool-cases (mode == a)) [
      | inl first ↦ rw first (at a first)
      | inr not_first ↦ rw not_first (elim (Bool-cases (mode == b)) [
        | inl second ↦ rw second (at b second)
        | inr not_second ↦ rw not_second (elim (Bool-cases (mode == c)) [
          | inl third ↦ rw third (at c third)
          | inr other ↦ rw other (
              read_remaining mode a b c rest h p (==-differs mode a not_first)
                (==-differs mode b not_second) (==-differs mode c other))
        ])
      ])
    ]

read_any :
    (mode : ℕ) (mpm : List ℕ) (rest : List Bool)
    → mode < 35
    → AreProbable mpm
    → read_luma_mode mpm (map bit_of (luma_mode_bins mode mpm) ++ rest) ≡ some (mode, rest)
unfolding AreProbable
read_any mode [] rest h p = elim p [ ]
read_any mode (a ∷ []) rest h p = elim p [ ]
read_any mode (a ∷ b ∷ []) rest h p = elim p [ ]
read_any mode (a ∷ b ∷ c ∷ []) rest h p = read_listed mode a b c rest h p
read_any mode (a ∷ b ∷ c ∷ d ∷ mpm) rest h p = elim p [ ]

-- For every luma mode and neighbouring modes below 35, there or not, the syntax of the standard
-- reads the mode back, with the probable modes that hevc_derive_mpm derives, from the bins of its
-- flag and its data, whatever follows.
pub read_luma_mode-luma_mode_bins :
    (mode left_mode above_mode : ℕ) (left_avail above_avail : Bool) (rest : List Bool)
    → mode < 35
    → left_mode < 35
    → above_mode < 35
    → read_luma_mode (hevc_derive_mpm left_mode left_avail above_mode above_avail) (
        map bit_of
          (luma_mode_bins mode (hevc_derive_mpm left_mode left_avail above_mode above_avail))
        ++ rest)
      ≡ some (mode, rest)
read_luma_mode-luma_mode_bins mode left_mode above_mode left_avail above_avail rest h hl ha =
    read_any mode (hevc_derive_mpm left_mode left_avail above_mode above_avail) rest h
      (hevc_derive_mpm-AreProbable left_mode above_mode left_avail above_avail hl ha)
