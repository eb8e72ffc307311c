-- ===== src/Cavlc/Reader.antt =====
-- A reader of P16x16 macroblock headers after H.264, 7.3.5 and 9.1.2, for the writer of cavlc.c.
use bc250_vulkan_encode_stop.Base.{
  ℕ, zero, suc, ◌+◌, ◌<◌, ◌≡◌, refl, Bool, true, false, List, [], ◌∷◌, ap, ◌++◌, Option, none, some,
  arith, ltb, ◌==◌, if◌then◌else◌, append_assoc,
}
use bc250_vulkan_encode_stop.Base.Int.{ℤ, pos}
use bc250_vulkan_encode_stop.Bitstream.Writes.{Writes}
use bc250_vulkan_encode_stop.Bitstream.Golomb.{ue_code, read_ue, read_ue-ue_code}
use bc250_vulkan_encode_stop.Bitstream.Signed.{se_code, read_se, IsSeValue, read_se-se_code}
use bc250_vulkan_encode_stop.Cavlc.{map_inter_cbp, cavlc_write_mb_p16x16_header}
use bc250_vulkan_encode_stop.Cavlc.Header.{
  map_inter_cbp-inverse, p16x16_code, cavlc_write_mb_p16x16_header-Writes,
}
use bc250_vulkan_encode_stop.Cavlc.Tables.{cbp_inter_table}
use bc250_vulkan_encode_stop.Base.Below.{all_below, all_below-holds}

-- The code numbers of the patterns 0..47 of an inter macroblock, from the columns of Table 9-4 for
-- a ChromaArrayType of 1 or 2.
inter_code_nums : List ℕ
inter_code_nums =
    0 ∷ 2 ∷ 3 ∷ 7 ∷ 4 ∷ 8 ∷ 17 ∷ 13 ∷ 5 ∷ 18 ∷ 9 ∷ 14 ∷ 10 ∷ 15 ∷ 16 ∷ 11 ∷ 1 ∷ 32 ∷ 33 ∷ 36 ∷ 34
    ∷ 37 ∷ 44 ∷ 40 ∷ 35 ∷ 45 ∷ 38 ∷ 41 ∷ 39 ∷ 42 ∷ 43 ∷ 19 ∷ 6 ∷ 24 ∷ 25 ∷ 20 ∷ 26 ∷ 21 ∷ 46 ∷ 28
    ∷ 27 ∷ 47 ∷ 22 ∷ 29 ∷ 23 ∷ 30 ∷ 31 ∷ 12 ∷ []

-- The first pattern from `cbp` on that has a code number.
pattern_from : List ℕ → ℕ → ℕ → Option ℕ
pattern_from [] cbp code = none
pattern_from (c ∷ cs) cbp code =
    let later = pattern_from cs (cbp + 1) code in if c == code then some cbp else later

same_pattern : Option ℕ → ℕ → Bool
same_pattern none cbp = false
same_pattern (some found) cbp = found == cbp

same_pattern-some : (o : Option ℕ) (cbp : ℕ) → same_pattern o cbp ≡ true → o ≡ some cbp
unfolding same_pattern
same_pattern-some none cbp h = ground (arith, h)
same_pattern-some (some found) cbp h = ap some (ground (arith, h))

patterns_tested :
    all_below (λ cbp. same_pattern (pattern_from inter_code_nums 0 (map_inter_cbp cbp)) cbp) 48
    ≡ true
unfolding all_below same_pattern pattern_from inter_code_nums map_inter_cbp cbp_inter_table
patterns_tested = refl

-- The code number of map_inter_cbp is the one of the table for each pattern.
pattern_from-map_inter_cbp :
    (cbp : ℕ) → cbp < 48 → pattern_from inter_code_nums 0 (map_inter_cbp cbp) ≡ some cbp
pattern_from-map_inter_cbp cbp h =
    same_pattern-some (pattern_from inter_code_nums 0 (map_inter_cbp cbp)) cbp (
      all_below-holds (λ c. same_pattern (pattern_from inter_code_nums 0 (map_inter_cbp c)) c) 48
        cbp h patterns_tested)

-- What follows the pattern: mb_qp_delta unless it is 0.
read_delta : Option ℕ → List Bool → Option (ℕ × ℤ × List Bool)
read_delta none bits = none
read_delta (some zero) bits = some (0, pos 0, bits)
read_delta (some (suc n)) bits = elim (read_se bits) [
  | none ↦ none
  | some (delta, after) ↦ some (suc n, delta, after)
]

-- The reader of the residual's part: the code number of the pattern, and mb_qp_delta.
read_pattern : List Bool → Option (ℕ × ℤ × List Bool)
unfolding read_delta
read_pattern bits = elim (read_ue bits) [
  | none ↦ none
  | some (code, rest) ↦ read_delta (pattern_from inter_code_nums 0 code) rest
]

read_vector : List Bool → Option (ℤ × ℤ × List Bool)
read_vector bits = elim (read_se bits) [
  | none ↦ none
  | some (x, rest) ↦ elim (read_se rest) [ none ↦ none | some (y, after) ↦ some (x, y, after) ]
]

-- A P macroblock of mb_type 0 (P_L0_16x16): mvd_l0, coded_block_pattern and mb_qp_delta.
pub read_p16x16 : List Bool → Option (ℤ × ℤ × ℕ × ℤ × List Bool)
unfolding read_pattern read_vector
read_p16x16 bits = elim (read_ue bits) [
  | none ↦ none
  | some (suc mb_type, rest) ↦ none
  | some (zero, rest) ↦ elim (read_vector rest) [
    | none ↦ none
    | some (x, y, after) ↦ elim (read_pattern after) [
      | none ↦ none
      | some (cbp, delta, end) ↦ some (x, y, cbp, delta, end)
    ]
  ]
]

read_vector-se_code :
    (x y : ℤ) (rest : List Bool)
    → IsSeValue x
    → IsSeValue y
    → read_vector (se_code x ++ (se_code y ++ rest)) ≡ some (x, y, rest)
unfolding read_vector
read_vector-se_code x y rest hx hy =
    rw (read_se-se_code x (se_code y ++ rest) hx, read_se-se_code y rest hy, read_vector) refl

read_pattern-code :
    (cbp : ℕ) (qp_delta : ℤ) (rest : List Bool)
    → cbp < 48
    → IsSeValue qp_delta
    → read_pattern
        (ue_code (map_inter_cbp cbp) ++ ((if ltb 0 cbp then se_code qp_delta else []) ++ rest))
      ≡ some (cbp, (if ltb 0 cbp then qp_delta else pos 0), rest)
unfolding read_pattern read_delta
read_pattern-code zero qp_delta rest hc hq =
    let small = (map_inter_cbp-inverse 0 hc).0 in
    let same = pattern_from-map_inter_cbp 0 hc in
    rw (read_ue-ue_code (map_inter_cbp 0) rest (omega arith), read_pattern) (rw same refl)
read_pattern-code (suc n) qp_delta rest hc hq =
    let small = (map_inter_cbp-inverse (suc n) hc).0 in
    let same = pattern_from-map_inter_cbp (suc n) hc in
    let some_bits : ltb 0 (suc n) ≡ true = ground arith in
    rw
      (
        some_bits,
        read_ue-ue_code (map_inter_cbp (suc n)) (se_code qp_delta ++ rest) (omega arith),
        read_pattern,
      )
      (rw same (rw (read_se-se_code qp_delta rest hq, read_delta) refl))

-- The reader takes back every field of a P16x16 header, and a QP change of 0 where the pattern is 0.
pub read_p16x16-p16x16_code :
    (mvd_x mvd_y : ℤ) (cbp : ℕ) (qp_delta : ℤ) (rest : List Bool)
    → IsSeValue mvd_x
    → IsSeValue mvd_y
    → cbp < 48
    → IsSeValue qp_delta
    → read_p16x16 (p16x16_code mvd_x mvd_y cbp qp_delta ++ rest)
      ≡ some (mvd_x, mvd_y, cbp, (if ltb 0 cbp then qp_delta else pos 0), rest)
unfolding read_p16x16 p16x16_code
read_p16x16-p16x16_code mvd_x mvd_y cbp qp_delta rest hx hy hc hq =
    let delta : List Bool = if ltb 0 cbp then se_code qp_delta else [] in
    let pattern = ue_code (map_inter_cbp cbp) in
    let flat : p16x16_code mvd_x mvd_y cbp qp_delta ++ rest
        ≡ ue_code 0 ++ (se_code mvd_x ++ (se_code mvd_y ++ (pattern ++ (delta ++ rest)))) =
      rw
        (
          append_assoc (ue_code 0) (se_code mvd_x ++ (se_code mvd_y ++ (pattern ++ delta))) rest,
          append_assoc (se_code mvd_x) (se_code mvd_y ++ (pattern ++ delta)) rest,
          append_assoc (se_code mvd_y) (pattern ++ delta) rest,
          append_assoc pattern delta rest,
        )
        refl in
    rw flat (
      rw
        (
          read_ue-ue_code 0 (se_code mvd_x ++ (se_code mvd_y ++ (pattern ++ (delta ++ rest))))
              (omega arith),
          read_vector-se_code mvd_x mvd_y (pattern ++ (delta ++ rest)) hx hy,
          read_pattern-code cbp qp_delta rest hc hq,
          read_p16x16,
        )
        refl)

-- For vector differences and a QP change that are int32_t values other than INT32_MIN and a
-- pattern below 48, cavlc_write_mb_p16x16_header writes a code, under the conditions of room and
-- overflow of any writer, from which a reader that takes the pattern from Table 9-4 of H.264 and
-- no mb_type but 0 takes back every field, and a QP change of 0 where the pattern is 0, whatever
-- follows.
pub cavlc_write_mb_p16x16_header-read :
    (mvd_x mvd_y : ℤ) (cbp : ℕ) (qp_delta : ℤ)
    → IsSeValue mvd_x
    → IsSeValue mvd_y
    → cbp < 48
    → IsSeValue qp_delta
    → (code : List Bool) × (Writes (cavlc_write_mb_p16x16_header mvd_x mvd_y cbp qp_delta) code
        × ((rest : List Bool)
            → read_p16x16 (code ++ rest)
              ≡ some (mvd_x, mvd_y, cbp, (if ltb 0 cbp then qp_delta else pos 0), rest)))
cavlc_write_mb_p16x16_header-read mvd_x mvd_y cbp qp_delta hx hy hc hq = (
  p16x16_code mvd_x mvd_y cbp qp_delta,
  (
    cavlc_write_mb_p16x16_header-Writes mvd_x mvd_y cbp qp_delta hc,
    λ rest. read_p16x16-p16x16_code mvd_x mvd_y cbp qp_delta rest hx hy hc hq,
  ),
)
