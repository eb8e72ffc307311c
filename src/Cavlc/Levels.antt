-- ===== src/Cavlc/Levels.antt =====
-- The levels of a block (H.264, 9.2.2.1): the reader of the standard takes back what
-- `cavlc_write_one_level` and `cavlc_write_levels` write.
use bc250_vulkan_encode_stop.Base.{
  ℕ, zero, suc, ◌+◌, ◌-◌, ◌*◌, ◌/◌, ◌%◌, ◌^◌, ◌≤◌, ◌<◌, ◌≡◌, refl, ap, Bool, true, false, ◌&&◌,
  List, [], ◌∷◌, ◌++◌, Option, none, some, arith, leb, ltb, ◌==◌, if◌then◌else◌, length,
  append_assoc,
}
use bc250_vulkan_encode_stop.Base.Int.{ℤ, pos, negsuc}
use bc250_vulkan_encode_stop.Bitstream.{Writer}
use bc250_vulkan_encode_stop.Bitstream.Writes.{Writes, Writes-seq, Writes-nothing}
use bc250_vulkan_encode_stop.Cavlc.{magnitude}
use bc250_vulkan_encode_stop.Cavlc.Residual.{
  level_code_of, next_suffix_length, write_signed_code, cavlc_write_one_level, levels_loop,
}
use bc250_vulkan_encode_stop.Cavlc.LevelCode.{read_level_code, write_level_code-IsLevelCode}

-- The level of a level code; `offset` where a first level follows fewer than three trailing ones.
unfoldable pub level_value : Bool → ℕ → ℤ
level_value offset code =
    let c = code + (if offset then 2 else 0) in
    if c % 2 == 0 then pos ((c + 2) / 2) else negsuc ((c - 1) / 2)

unfoldable pub read_level : Bool → ℕ → List Bool → Option (ℤ × List Bool)
unfolding level_value
read_level offset suffix_length bits = elim (read_level_code suffix_length bits) [
  | none ↦ none
  | some (code, rest) ↦ some (level_value offset code, rest)
]

-- A level of at most 2^16, not 0, and no trailing one where those are coded apart.
abbrev pub IsLevel : Bool → ℤ → Type 0
IsLevel offset level = ((if offset then 2 else 1) ≤ magnitude level) × (magnitude level ≤ 2 ^ 16)

level_code_of-value :
    (level : ℤ) (offset : Bool)
    → IsLevel offset level
    → (code : ℕ) × (level_code_of level offset ≡ pos code)
      × (code < 2 ^ 18)
      × (level_value offset code ≡ level)
unfolding level_code_of level_value
level_code_of-value (pos zero) true h = absurd (omega arith)
level_code_of-value (pos zero) false h = absurd (omega arith)
level_code_of-value (pos (suc zero)) true h = absurd (omega arith)
level_code_of-value (pos (suc zero)) false h = (0, refl, omega arith, refl)
level_code_of-value (pos (suc (suc n))) true h = (2 * n, refl, omega arith, ground arith)
level_code_of-value (pos (suc (suc n))) false h = (2 * n + 2, refl, omega arith, ground arith)
level_code_of-value (negsuc zero) true h = absurd (omega arith)
level_code_of-value (negsuc zero) false h = (1, refl, omega arith, refl)
level_code_of-value (negsuc (suc n)) true h = (2 * n + 1, refl, omega arith, ground arith)
level_code_of-value (negsuc (suc n)) false h = (2 * n + 3, refl, omega arith, ground arith)

-- The writer of a level and what the reader makes of it.
pub record IsRead (f : Writer) (offset : Bool) (suffix_length : ℕ) (level : ℤ) : Type 0 where
  pub bits : List Bool
  pub written : Writes f bits
  pub taken :
      (rest : List Bool) → read_level offset suffix_length (bits ++ rest) ≡ some (level, rest)

-- A level of at most 2^16 that is not 0, nor of magnitude 1 where the code is offset, is written so
-- that the reader of the standard takes it back, for each of the suffix lengths 0..6.
pub cavlc_write_one_level-IsRead :
    (level : ℤ) (is_first trailing_ones_lt3 : Bool) (suffix_length : ℕ)
    → IsLevel (is_first && trailing_ones_lt3) level
    → suffix_length ≤ 6
    → IsRead
        (λ s. (cavlc_write_one_level level is_first trailing_ones_lt3 suffix_length s).0)
        (is_first && trailing_ones_lt3)
        suffix_length
        level
unfolding cavlc_write_one_level write_signed_code read_level
cavlc_write_one_level-IsRead level is_first trailing_ones_lt3 suffix_length h hs =
    let offset : Bool = is_first && trailing_ones_lt3 in
    let (code, coded, small, value) = level_code_of-value level offset h in
    let c = write_level_code-IsLevelCode suffix_length code hs small in
    record {
      bits = c.bits;
      written = rw coded c.written;
      taken = λ rest. rw (c.taken rest, read_level) (ap (λ (l : ℤ). some (l, rest)) value);
    }

next_suffix_length_bound : (level : ℤ) (sl : ℕ) → sl ≤ 6 → next_suffix_length level sl ≤ 6
unfolding next_suffix_length
next_suffix_length_bound level sl h = ground arith

-- suffixLength for the next level: it starts from 1, grows past 3, 6, 12, 24 and 48, and stops at 6.
unfoldable pub grown_suffix_length : ℤ → ℕ → ℕ
grown_suffix_length level zero = if ltb 3 (magnitude level) then 2 else 1
grown_suffix_length level (suc n) =
    if leb 5 n then suc n else (if ltb (3 * 2 ^ n) (magnitude level) then suc (suc n) else suc n)

grown_suffix_length-same :
    (level : ℤ) (sl : ℕ) → grown_suffix_length level sl ≡ next_suffix_length level sl
unfolding grown_suffix_length next_suffix_length
grown_suffix_length-same level zero = ground arith
grown_suffix_length-same level (suc n) = ground arith

-- `count` levels, each with the suffix length that the one before leaves.
unfoldable pub read_levels : ℕ → Bool → ℕ → List Bool → Option (List ℤ × List Bool)
unfolding read_level grown_suffix_length
read_levels zero offset suffix_length bits = some ([], bits)
read_levels (suc count) offset suffix_length bits = elim (read_level offset suffix_length bits) [
  | none ↦ none
  | some (level, rest) ↦
      elim (read_levels count false (grown_suffix_length level suffix_length) rest) [
        | none ↦ none
        | some (levels, after) ↦ some (level ∷ levels, after)
      ]
]

abbrev pub AreLevels : Bool → List ℤ → Type 0
AreLevels offset [] = Unit {0}
AreLevels offset (level ∷ levels) = IsLevel offset level × AreLevels false levels

pub record AreRead (f : Writer) (offset : Bool) (suffix_length : ℕ) (levels : List ℤ) : Type 0 where
  pub bits : List Bool
  pub written : Writes f bits
  pub taken :
      (rest : List Bool)
      → read_levels (length levels) offset suffix_length (bits ++ rest) ≡ some (levels, rest)

-- The levels of a block, each at most 2^16, not 0, and the first not of magnitude 1 where its
-- code is offset, are written so that the reader of 9.2.2.1 takes them all back, from any suffix
-- length in 0..6.
pub levels_loop-AreRead :
    (levels : List ℤ) (is_first trailing_ones_lt3 : Bool) (suffix_length : ℕ)
    → AreLevels (is_first && trailing_ones_lt3) levels
    → suffix_length ≤ 6
    → AreRead
        (levels_loop levels is_first trailing_ones_lt3 suffix_length)
        (is_first && trailing_ones_lt3)
        suffix_length
        levels
unfolding levels_loop read_levels
levels_loop-AreRead [] is_first lt3 sl h hs = record {
  bits = [];
  written = Writes-nothing;
  taken = λ rest. refl;
}
levels_loop-AreRead (level ∷ levels) is_first lt3 sl h hs =
    let next : ℕ = next_suffix_length level sl in
    let one = cavlc_write_one_level-IsRead level is_first lt3 sl h.0 hs in
    let more =
      levels_loop-AreRead levels false lt3 next h.1 (next_suffix_length_bound level sl hs) in
    record {
      bits = one.bits ++ more.bits;
      written = unfold cavlc_write_one_level in Writes-seq one.written more.written;
      taken = λ rest. rw (append_assoc one.bits more.bits rest) (
          rw (one.taken (more.bits ++ rest), read_levels)
            (simp (grown_suffix_length-same level sl, more.taken rest) refl));
    }
