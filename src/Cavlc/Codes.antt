-- ===== src/Cavlc/Codes.antt =====
-- The code tables of cavlc.c: no code is the beginning of another.

use bc250_vulkan_encode_stop.Base.{
  ℕ, ◌-◌, ◌/◌, ◌%◌, ◌^◌, ◌<◌, ◌≡◌, refl, Bool, true, not, ◌&&◌, ◌||◌, List, [], ◌∷◌, ltb, leb, ◌==◌,
}
use bc250_vulkan_encode_stop.Base.Below.{all_below, all_below-holds}
use bc250_vulkan_encode_stop.Cavlc.Tables.{
  entry, coeff_token_len, coeff_token_bits, total_zeros_len, total_zeros_bits, run_len, run_bits,
  chroma_dc_coeff_token_len, chroma_dc_coeff_token_bits, chroma_dc_total_zeros_len,
  chroma_dc_total_zeros_bits,
}

-- The `l` low bits of `b`, which bs_write_u appends, begin the `m` low bits of `c`.
unfoldable pub begins : ℕ → ℕ → ℕ → ℕ → Bool
begins l b m c = leb l m && (c % 2 ^ m / 2 ^ (m - l) == b % 2 ^ l)

-- The entries i and j of a row: where both are codes, the first has no bits above its length, and
-- where they are two entries, the first does not begin the second.
unfoldable pub apart : List (List ℕ) → List (List ℕ) → ℕ → ℕ → ℕ → Bool
unfolding begins
apart len bits row i j =
    (entry len row i == 0)
    || (entry len row j == 0)
    || (ltb (entry bits row i) (2 ^ entry len row i)
        && ((i == j)
            || not
                (begins (entry len row i) (entry bits row i) (entry len row j) (entry bits row j))))

pub PrefixFree : List (List ℕ) → List (List ℕ) → ℕ → ℕ → Type 0
unfolding apart
PrefixFree len bits rows columns =
    (row i j : ℕ) → row < rows → i < columns → j < columns → apart len bits row i j ≡ true

check : List (List ℕ) → List (List ℕ) → ℕ → ℕ → Bool
unfolding all_below apart
check len bits rows columns =
    all_below (λ row. all_below (λ i. all_below (λ j. apart len bits row i j) columns) columns) rows

check-PrefixFree :
    (len bits : List (List ℕ)) (rows columns : ℕ)
    → check len bits rows columns ≡ true
    → PrefixFree len bits rows columns
unfolding check PrefixFree
check-PrefixFree len bits rows columns h row i j hr hi hj =
    all_below-holds (λ j2. apart len bits row i j2) columns j hj
      (all_below-holds (λ i2. all_below (λ j2. apart len bits row i2 j2) columns) columns i hi
        (all_below-holds
          (λ r. all_below (λ i2. all_below (λ j2. apart len bits r i2 j2) columns) columns) rows row
          hr h))

rows_apart :
    (check coeff_token_len coeff_token_bits 4 68 ≡ true)
    × (check total_zeros_len total_zeros_bits 15 16 ≡ true)
    × (check run_len run_bits 7 15 ≡ true)
    × (check (chroma_dc_coeff_token_len ∷ []) (chroma_dc_coeff_token_bits ∷ []) 1 20 ≡ true)
    × (check chroma_dc_total_zeros_len chroma_dc_total_zeros_bits 3 4 ≡ true)
unfolding check coeff_token_len coeff_token_bits total_zeros_len total_zeros_bits run_len run_bits
    chroma_dc_coeff_token_len chroma_dc_coeff_token_bits chroma_dc_total_zeros_len
    chroma_dc_total_zeros_bits
rows_apart = (refl, refl, refl, refl, refl)

-- In every row of the tables for coeff_token, total_zeros, run_before and the two of chroma DC
-- each code fits in its length, and none, as bs_write_u appends it, begins the code of another
-- entry.
pub tables-PrefixFree :
    PrefixFree coeff_token_len coeff_token_bits 4 68
    × PrefixFree total_zeros_len total_zeros_bits 15 16
    × PrefixFree run_len run_bits 7 15
    × PrefixFree (chroma_dc_coeff_token_len ∷ []) (chroma_dc_coeff_token_bits ∷ []) 1 20
    × PrefixFree chroma_dc_total_zeros_len chroma_dc_total_zeros_bits 3 4
tables-PrefixFree =
    let (tokens, zero_counts, runs, chroma_tokens, chroma_zeros) = rows_apart in
    (
      check-PrefixFree coeff_token_len coeff_token_bits 4 68 tokens,
      check-PrefixFree total_zeros_len total_zeros_bits 15 16 zero_counts,
      check-PrefixFree run_len run_bits 7 15 runs,
      check-PrefixFree (chroma_dc_coeff_token_len ∷ []) (chroma_dc_coeff_token_bits ∷ []) 1 20
          chroma_tokens,
      check-PrefixFree chroma_dc_total_zeros_len chroma_dc_total_zeros_bits 3 4 chroma_zeros,
    )
