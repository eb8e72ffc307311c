-- ===== src/Cabac/Inverse.antt =====
-- The decoder of H.264 9.3.3.2 undoes the exact arithmetic coder, on every number that lies in the
-- interval that the coder ends with.
use native.Mathlib.Nat.{
  div-add-mod', mod-lt, div-div-eq-div-mul, div-lt_iff_lt-mul, le-div_iff_mul-le, add-mul,
}
use bc250_vulkan_encode_stop.Base.{
  ℕ, ◌+◌, ◌-◌, ◌*◌, ◌/◌, ◌%◌, ◌^◌, ◌≤◌, ◌<◌, ◌≡◌, refl, sym, ap, ◌∙◌, arith, Bool, true, false,
  some, leb, le→leb, leb-false, get_or,
}
use bc250_vulkan_encode_stop.Bits.{
  odd, bits_of, read_bits, read_bits-bits_of, bits_of-split, bits_of-mod, two_pow_pos, two_pow_add,
}
use bc250_vulkan_encode_stop.Cabac.{range_lps, differs}
use bc250_vulkan_encode_stop.Cabac.Exact.{
  Coder, Bin, decision, bypass, terminal, code_bin, narrow, narrow_to, code_decision, doublings,
}
use bc250_vulkan_encode_stop.Cabac.Decoder.{
  Decoder, renormalise, find_part, decode_decision, decode_bypass, decode_terminate, decode,
  request, bit_of,
}

prefix_of : (x s m : ℕ) → x / 2 ^ (s + m) ≡ x / 2 ^ m / 2 ^ s
prefix_of x s m = rw (two_pow_add s m) (sym (div-div-eq-div-mul x (2 ^ m) (2 ^ s)))

-- Reading s more bits of the number x, relative to a base.
read-on :
    (x s m base : ℕ)
    → base ≤ x / 2 ^ (s + m)
    → read_bits s (x / 2 ^ (s + m) - base) (bits_of (s + m) x)
      ≡ some (x / 2 ^ m - base * 2 ^ s, bits_of m x)
read-on x s m base h =
    let y = x / 2 ^ m in
    let sum = div-add-mod' y (2 ^ s) in
    let below : base ≤ y / 2 ^ s = rw (← prefix_of x s m) h in
    let difference : y / 2 ^ s - base + base ≡ y / 2 ^ s = omega (arith, below) in
    let spread = add-mul (y / 2 ^ s - base) base (2 ^ s) in
    let product = ap (λ (t : ℕ). t * 2 ^ s) difference in
    let total : (y / 2 ^ s - base) * 2 ^ s + y % 2 ^ s ≡ y - base * 2 ^ s =
      omega (arith, sum, spread, product) in
    rw (prefix_of x s m, bits_of-split s m x, ← bits_of-mod s y)
      (read_bits-bits_of s (y / 2 ^ s - base) (y % 2 ^ s) (bits_of m x) (mod-lt y (two_pow_pos s))
        ∙ ap (λ (t : ℕ). some (t, bits_of m x)) total)

-- What is left of an n-bit number x after the shifts that a coder has made.
abbrev pub ahead : ℕ → ℕ → Coder → ℕ
ahead x n c = x / 2 ^ (n - c.shifts)

-- The first bits of x lie in the interval of the coder.
unfoldable pub Inside : ℕ → ℕ → Coder → Type 0
Inside x n c = (c.shifts ≤ n) × (c.low ≤ ahead x n c) × (ahead x n c < c.low + c.range)

-- The decoder that has read as far as the coder has written.
unfoldable pub decoder_at : ℕ → ℕ → Coder → Decoder
decoder_at x n c = record {
  offset = ahead x n c - c.low;
  range = c.range;
  input = bits_of (n - c.shifts) x;
  state = c.state;
}

-- An interval that has been scaled by 2^s holds a number when the smaller one holds its prefix.
scaled_interval :
    (x s m base r : ℕ)
    → base * 2 ^ s ≤ x / 2 ^ m
    → x / 2 ^ m < base * 2 ^ s + r * 2 ^ s
    → (base ≤ x / 2 ^ (s + m)) × (x / 2 ^ (s + m) < base + r)
scaled_interval x s m base r low high = rw (prefix_of x s m) (
  (le-div_iff_mul-le {k = 2 ^ s} {x = base} {y = x / 2 ^ m} (two_pow_pos s)).1 low,
  (div-lt_iff_lt-mul {k = 2 ^ s} {x = x / 2 ^ m} {y = base + r} (two_pow_pos s)).1
      (omega (arith, high, add-mul base r (2 ^ s))),
)

module _ (x n : ℕ) (c : Coder) (delta r : ℕ) where
  abbrev s : ℕ
  s = doublings 8 r

  split_ahead : c.shifts + s ≤ n → n - c.shifts ≡ s + (n - (c.shifts + s))
  split_ahead h = omega arith

  narrow-Inside :
      Inside x n (narrow c delta r)
      → (c.low + delta ≤ ahead x n c) × (ahead x n c < c.low + delta + r)
  unfolding Inside narrow
  narrow-Inside (short, low, high) =
      rw (split_ahead short) (scaled_interval x s (n - (c.shifts + s)) (c.low + delta) r low high)

  renormalise-narrow :
      Inside x n (narrow c delta r)
      → renormalise
          (record (decoder_at x n c) { offset = ahead x n c - (c.low + delta); range = r })
        ≡ some (decoder_at x n (narrow c delta r))
  unfolding renormalise decoder_at narrow Inside
  renormalise-narrow inside =
      let (short, low, high) = inside in
      let (at_least, below) = narrow-Inside inside in
      let base = c.low + delta in
      let taken : base ≤ ahead x n c
          → read_bits s (ahead x n c - base) (bits_of (n - c.shifts) x)
            ≡ some (x / 2 ^ (n - (c.shifts + s)) - base * 2 ^ s, bits_of (n - (c.shifts + s)) x) =
        rw (split_ahead short) (read-on x s (n - (c.shifts + s)) base) in
      rw (taken at_least) refl

differs_twice : (a b : Bool) → differs (differs a b) b ≡ a
unfolding differs
differs_twice true true = refl
differs_twice true false = refl
differs_twice false true = refl
differs_twice false false = refl

module _ (x n : ℕ) (c : Coder) where
  narrow-Inside_whole :
      (delta r : ℕ) → delta + r ≤ c.range → Inside x n (narrow c delta r) → Inside x n c
  unfolding Inside narrow
  narrow-Inside_whole delta r h inside =
      let (low, high) = narrow-Inside x n c delta r inside in
      let (short, low_after, high_after) = inside in
      (omega (arith, short), omega (arith, low), omega (arith, high, h))

  -- The decoder finds the part of the interval that the coder took.
  find_part-narrow_to :
      (lps : ℕ) (is_lps : Bool)
      → lps ≤ c.range
      → Inside x n (narrow_to c is_lps lps)
      → ((find_part (decoder_at x n c) lps).0 ≡ is_lps)
        × (renormalise (find_part (decoder_at x n c) lps).1
            ≡ some (decoder_at x n (narrow_to c is_lps lps)))
        × Inside x n c
  unfolding find_part decoder_at narrow_to
  find_part-narrow_to lps true h inside =
      let rest = c.range - lps in
      let (low, high) = narrow-Inside x n c rest lps inside in
      let large : leb rest (ahead x n c - c.low) ≡ true =
        omega (arith, le→leb rest (ahead x n c - c.low), low) in
      let offsets : ahead x n c - c.low - rest ≡ ahead x n c - (c.low + rest) = omega arith in
      rw (large, offsets)
        (
          refl,
          renormalise-narrow x n c rest lps inside,
          narrow-Inside_whole rest lps (omega (arith, h)) inside,
        )
  find_part-narrow_to lps false h inside =
      let rest = c.range - lps in
      let (low, high) = narrow-Inside x n c 0 rest inside in
      let small : leb rest (ahead x n c - c.low) ≡ false =
        leb-false rest (ahead x n c - c.low) (omega (arith, low, high)) in
      let same : ahead x n c - c.low ≡ ahead x n c - (c.low + 0) = omega arith in
      rw small (
        refl,
        ap (λ (o : ℕ). renormalise (record (decoder_at x n c) { offset = o; range = rest })) same
            ∙ renormalise-narrow x n c 0 rest inside,
        narrow-Inside_whole 0 rest (omega arith) inside,
      )

-- What decoding a bin must give, and that the number was in the interval before.
unfoldable pub Decodes : ℕ → ℕ → Coder → Bin → Type 0
Decodes x n c b =
    (decode (request b) (decoder_at x n c) ≡ some (bit_of b, decoder_at x n (code_bin c b)))
    × Inside x n c

pub decode-decision :
    (x n : ℕ) (c : Coder) (ctx : ℕ) (bit : Bool)
    → range_lps (get_or c.state ctx 0) c.range ≤ c.range
    → Inside x n (code_bin c (decision ctx bit))
    → Decodes x n c (decision ctx bit)
unfolding Decodes decode decode_decision code_bin code_decision decoder_at Inside request bit_of
decode-decision x n c ctx bit h inside =
    let p = get_or c.state ctx 0 in
    let (found, renormed, whole) =
      find_part-narrow_to x n c (range_lps p c.range) (differs bit (odd p)) h inside in
    rw (found, renormed, differs_twice bit (odd p)) (refl, whole)

module _ (x n : ℕ) (c : Coder) where
  -- One bit more, which is all that a bin without a context takes.
  read_bit-Inside :
      c.shifts + 1 ≤ n
      → c.low * 2 ≤ x / 2 ^ (n - (c.shifts + 1))
      → x / 2 ^ (n - (c.shifts + 1)) < c.low * 2 + c.range * 2
      → (read_bits 1 (ahead x n c - c.low) (bits_of (n - c.shifts) x)
          ≡ some (x / 2 ^ (n - (c.shifts + 1)) - c.low * 2, bits_of (n - (c.shifts + 1)) x))
        × Inside x n c
  unfolding Inside
  read_bit-Inside short low high =
      let m = n - (c.shifts + 1) in
      let split : n - c.shifts ≡ 1 + m = omega (arith, short) in
      let (at_least, below) = scaled_interval x 1 m c.low c.range low high in
      rw split (read-on x 1 m c.low at_least, (omega (arith, short), at_least, below))

  pub decode_bypass-code_bin :
      (bit : Bool) → Inside x n (code_bin c (bypass bit)) → Decodes x n c (bypass bit)
  unfolding Decodes decode decode_bypass code_bin decoder_at Inside request bit_of
  decode_bypass-code_bin true (short, low, high) =
      let y = x / 2 ^ (n - (c.shifts + 1)) in
      let (taken, whole) = read_bit-Inside short (omega (arith, low)) (omega (arith, high)) in
      let large : leb c.range (y - c.low * 2) ≡ true =
        le→leb c.range (y - c.low * 2) (omega (arith, low)) in
      let offsets : y - c.low * 2 - c.range ≡ y - (c.low * 2 + c.range) = omega arith in
      rw (taken, large, offsets) (refl, whole)
  decode_bypass-code_bin false (short, low, high) =
      let y = x / 2 ^ (n - (c.shifts + 1)) in
      let (taken, whole) = read_bit-Inside short (omega (arith, low)) (omega (arith, high)) in
      let small : leb c.range (y - c.low * 2) ≡ false =
        leb-false c.range (y - c.low * 2) (omega (arith, low, high)) in
      let offsets : y - c.low * 2 ≡ y - (c.low * 2 + 0) = omega arith in
      rw (taken, small, offsets) (refl, whole)

  pub decode_terminate-code_bin :
      2 ≤ c.range → Inside x n (code_bin c terminal) → Decodes x n c terminal
  unfolding Decodes decode decode_terminate code_bin decoder_at request bit_of
  decode_terminate-code_bin h inside =
      let rest = c.range - 2 in
      let (low, high) = narrow-Inside x n c 0 rest inside in
      let small : leb rest (ahead x n c - c.low) ≡ false =
        leb-false rest (ahead x n c - c.low) (omega (arith, low, high)) in
      let same : ahead x n c - c.low ≡ ahead x n c - (c.low + 0) = omega arith in
      let renormed =
        ap (λ (o : ℕ). renormalise (record (decoder_at x n c) { offset = o; range = rest })) same
        ∙ renormalise-narrow x n c 0 rest inside in
      rw (small, renormed) (refl, narrow-Inside_whole x n c 0 rest (omega arith) inside)
