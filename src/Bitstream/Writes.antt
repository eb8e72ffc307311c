-- ===== src/Bitstream/Writes.antt =====
-- What it means that a writer writes a code, on a stream with room and on one without, and that this
-- composes: `f ▸ g` writes the code of `f` and then the code of `g`.
use native.Mathlib.Decide.{dec_le}
use native.Mathlib.Nat.{div-one}
use mathlib.Core.Path.{subst}
use bc250_vulkan_encode_stop.Base.{
  ℕ, ◌+◌, ◌*◌, ◌/◌, ◌^◌, ◌≤◌, ◌<◌, ◌≡◌, refl, sym, ap, ◌∙◌, Bool, true, false, List, [], ◌∷◌, ◌++◌,
  arith, length, append_assoc, length-append,
}
use bc250_vulkan_encode_stop.Bits.{bits_of, odd}
use bc250_vulkan_encode_stop.Bitstream.{Bitstream, Writer, ◌▸◌, bs_write_u, bs_write1}
use bc250_vulkan_encode_stop.Bitstream.Content.{content, IsValid, Wrote, Fits, length-content}
use bc250_vulkan_encode_stop.Bitstream.Write.{
  bs_write_u-Wrote, bs_write_u-full, bs_write_u-sticky, Wrote-nothing,
}

pub record Writes (f : Writer) (code : List Bool) : Type 0 where
  pub complete : (s : Bitstream) → IsValid s → s.overflow ≡ false → Fits s code → Wrote s code (f s)
  pub flagged :
      (s : Bitstream)
      → IsValid s
      → s.overflow ≡ false
      → ¬ Fits s code
      → IsValid (f s) × ((f s).overflow ≡ true)
  pub sticky : (s : Bitstream) → s.overflow ≡ true → f s ≡ s

pub Wrote-trans :
    {s t u : Bitstream} {c d : List Bool} → Wrote s c t → Wrote t d u → Wrote s (c ++ d) u
Wrote-trans {s} {c = c} {d = d} x y = record {
  valid = y.valid;
  kept_all = y.kept_all;
  appended = y.appended ∙ ap (λ l. l ++ d) x.appended ∙ append_assoc (content s) c d;
  same_size = y.same_size ∙ x.same_size;
  same_length = y.same_length ∙ x.same_length;
}

-- Where the bits end after a code.
pub Wrote-end :
    (s t : Bitstream) (c : List Bool)
    → IsValid s
    → Wrote s c t
    → 8 * t.byte_offset + t.bit_offset ≡ 8 * s.byte_offset + s.bit_offset + length c
Wrote-end s t c v w = omega (
  arith,
  length-content s v,
  length-content t w.valid,
  length-append (content s) c,
  ap length w.appended,
)

pub Fits-rest :
    (s t : Bitstream) (c d : List Bool)
    → IsValid s
    → Wrote s c t
    → (Fits s (c ++ d) → Fits t d) × (Fits t d → Fits s (c ++ d))
Fits-rest s t c d v w = (
  (λ h. omega (arith, Wrote-end s t c v w, length-append c d, w.same_size)),
  λ h. omega (arith, Wrote-end s t c v w, length-append c d, w.same_size),
)

pub Writes-nothing : Writes (λ s. s) []
Writes-nothing = record {
  complete = λ s v h _. Wrote-nothing s v h;
  flagged = λ s v h full. absurd (full (omega arith));
  sticky = λ s h. refl;
}

pub Writes-seq :
    {f g : Writer} {c d : List Bool} → Writes f c → Writes g d → Writes (f ▸ g) (c ++ d)
Writes-seq {f} {g} {c} {d} x y = record {
  complete = λ s v h fits.
      let w = x.complete s v h (omega (arith, length-append c d)) in
      Wrote-trans w (y.complete (f s) w.valid w.kept_all ((Fits-rest s (f s) c d v w).0 fits));
  flagged = λ s v h full. elim (dec_le (s.byte_offset + (s.bit_offset + length c) / 8) s.size) [
    | yes fits ↦
        let w = x.complete s v h fits in
        y.flagged (f s) w.valid w.kept_all (λ r. full ((Fits-rest s (f s) c d v w).1 r))
    | no over ↦ let (valid, flag) = x.flagged s v h over in rw (y.sticky (f s) flag) (valid, flag)
  ];
  sticky = λ s h. ap g (x.sticky s h) ∙ y.sticky s h;
}

-- The same code, written another way.
pub Writes-code : {f : Writer} {c d : List Bool} → c ≡ d → Writes f c → Writes f d
Writes-code {f} e w = rw e at w

pub bs_write_u-Writes :
    (bits val : ℕ) → bits ≤ 32 → val < 2 ^ 32 → Writes (bs_write_u bits val) (bits_of bits val)
bs_write_u-Writes bits val wide small = record {
  complete = λ s. bs_write_u-Wrote bits val s wide small;
  flagged = λ s. bs_write_u-full bits val s wide small;
  sticky = bs_write_u-sticky bits val;
}

pub bs_write1-Writes : (val : ℕ) → val < 2 ^ 32 → Writes (bs_write1 val) (odd val ∷ [])
unfolding bs_write1 bits_of
bs_write1-Writes val small =
    let low : odd (val / 1) ≡ odd val = rw div-one in
    Writes-code (ap (λ b. b ∷ []) low) (bs_write_u-Writes 1 val (omega arith) small)

-- The same for a value that is known in another form.
pub bs_write_u-Writes_eq :
    (bits val known : ℕ)
    → bits ≤ 32
    → known < 2 ^ 32
    → val ≡ known
    → Writes (bs_write_u bits val) (bits_of bits known)
bs_write_u-Writes_eq bits val known wide small e =
    subst (λ (v : ℕ). Writes (bs_write_u bits v) (bits_of bits known)) (sym e)
      (bs_write_u-Writes bits known wide small)
