-- ===== src/ParameterSets/Elements.antt =====
-- Lists of syntax elements with the descriptors u(n), ue(v) and se(v) of the standard.
use bc250_vulkan_encode_stop.Base.{
  ℕ, ◌*◌, ◌^◌, ◌≤◌, ◌<◌, Bool, true, false, List, [], ◌∷◌, ◌++◌, arith, length, length-append,
  if◌then◌else◌,
}
use bc250_vulkan_encode_stop.Base.Int.{ℤ}
use bc250_vulkan_encode_stop.Bits.{bits_of, length-bits_of}
use bc250_vulkan_encode_stop.Bitstream.{Writer, bs_write_u, bs_write_ue, bs_write_se, se_mapped}
use bc250_vulkan_encode_stop.Bitstream.Writes.{
  Writes, Writes-seq, Writes-nothing, bs_write_u-Writes,
}
use bc250_vulkan_encode_stop.Bitstream.Golomb.{ue_code, bs_write_ue-Writes, length-ue_code}
use bc250_vulkan_encode_stop.Bitstream.Signed.{se_code, bs_write_se-Writes, se_mapped-lt}
use bc250_vulkan_encode_stop.ParameterSets.{when}

pub data Element : Type 0 where
  u : ℕ → ℕ → Element
  ue : ℕ → Element
  se : ℤ → Element

abbrev pub IsElement : Element → Type 0
IsElement (u bits val) = (bits ≤ 32) × (val < 2 ^ 32)
IsElement (ue val) = val < 2 ^ 32
IsElement (se val) = Unit {0}

abbrev pub AllElements : List Element → Type 0
AllElements [] = Unit {0}
AllElements (e ∷ es) = IsElement e × AllElements es

abbrev pub write_element : Element → Writer
write_element (u bits val) = bs_write_u bits val
write_element (ue val) = bs_write_ue val
write_element (se val) = bs_write_se val

abbrev pub write_elements : List Element → Writer
write_elements [] s = s
write_elements (e ∷ es) s = write_elements es (write_element e s)

unfoldable pub element_code : Element → List Bool
element_code (u bits val) = bits_of bits val
element_code (ue val) = ue_code val
element_code (se val) = se_code val

unfoldable pub elements_code : List Element → List Bool
unfolding element_code
elements_code [] = []
elements_code (e ∷ es) = element_code e ++ elements_code es

pub Writes-element : (e : Element) → IsElement e → Writes (write_element e) (element_code e)
unfolding element_code
Writes-element (u bits val) h = bs_write_u-Writes bits val h.0 h.1
Writes-element (ue val) h = bs_write_ue-Writes val h
Writes-element (se val) h = bs_write_se-Writes val

pub Writes-elements :
    (es : List Element) → AllElements es → Writes (write_elements es) (elements_code es)
unfolding elements_code
Writes-elements [] h = Writes-nothing
Writes-elements (e ∷ es) h = Writes-seq (Writes-element e h.0) (Writes-elements es h.1)

pub Writes-when :
    (b : Bool) {f : Writer} {code : List Bool}
    → Writes f code
    → Writes (when b f) (if b then code else [])
Writes-when true w = w
Writes-when false w = Writes-nothing

length-element_code : (e : Element) → IsElement e → length (element_code e) ≤ 65
unfolding element_code se_code
length-element_code (u bits val) h = omega (arith, length-bits_of bits val)
length-element_code (ue val) h = length-ue_code val h
length-element_code (se val) h = length-ue_code (se_mapped val) (se_mapped-lt val)

pub length-elements_code :
    (es : List Element) → AllElements es → length (elements_code es) ≤ 65 * length es
unfolding elements_code
length-elements_code [] h = omega arith
length-elements_code (e ∷ es) h = omega (
  arith,
  length-append (element_code e) (elements_code es),
  length-element_code e h.0,
  length-elements_code es h.1,
)
