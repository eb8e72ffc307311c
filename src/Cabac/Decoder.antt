-- ===== src/Cabac/Decoder.antt =====
-- The arithmetic decoder of H.264 9.3.3.2, as a description of its own, and the coder's interval seen
-- from the decoder's side.
use bc250_vulkan_encode_stop.Base.{
  ℕ, ◌-◌, ◌*◌, ◌^◌, Bool, true, false, List, [], ◌∷◌, Option, some, ◌>>=◌, if◌then◌else◌, leb, set,
  get_or,
}
use bc250_vulkan_encode_stop.Bits.{odd, read_bits}
use bc250_vulkan_encode_stop.Cabac.{range_lps, next_state, differs}
use bc250_vulkan_encode_stop.Cabac.Exact.{Bin, decision, bypass, terminal, doublings}

pub record Decoder : Type 0 where
  pub offset : ℕ
  pub range : ℕ
  pub input : List Bool
  pub state : List ℕ

-- RenormD: the offset takes one bit of the input for every doubling of the range.
unfoldable pub renormalise : Decoder → Option Decoder
unfolding doublings read_bits
renormalise d = do
  let s = doublings 8 d.range
  (offset, input) ← read_bits s d.offset d.input
  some (record d { offset = offset; range = d.range * 2 ^ s; input = input })

-- The part of the interval that the offset lies in, and whether it is that of the less probable bin.
unfoldable pub find_part : Decoder → ℕ → Bool × Decoder
find_part d lps =
    let rest = d.range - lps in
    if leb rest d.offset
    then (true, record d { offset = d.offset - rest; range = lps })
    else (false, record d { range = rest })

unfoldable pub decode_decision : Decoder → ℕ → Option (Bool × Decoder)
unfolding find_part renormalise range_lps next_state differs
decode_decision d ctx =
    let p = get_or d.state ctx 0 in
    let (is_lps, found) = find_part d (range_lps p d.range) in
    let bit = differs is_lps (odd p) in
    renormalise found >>= (λ (after : Decoder).
      some (bit, record after { state = set d.state ctx (next_state p bit) }))

unfoldable pub decode_bypass : Decoder → Option (Bool × Decoder)
unfolding read_bits
decode_bypass d = do
  (offset, input) ← read_bits 1 d.offset d.input
  some (
      if leb d.range offset
      then (true, record d { offset = offset - d.range; input = input })
      else (false, record d { offset = offset; input = input }))

-- The decoding of the bin 1 ends the slice, with nothing read.
unfoldable pub decode_terminate : Decoder → Option (Bool × Decoder)
unfolding renormalise
decode_terminate d =
    if leb (d.range - 2) d.offset
    then some (true, d)
    else renormalise (record d { range = d.range - 2 })
      >>= (λ (after : Decoder). some (false, after))

-- What a parser asks for.
pub data Request : Type 0 where
  with_context : ℕ → Request
  without : Request
  end_of_slice : Request

unfoldable pub decode : Request → Decoder → Option (Bool × Decoder)
unfolding decode_decision decode_bypass decode_terminate
decode (with_context ctx) d = decode_decision d ctx
decode without d = decode_bypass d
decode end_of_slice d = decode_terminate d

unfoldable pub decode_all : List Request → Decoder → Option (List Bool × Decoder)
unfolding decode
decode_all [] d = some ([], d)
decode_all (r ∷ rs) d = do
  (bit, next) ← decode r d
  (bits, last) ← decode_all rs next
  some (bit ∷ bits, last)

unfoldable pub request : Bin → Request
request (decision ctx bit) = with_context ctx
request (bypass bit) = without
request terminal = end_of_slice

unfoldable pub bit_of : Bin → Bool
bit_of (decision ctx bit) = bit
bit_of (bypass bit) = bit
bit_of terminal = false
