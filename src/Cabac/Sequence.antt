-- ===== src/Cabac/Sequence.antt =====
-- Strings of bins: the engine of cabac.c follows the exact coder from bin to bin, and the decoder
-- follows back.
use bc250_vulkan_encode_stop.Base.{
  ℕ, ◌+◌, ◌-◌, ◌*◌, ◌^◌, ◌≤◌, ◌≡◌, refl, ap, ◌∙◌, arith, Bool, true, false, if_split, if◌then◌else◌,
  ltb, ◌==◌, ◌/◌, ◌%◌, List, [], ◌∷◌, map, some, get_or, set,
}
use bc250_vulkan_encode_stop.Cabac.{
  CabacEngine, cabac_putbyte, put_out, take_part, cabac_encode_renorm, cabac_encode_decision,
  cabac_encode_bypass, cabac_encode_terminal, range_lps, next_state, differs,
}
use bc250_vulkan_encode_stop.Bits.{odd}
use bc250_vulkan_encode_stop.Cabac.Value.{put_bytes-unflagged}
use bc250_vulkan_encode_stop.Cabac.Tables.{cabac_renorm_shift}
use bc250_vulkan_encode_stop.Cabac.Exact.{
  Coder, Bin, decision, bypass, terminal, code_bin, code_bins, narrow, narrow_to, code_decision,
  range_lps-bounds, shift-doublings, next_state-IsState,
}
use bc250_vulkan_encode_stop.Cabac.Moves.{view, HasStates, IsCoder, Reaches}
use bc250_vulkan_encode_stop.Cabac.Steps.{
  InTable, HasStates-set, cabac_encode_decision-Reaches, cabac_encode_bypass-Reaches,
  cabac_encode_terminal-Reaches,
}
use bc250_vulkan_encode_stop.Cabac.Decoder.{decode_all, request, bit_of}
use bc250_vulkan_encode_stop.Cabac.Inverse.{
  Inside, decoder_at, Decodes, decode-decision, decode_bypass-code_bin, decode_terminate-code_bin,
}

unfoldable pub IsNormal : Coder → Type 0
IsNormal c = (256 ≤ c.range) × (c.range ≤ 510) × HasStates c.state

unfoldable pub AllInTable : List Bin → Type 0
unfolding InTable
AllInTable [] = Unit
AllInTable (b ∷ bs) = InTable b × AllInTable bs

-- One call of the source for one bin.
unfoldable pub encode_bin : CabacEngine → Bin → CabacEngine
encode_bin e (decision ctx bit) = cabac_encode_decision e ctx bit
encode_bin e (bypass bit) = cabac_encode_bypass e bit
encode_bin e terminal = cabac_encode_terminal e

unfoldable pub encode_bins : CabacEngine → List Bin → CabacEngine
unfolding encode_bin
encode_bins e [] = e
encode_bins e (b ∷ bs) = encode_bins (encode_bin e b) bs

pub encode_bin-Reaches :
    (e : CabacEngine) (b : Bin)
    → IsCoder e
    → InTable b
    → (encode_bin e b).buffer.overflow ≡ false
    → Reaches e (code_bin (view e) b) (encode_bin e b)
unfolding encode_bin InTable
encode_bin-Reaches e (decision ctx bit) coding h = cabac_encode_decision-Reaches e ctx bit coding h
encode_bin-Reaches e (bypass bit) coding h = cabac_encode_bypass-Reaches e bit coding
encode_bin-Reaches e terminal coding h = cabac_encode_terminal-Reaches e coding

pub cabac_putbyte-unflagged :
    (e : CabacEngine) → (cabac_putbyte e).buffer.overflow ≡ false → e.buffer.overflow ≡ false
unfolding cabac_putbyte put_out
cabac_putbyte-unflagged e =
    if_split (λ (after : CabacEngine). after.buffer.overflow ≡ false → e.buffer.overflow ≡ false)
      (ltb e.queue 9) (λ early ok. ok)
      (λ late.
        if_split
          (λ (after : CabacEngine). after.buffer.overflow ≡ false → e.buffer.overflow ≡ false)
          (e.low / 2 ^ (e.queue + 1) % 256 == 255) (λ ones ok. ok)
          (λ other ok.
            put_bytes-unflagged e.bytes_outstanding (e.low / 2 ^ (e.queue + 1)) e.buffer ok))

cabac_encode_renorm-unflagged :
    (e : CabacEngine) → (cabac_encode_renorm e).buffer.overflow ≡ false → e.buffer.overflow ≡ false
unfolding cabac_encode_renorm
cabac_encode_renorm-unflagged e ok =
    let shift = get_or cabac_renorm_shift (e.range / 8) 0 in
    cabac_putbyte-unflagged
      (record e { range = e.range * 2 ^ shift; low = e.low * 2 ^ shift; queue = e.queue + shift })
      ok

pub take_part-buffer :
    (e : CabacEngine) (is_lps : Bool) (lps : ℕ) → (take_part e is_lps lps).buffer ≡ e.buffer
unfolding take_part
take_part-buffer e true lps = refl
take_part-buffer e false lps = refl

encode_bin-unflagged :
    (e : CabacEngine) (b : Bin)
    → (encode_bin e b).buffer.overflow ≡ false
    → e.buffer.overflow ≡ false
unfolding encode_bin cabac_encode_decision cabac_encode_bypass cabac_encode_terminal
encode_bin-unflagged e (decision ctx bit) ok =
    let p = get_or e.state ctx 0 in
    let lps = range_lps p e.range in
    let part = take_part e (differs bit (odd p)) lps in
    let unflagged =
      cabac_encode_renorm-unflagged (record part { state = set e.state ctx (next_state p bit) })
        ok in
    rw (← take_part-buffer e (differs bit (odd p)) lps) unflagged
encode_bin-unflagged e (bypass bit) ok =
    cabac_putbyte-unflagged
      (record e { low = e.low * 2 + (if bit then e.range else 0); queue = e.queue + 1 }) ok
encode_bin-unflagged e terminal ok =
    cabac_encode_renorm-unflagged (record e { range = e.range - 2 }) ok

pub encode_bins-unflagged :
    (e : CabacEngine) (bins : List Bin)
    → (encode_bins e bins).buffer.overflow ≡ false
    → e.buffer.overflow ≡ false
unfolding encode_bins
encode_bins-unflagged e [] ok = ok
encode_bins-unflagged e (b ∷ bs) ok =
    encode_bin-unflagged e b (encode_bins-unflagged (encode_bin e b) bs ok)

-- From an engine in order, and for bins whose contexts are in the table, the encoding functions
-- lead without overflow to an engine in order that stands for the exact arithmetic coder after
-- the same bins: low, range, number of shifts and context states agree, and no carry is lost.
pub encode_bins-Reaches :
    (e : CabacEngine) (bins : List Bin)
    → IsCoder e
    → AllInTable bins
    → (encode_bins e bins).buffer.overflow ≡ false
    → Reaches e (code_bins (view e) bins) (encode_bins e bins)
unfolding encode_bins code_bins AllInTable Reaches
encode_bins-Reaches e [] coding h ok = (coding, refl, refl, ok)
encode_bins-Reaches e (b ∷ bs) coding h ok =
    let first = encode_bin-Reaches e b coding h.0 (encode_bins-unflagged (encode_bin e b) bs ok) in
    let (coding_next, same, kept, unflagged) = first in
    let (coding_last, same_last, kept_last, unflagged_next) =
      encode_bins-Reaches (encode_bin e b) bs coding_next h.1 ok in
    (coding_last, same_last ∙ ap (λ (c : Coder). code_bins c bs) same, kept_last ∙ kept, unflagged)

narrow-IsNormal :
    (c : Coder) (delta r : ℕ) → 6 ≤ r → r ≤ 510 → HasStates c.state → IsNormal (narrow c delta r)
unfolding IsNormal narrow
narrow-IsNormal c delta r low high states =
    let (same, small, least, most) = shift-doublings r low high in (least, most, states)

narrow_to-IsNormal :
    (c : Coder) (is_lps : Bool) (lps : ℕ) (state : List ℕ)
    → 6 ≤ lps
    → lps + 6 ≤ c.range
    → c.range ≤ 510
    → HasStates state
    → IsNormal (record (narrow_to c is_lps lps) { state = state })
unfolding narrow_to narrow IsNormal
narrow_to-IsNormal c true lps state least rest high states =
    let (same, small, low, most) = shift-doublings lps least (omega (arith, rest)) in
    (low, most, states)
narrow_to-IsNormal c false lps state least rest high states =
    let (same, small, low, most) =
      shift-doublings (c.range - lps) (omega (arith, rest)) (omega arith) in
    (low, most, states)

pub code_bin-IsNormal : (c : Coder) (b : Bin) → IsNormal c → InTable b → IsNormal (code_bin c b)
unfolding code_bin code_decision IsNormal InTable HasStates
code_bin-IsNormal c (decision ctx bit) (low, high, states) h =
    let p = get_or c.state ctx 0 in
    let usual = states.1 ctx h in
    let (least, most, rest) = range_lps-bounds p c.range usual low high in
    narrow_to-IsNormal c (differs bit (odd p)) (range_lps p c.range)
      (set c.state ctx (next_state p bit)) least rest high
      (HasStates-set c.state ctx (next_state p bit) states (next_state-IsState p bit usual))
code_bin-IsNormal c (bypass bit) normal h = normal
code_bin-IsNormal c terminal (low, high, states) h =
    narrow-IsNormal c 0 (c.range - 2) (omega (arith, low)) (omega arith) states

decode-code_bin :
    (x n : ℕ) (c : Coder) (b : Bin)
    → IsNormal c
    → InTable b
    → Inside x n (code_bin c b)
    → Decodes x n c b
unfolding IsNormal InTable HasStates
decode-code_bin x n c (decision ctx bit) (low, high, states) h inside =
    let (least, most, rest) =
      range_lps-bounds (get_or c.state ctx 0) c.range (states.1 ctx h) low high in
    decode-decision x n c ctx bit (omega (arith, rest)) inside
decode-code_bin x n c (bypass bit) normal h inside = decode_bypass-code_bin x n c bit inside
decode-code_bin x n c terminal (low, high, states) h inside =
    decode_terminate-code_bin x n c (omega (arith, low)) inside

-- On a number inside the last interval, the decoder finds every bin.
pub decode_all-code_bins :
    (x n : ℕ) (c : Coder) (bins : List Bin)
    → IsNormal c
    → AllInTable bins
    → Inside x n (code_bins c bins)
    → (decode_all (map request bins) (decoder_at x n c)
        ≡ some (map bit_of bins, decoder_at x n (code_bins c bins)))
      × Inside x n c
unfolding decode_all code_bins AllInTable Decodes
decode_all-code_bins x n c [] normal h inside = (refl, inside)
decode_all-code_bins x n c (b ∷ bs) normal h inside =
    let (rest, inside_next) =
      decode_all-code_bins x n (code_bin c b) bs (code_bin-IsNormal c b normal h.0) h.1 inside in
    let (first, whole) = decode-code_bin x n c b normal h.0 inside_next in
    (rw (first, rest) refl, whole)
