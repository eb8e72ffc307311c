-- ===== src/Cabac/Steps.antt =====
-- Every operation of the engine in cabac.c narrows the interval of the exact coder.
use native.Mathlib.Nat.{mul-le-mul_right, add-mul}
use bc250_vulkan_encode_stop.Base.{
  ℕ, zero, suc, ◌+◌, ◌-◌, ◌*◌, ◌^◌, ◌≤◌, ◌<◌, ◌≡◌, refl, ◌∙◌, arith, Bool, true, false, List, [],
  ◌∷◌, length, set, get_or, length-set, if◌then◌else◌,
}
use bc250_vulkan_encode_stop.Bits.{odd}
use bc250_vulkan_encode_stop.Cabac.{
  CabacEngine, take_part, cabac_encode_renorm, cabac_encode_decision, cabac_encode_bypass,
  cabac_encode_terminal, range_lps, next_state, differs,
}
use bc250_vulkan_encode_stop.Cabac.Invariant.{value}
use bc250_vulkan_encode_stop.Cabac.Exact.{
  Bin, decision, bypass, terminal, code_bin, narrow, code_decision, narrow_to, doublings, IsState,
  range_lps-bounds, shift-doublings, next_state-IsState,
}
use bc250_vulkan_encode_stop.Cabac.Moves.{view, HasStates, IsCoder, Reaches, moved-Reaches}

-- RenormE of a part of the interval, against the table of shifts.
narrowed-Reaches :
    (e : CabacEngine) (delta r : ℕ) (state : List ℕ)
    → IsCoder e
    → 6 ≤ r
    → delta + r ≤ e.range
    → HasStates state
    → (cabac_encode_renorm
        (record e { low = e.low + delta; range = r; state = state })).buffer.overflow
      ≡ false
    → Reaches e
        (record (narrow (view e) delta r) { state = state })
        (cabac_encode_renorm (record e { low = e.low + delta; range = r; state = state }))
unfolding cabac_encode_renorm narrow view IsCoder
narrowed-Reaches e delta r state coding least h states =
    let (same, small, low, high) = shift-doublings r least (omega (arith, coding.1)) in
    let s = doublings 8 r in
    rw (same, add-mul e.low delta (2 ^ s), add-mul (value e) delta (2 ^ s))
      (moved-Reaches e s (delta * 2 ^ s) (r * 2 ^ s) state coding (omega arith)
        (omega (
          arith,
          mul-le-mul_right {m = delta + r} {n = e.range} (2 ^ s) h,
          add-mul delta r (2 ^ s),
        ))
        low high states)

IsState-set :
    (xs : List ℕ) (i j v : ℕ)
    → IsState v
    → IsState (get_or xs j 0)
    → j < length xs
    → IsState (get_or (set xs i v) j 0)
IsState-set [] i j v hv h k = h
IsState-set (x ∷ xs) zero zero v hv h k = hv
IsState-set (x ∷ xs) zero (suc j) v hv h k = h
IsState-set (x ∷ xs) (suc i) zero v hv h k = h
IsState-set (x ∷ xs) (suc i) (suc j) v hv h k = IsState-set xs i j v hv h (omega arith)

pub HasStates-set :
    (state : List ℕ) (ctx v : ℕ) → HasStates state → IsState v → HasStates (set state ctx v)
unfolding HasStates
HasStates-set state ctx v (count, each) hv = (
  length-set state ctx v ∙ count,
  λ i h. IsState-set state ctx i v hv (each i h) (omega (arith, count)),
)

-- The contexts that the tables have.
unfoldable pub InTable : Bin → Type 0
InTable (decision ctx bit) = ctx < 276
InTable (bypass bit) = Unit
InTable terminal = Unit

-- The same with the register written out.
renorm-Reaches :
    (e : CabacEngine) (low delta r : ℕ) (state : List ℕ)
    → low ≡ e.low + delta
    → IsCoder e
    → 6 ≤ r
    → delta + r ≤ e.range
    → HasStates state
    → (cabac_encode_renorm (record e { low = low; range = r; state = state })).buffer.overflow
      ≡ false
    → Reaches e
        (record (narrow (view e) delta r) { state = state })
        (cabac_encode_renorm (record e { low = low; range = r; state = state }))
renorm-Reaches e low delta r state same coding least h states =
    rw same (narrowed-Reaches e delta r state coding least h states)

take_part-Reaches :
    (e : CabacEngine) (is_lps : Bool) (lps : ℕ) (state : List ℕ)
    → IsCoder e
    → 6 ≤ lps
    → lps + 6 ≤ e.range
    → HasStates state
    → (cabac_encode_renorm (record (take_part e is_lps lps) { state = state })).buffer.overflow
      ≡ false
    → Reaches e
        (record (narrow_to (view e) is_lps lps) { state = state })
        (cabac_encode_renorm (record (take_part e is_lps lps) { state = state }))
unfolding take_part narrow_to view
take_part-Reaches e true lps state coding least rest states =
    narrowed-Reaches e (e.range - lps) lps state coding least (omega (arith, rest)) states
take_part-Reaches e false lps state coding least rest states =
    renorm-Reaches e e.low 0 (e.range - lps) state (omega arith) coding (omega (arith, rest))
      (omega arith) states

-- A bin with a context takes the part of the interval that its value and its context have.
pub cabac_encode_decision-Reaches :
    (e : CabacEngine) (ctx : ℕ) (bit : Bool)
    → IsCoder e
    → ctx < 276
    → (cabac_encode_decision e ctx bit).buffer.overflow ≡ false
    → Reaches e (code_bin (view e) (decision ctx bit)) (cabac_encode_decision e ctx bit)
unfolding cabac_encode_decision code_bin code_decision IsCoder HasStates view
cabac_encode_decision-Reaches e ctx bit coding h ok =
    let (low, high, queue, fits, has) = coding in
    let p = get_or e.state ctx 0 in
    let usual = has.1 ctx h in
    let (least, most, rest) = range_lps-bounds p e.range usual low high in
    take_part-Reaches e (differs bit (odd p)) (range_lps p e.range)
      (set e.state ctx (next_state p bit)) coding least rest
      (HasStates-set e.state ctx (next_state p bit) has (next_state-IsState p bit usual)) ok

pub cabac_encode_terminal-Reaches :
    (e : CabacEngine)
    → IsCoder e
    → (cabac_encode_terminal e).buffer.overflow ≡ false
    → Reaches e (code_bin (view e) terminal) (cabac_encode_terminal e)
unfolding cabac_encode_terminal code_bin view IsCoder
cabac_encode_terminal-Reaches e coding =
    let (low, high, queue, fits, has) = coding in
    renorm-Reaches e e.low 0 (e.range - 2) e.state (omega arith) coding (omega (arith, low))
      (omega arith) has

twice_plus :
    (bit : Bool) (low range : ℕ)
    → low * 2 + (if bit then range else 0) ≡ low * 2 ^ 1 + (if bit then range else 0)
twice_plus bit low range = refl

half_of : (bit : Bool) (range : ℕ) → (if bit then range else 0) + range ≤ range * 2
half_of true range = omega arith
half_of false range = omega arith

pub cabac_encode_bypass-Reaches :
    (e : CabacEngine) (bit : Bool)
    → IsCoder e
    → (cabac_encode_bypass e bit).buffer.overflow ≡ false
    → Reaches e (code_bin (view e) (bypass bit)) (cabac_encode_bypass e bit)
unfolding cabac_encode_bypass code_bin view IsCoder
cabac_encode_bypass-Reaches e bit coding =
    let (low, high, queue, fits, has) = coding in
    moved-Reaches e 1 (if bit then e.range else 0) e.range e.state coding (omega arith)
      (half_of bit e.range) low high has
