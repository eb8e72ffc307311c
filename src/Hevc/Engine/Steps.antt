-- ===== src/Hevc/Engine/Steps.antt =====
-- Every bin that the functions of hevc_cabac.c code, against the exact arithmetic coder.
use native.Mathlib.Nat.{pow-le-pow_right, mul-le-mul_right, mod-eq_of_lt}
use bc250_vulkan_encode_stop.Base.{
  ℕ, zero, suc, ◌+◌, ◌-◌, ◌*◌, ◌%◌, ◌^◌, ◌≤◌, ◌<◌, ◌≡◌, refl, sym, ap, ◌∙◌, arith, Bool, true,
  false, List, [], ◌∷◌, map, length, if◌then◌else◌, ◌==◌, set, get_or,
}
use bc250_vulkan_encode_stop.Bits.{odd, two_pow_add}
use bc250_vulkan_encode_stop.Cabac.{range_lps, next_state, differs}
use bc250_vulkan_encode_stop.Cabac.Exact.{
  Coder, doublings, narrow, narrow_to, code_decision, IsState, shift-doublings, range_lps-bounds,
}
use bc250_vulkan_encode_stop.Cabac.Moves.{coder_eq}
use bc250_vulkan_encode_stop.Hevc.Engine.{
  HevcCabac, state_after, lps_of, lps_num_bits, mps_num_bits, shifted, narrowed,
}
use bc250_vulkan_encode_stop.Hevc.Engine.Drain.{counterpart, stand_for, InOrder, Follows}
use bc250_vulkan_encode_stop.Hevc.Engine.Interval.{
  state_after-next_state, state_after-IsUsable, lps_of-range_lps, lps_of-room,
  mps_num_bits-doublings,
}
use bc250_vulkan_encode_stop.Hevc.Engine.Start.{set-AllUsable}

pub scaled : (v n k : ℕ) → v ≤ 2 ^ k → v * 2 ^ n ≤ 2 ^ (n + k)
scaled v n k h = rw (two_pow_add n k) (mul-le-mul_right (2 ^ n) h)

-- A register of at most 27 bits does not wrap.
pub unwrapped : (v k : ℕ) → k ≤ 27 → v ≤ 2 ^ k → v % 2 ^ 32 ≡ v
unwrapped v k h small =
    let large = pow-le-pow_right {n = 2} (omega arith) {i = k} {j = 27} h in
    mod-eq_of_lt (omega (arith, small, large))

-- The code's shift narrows the exact coder to the same part.
shifted-stand_for :
    (cb : HevcCabac) (sent count v delta r n : ℕ)
    → v ≡ cb.low + delta
    → n ≡ doublings 8 r
    → v * 2 ^ n % 2 ^ 32 ≡ v * 2 ^ n
    → narrow (stand_for cb sent count) delta r ≡ stand_for (shifted n v r cb) sent count
unfolding narrow stand_for shifted
shifted-stand_for cb sent count v delta r n same steps fits =
    let above : cb.bits + n + 9 ≡ n + (cb.bits + 9) = omega arith in
    let low : (sent * 2 ^ (cb.bits + 9) + cb.low + delta) * 2 ^ doublings 8 r
        ≡ sent * 2 ^ (cb.bits + n + 9) + v * 2 ^ n % 2 ^ 32 =
      rw (← steps)
        (rw fits (rw above (rw (two_pow_add n (cb.bits + 9)) (rw same (omega arith))))) in
    coder_eq (narrow (stand_for cb sent count) delta r) (stand_for (shifted n v r cb) sent count)
      low (ap (λ (k : ℕ). r * 2 ^ k) (sym steps)) (omega (arith, steps)) refl

pub shifted-Follows :
    (cb : HevcCabac) (sent count v delta r n : ℕ)
    → v ≡ cb.low + delta
    → delta + r ≤ cb.range
    → 6 ≤ r
    → n ≡ doublings 8 r
    → InOrder 12 cb
    → Follows 20 (narrow (stand_for cb sent count) delta r) (shifted n v r cb)
unfolding Follows InOrder shifted
shifted-Follows cb sent count v delta r n same part least steps (few, low, high, room, usable) =
    let (table, small, up, down) = shift-doublings r least (omega (arith, part, high)) in
    let top : cb.bits + n + 10 ≡ n + (cb.bits + 10) = omega arith in
    let whole : (v + r) * 2 ^ n ≤ 2 ^ (cb.bits + n + 10) =
      rw top (scaled (v + r) n (cb.bits + 10) (omega (arith, same, part, room))) in
    let fits : v * 2 ^ n % 2 ^ 32 ≡ v * 2 ^ n =
      unwrapped (v * 2 ^ n) (cb.bits + n + 10) (omega (arith, few, steps, small))
        (omega (arith, whole)) in
    (
      (
        omega (arith, few, steps, small),
        rw steps up,
        rw steps down,
        rw fits (omega (arith, whole)),
        usable,
      ),
      (sent, (count, shifted-stand_for cb sent count v delta r n same steps fits)),
    )

get_or-counterpart :
    (ctx : List ℕ) (i : ℕ)
    → i < length ctx
    → get_or (map counterpart ctx) i 0 ≡ counterpart (get_or ctx i 0)
get_or-counterpart [] i h = elim h [ ]
get_or-counterpart (s ∷ ss) zero h = refl
get_or-counterpart (s ∷ ss) (suc i) h = get_or-counterpart ss i (omega arith)

set-counterpart :
    (ctx : List ℕ) (i v : ℕ)
    → map counterpart (set ctx i v) ≡ set (map counterpart ctx) i (counterpart v)
set-counterpart [] i v = refl
set-counterpart (s ∷ ss) zero v = refl
set-counterpart (s ∷ ss) (suc i) v = ap (λ rest. counterpart s ∷ rest) (set-counterpart ss i v)

odd-counterpart : (s : ℕ) → s < 126 → odd (counterpart s) ≡ odd s
odd-counterpart s h =
    let same : counterpart s % 2 ≡ s % 2 = omega arith in ap (λ (b : ℕ). b == 1) same

with_state :
    (c : Coder) (is_lps : Bool) (lps : ℕ) (state : List ℕ)
    → record (narrow_to c is_lps lps) { state = state }
      ≡ narrow_to (record c { state = state }) is_lps lps
unfolding narrow_to narrow
with_state c true lps state = refl
with_state c false lps state = refl

decided :
    (c : Coder) (ctx : ℕ) (bit is_lps : Bool) (lps : ℕ) (state : List ℕ)
    → differs bit (odd (get_or c.state ctx 0)) ≡ is_lps
    → range_lps (get_or c.state ctx 0) c.range ≡ lps
    → set c.state ctx (next_state (get_or c.state ctx 0) bit) ≡ state
    → code_decision c ctx bit ≡ narrow_to (record c { state = state }) is_lps lps
unfolding code_decision
decided c ctx bit is_lps lps state h k l =
    (λ i. record (narrow_to c (h i) (k i)) { state = l i }) ∙ with_state c is_lps lps state

-- The register with the next state of the context.
moved_on : HevcCabac → ℕ → Bool → HevcCabac
unfolding state_after
moved_on cb ctx_idx bit = record cb {
  ctx = set cb.ctx ctx_idx (state_after (get_or cb.ctx ctx_idx 0) bit);
}

code_decision-moved_on :
    (cb : HevcCabac) (sent count ctx_idx : ℕ) (bit : Bool)
    → ctx_idx < length cb.ctx
    → InOrder 12 cb
    → code_decision (stand_for cb sent count) ctx_idx bit
      ≡ narrow_to
          (stand_for (moved_on cb ctx_idx bit) sent count)
          (differs bit (odd (get_or cb.ctx ctx_idx 0)))
          (lps_of (get_or cb.ctx ctx_idx 0) cb.range)
unfolding moved_on stand_for InOrder
code_decision-moved_on cb sent count ctx_idx bit h (few, low, high, room, usable) =
    let s = get_or cb.ctx ctx_idx 0 in
    let found = get_or-counterpart cb.ctx ctx_idx h in
    let share = (lps_of-range_lps s cb.range (usable ctx_idx) low high).0 in
    decided (stand_for cb sent count) ctx_idx bit (differs bit (odd s)) (lps_of s cb.range)
      (map counterpart (set cb.ctx ctx_idx (state_after s bit)))
      (ap (λ (p : ℕ). differs bit (odd p)) found
        ∙ ap (differs bit) (odd-counterpart s (usable ctx_idx)))
      (ap (λ (p : ℕ). range_lps p cb.range) found ∙ sym share)
      (ap (λ (p : ℕ). set (map counterpart cb.ctx) ctx_idx (next_state p bit)) found
        ∙ (ap (set (map counterpart cb.ctx) ctx_idx)
              (sym (state_after-next_state s bit (usable ctx_idx)))
            ∙ sym (set-counterpart cb.ctx ctx_idx (state_after s bit))))

counterpart-IsState : (s : ℕ) → s < 126 → IsState (counterpart s)
unfolding IsState
counterpart-IsState s h = (omega arith, omega arith)

-- Both cases of `encode_bin`.
branch-Follows :
    (next : HevcCabac) (sent count s lps : ℕ) (is_lps : Bool)
    → InOrder 12 next
    → 6 ≤ lps
    → lps + 128 ≤ next.range
    → lps_num_bits s lps ≡ doublings 8 lps
    → Follows 20 (narrow_to (stand_for next sent count) is_lps lps) (
        if is_lps
        then shifted (lps_num_bits s lps) ((next.low + (next.range - lps)) % 2 ^ 32) lps next
        else shifted (mps_num_bits (next.range - lps)) next.low (next.range - lps) next)
unfolding narrow_to InOrder stand_for
branch-Follows next sent count s lps true (few, low, high, room, usable) least rest steps =
    let part = next.range - lps in
    let kept : (next.low + part) % 2 ^ 32 ≡ next.low + part =
      unwrapped (next.low + part) (next.bits + 10) (omega (arith, few)) (omega (arith, room)) in
    shifted-Follows next sent count ((next.low + part) % 2 ^ 32) part lps (lps_num_bits s lps) kept
      (omega (arith, rest)) least steps (few, low, high, room, usable)
branch-Follows next sent count s lps false (few, low, high, room, usable) least rest steps =
    let part = next.range - lps in
    shifted-Follows next sent count next.low 0 part (mps_num_bits part) (omega arith) (omega arith)
      (omega (arith, rest))
      (mps_num_bits-doublings part (omega (arith, rest)) (omega (arith, high)))
      (few, low, high, room, usable)

moved_on-InOrder :
    (cb : HevcCabac) (ctx_idx : ℕ) (bit : Bool)
    → InOrder 12 cb
    → InOrder 12 (moved_on cb ctx_idx bit)
unfolding moved_on InOrder
moved_on-InOrder cb ctx_idx bit (few, low, high, room, usable) =
    let s = get_or cb.ctx ctx_idx 0 in
    (
      few,
      low,
      high,
      room,
      set-AllUsable cb.ctx ctx_idx (state_after s bit) (state_after-IsUsable s bit (usable ctx_idx))
          usable,
    )

pub narrowed-Follows :
    (cb : HevcCabac) (sent count ctx_idx bin : ℕ)
    → ctx_idx < length cb.ctx
    → InOrder 12 cb
    → Follows 20
        (code_decision (stand_for cb sent count) ctx_idx (odd bin))
        (narrowed ctx_idx bin cb)
unfolding narrowed moved_on InOrder
narrowed-Follows cb sent count ctx_idx bin h (few, low, high, room, usable) =
    let s = get_or cb.ctx ctx_idx 0 in
    let (share, steps) = lps_of-range_lps s cb.range (usable ctx_idx) low high in
    let least =
      (range_lps-bounds (counterpart s) cb.range (counterpart-IsState s (usable ctx_idx)) low
        high).0 in
    rw (code_decision-moved_on cb sent count ctx_idx (odd bin) h (few, low, high, room, usable)) (
      branch-Follows (moved_on cb ctx_idx (odd bin)) sent count s (lps_of s cb.range)
        (differs (odd bin) (odd s))
        (moved_on-InOrder cb ctx_idx (odd bin) (few, low, high, room, usable))
        (omega (arith, least, share)) (lps_of-room s cb.range (usable ctx_idx) low high) steps)
