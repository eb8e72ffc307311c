-- ===== src/Hevc/Engine/Drain.antt =====
-- What the loop around `cabac_write_out` of hevc_cabac.c keeps: the exact `low` of the arithmetic
-- coder is a number over the register, to which a byte is added when one leaves.
use native.Mathlib.Nat.{div-add-mod', mod-lt}
use bc250_vulkan_encode_stop.Base.{
  ℕ, zero, suc, ◌+◌, ◌-◌, ◌*◌, ◌/◌, ◌%◌, ◌^◌, ◌≤◌, ◌<◌, ◌≡◌, refl, sym, ap, inl, inr, ◌∙◌, arith,
  Bool, map, ◌==◌, if◌then◌else◌, if_split, leb-false, le→leb, ltb, ltb→lt, ltb_false→le,
  Bool-cases,
}
use bc250_vulkan_encode_stop.Bits.{two_pow_add, two_pow_pos}
use bc250_vulkan_encode_stop.Cabac.Exact.{Coder}
use bc250_vulkan_encode_stop.Cabac.Moves.{coder_eq}
use bc250_vulkan_encode_stop.Hevc.Engine.{HevcCabac, hold, cabac_write_out, drain_loop, drain}
use bc250_vulkan_encode_stop.Hevc.Engine.Start.{AllUsable}

-- The state of cabac.c that stands for one of hevc_cabac.c: the probabilities are counted from
-- the other end.
abbrev pub counterpart : ℕ → ℕ
counterpart s = (63 - s / 2) * 2 + s % 2

-- The exact coder after `count` bytes have left the register, with `sent` for their number.
unfoldable pub stand_for : HevcCabac → ℕ → ℕ → Coder
stand_for cb sent count = record {
  low = sent * 2 ^ (cb.bits + 9) + cb.low;
  range = cb.range;
  shifts = cb.bits + 8 * count;
  state = map counterpart cb.ctx;
}

-- The register, with fewer than `limit` bits.
unfoldable pub InOrder : ℕ → HevcCabac → Type 0
InOrder limit cb =
    (cb.bits < limit)
    × (256 ≤ cb.range)
    × (cb.range ≤ 510)
    × (cb.low + cb.range ≤ 2 ^ (cb.bits + 10))
    × AllUsable cb.ctx

-- The register between two bins, for the exact coder.
unfoldable pub Follows : ℕ → Coder → HevcCabac → Type 0
unfolding InOrder stand_for
Follows limit c cb = InOrder limit cb × ((sent : ℕ) × ((count : ℕ) × (c ≡ stand_for cb sent count)))

hold-stand_for :
    (lead : ℕ) (cb : HevcCabac) (sent count : ℕ)
    → stand_for (hold lead cb) sent count ≡ stand_for cb sent count
unfolding hold stand_for
hold-stand_for lead cb sent count =
    if_split (λ (after : HevcCabac). stand_for after sent count ≡ stand_for cb sent count)
      (lead == 255) (λ h. refl) (λ h. refl)

hold-InOrder : (limit lead : ℕ) (cb : HevcCabac) → InOrder limit cb → InOrder limit (hold lead cb)
unfolding hold InOrder
hold-InOrder limit lead cb fine =
    if_split (λ (after : HevcCabac). InOrder limit after) (lead == 255) (λ h. fine) (λ h. fine)

-- The register without its leading byte.
lowered : HevcCabac → HevcCabac
lowered cb = record cb { bits = cb.bits - 8; low = cb.low % 2 ^ (cb.bits + 1) }

split_low :
    (sent low k : ℕ) → sent * 2 ^ (8 + k) + low ≡ (sent * 256 + low / 2 ^ k) * 2 ^ k + low % 2 ^ k
split_low sent low k =
    omega (arith, ap (λ (t : ℕ). sent * t) (two_pow_add 8 k), div-add-mod' low (2 ^ k))

lowered-stand_for :
    (cb : HevcCabac) (sent count : ℕ)
    → 8 ≤ cb.bits
    → stand_for cb sent count
      ≡ stand_for (lowered cb) (sent * 256 + cb.low / 2 ^ (cb.bits + 1)) (count + 1)
unfolding stand_for lowered
lowered-stand_for cb sent count h =
    let above : cb.bits + 9 ≡ 8 + (cb.bits + 1) = omega arith in
    let below : cb.bits - 8 + 9 ≡ cb.bits + 1 = omega (arith, h) in
    let low : sent * 2 ^ (cb.bits + 9) + cb.low
        ≡ (sent * 256 + cb.low / 2 ^ (cb.bits + 1)) * 2 ^ (cb.bits - 8 + 9)
          + cb.low % 2 ^ (cb.bits + 1) =
      rw above (rw below (split_low sent cb.low (cb.bits + 1))) in
    coder_eq (stand_for cb sent count)
      (stand_for (lowered cb) (sent * 256 + cb.low / 2 ^ (cb.bits + 1)) (count + 1)) low refl
      (omega (arith, h)) refl

-- Nine more bits hold a range with anything below them.
room_left : (low range k : ℕ) → low < 2 ^ (k + 9) → range ≤ 510 → low + range ≤ 2 ^ (1 + (k + 9))
room_left low range k h small =
    omega (arith, h, small, two_pow_add 1 (k + 9), two_pow_add k 9, two_pow_pos k)

lowered-InOrder : (cb : HevcCabac) → 12 ≤ cb.bits → InOrder 20 cb → InOrder 12 (lowered cb)
unfolding InOrder lowered
lowered-InOrder cb late (few, low, high, room, usable) =
    let k = cb.bits - 8 in
    let width : cb.bits + 1 ≡ k + 9 = omega (arith, late) in
    let rest : cb.low % 2 ^ (cb.bits + 1) < 2 ^ (k + 9) =
      rw (← width) (mod-lt cb.low (two_pow_pos (cb.bits + 1))) in
    let top : k + 10 ≡ 1 + (k + 9) = omega arith in
    (
      omega (arith, few),
      low,
      high,
      rw top (room_left (cb.low % 2 ^ (cb.bits + 1)) cb.range k rest high),
      usable,
    )

-- One byte leaves a register that has twelve bits.
cabac_write_out-Follows :
    (c : Coder) (cb : HevcCabac)
    → 12 ≤ cb.bits
    → Follows 20 c cb
    → Follows 12 c (cabac_write_out cb)
unfolding Follows cabac_write_out lowered
cabac_write_out-Follows c cb late (fine, (sent, (count, same))) =
    let lead = cb.low / 2 ^ (cb.bits + 1) in
    let kept =
      same
      ∙ (lowered-stand_for cb sent count (omega (arith, late))
          ∙ sym (hold-stand_for lead (lowered cb) (sent * 256 + lead) (count + 1))) in
    (
      hold-InOrder 12 lead (lowered cb) (lowered-InOrder cb late fine),
      (sent * 256 + lead, (count + 1, kept)),
    )

drain_loop-few : (fuel : ℕ) (cb : HevcCabac) → cb.bits < 12 → drain_loop fuel cb ≡ cb
unfolding drain_loop
drain_loop-few zero cb few = refl
drain_loop-few (suc fuel) cb few =
    ap (λ (b : Bool). if b then drain_loop fuel (cabac_write_out cb) else cb)
      (leb-false 12 cb.bits few)

drain_loop-once :
    (fuel : ℕ) (cb : HevcCabac)
    → 12 ≤ cb.bits
    → (cabac_write_out cb).bits < 12
    → drain_loop (suc fuel) cb ≡ cabac_write_out cb
unfolding drain_loop
drain_loop-once fuel cb late few =
    ap (λ (b : Bool). if b then drain_loop fuel (cabac_write_out cb) else cb)
      (le→leb 12 cb.bits late)
    ∙ drain_loop-few fuel (cabac_write_out cb) few

-- The loop leaves fewer than twelve bits and keeps the exact coder.
pub drain-Follows : (c : Coder) (cb : HevcCabac) → Follows 20 c cb → Follows 12 c (drain cb)
unfolding drain Follows InOrder
drain-Follows c cb ((few, low, high, room, usable), exact) = elim (Bool-cases (ltb cb.bits 12)) [
  | inl early ↦
      rw (drain_loop-few (cb.bits / 8) cb (ltb→lt cb.bits 12 early))
        ((ltb→lt cb.bits 12 early, low, high, room, usable), exact)
  | inr late ↦
      let after =
        cabac_write_out-Follows c cb (ltb_false→le cb.bits 12 late)
          ((few, low, high, room, usable), exact) in
      let counted : cb.bits / 8 ≡ suc (cb.bits / 8 - 1) =
        omega (arith, ltb_false→le cb.bits 12 late) in
      rw counted
        (rw (drain_loop-once (cb.bits / 8 - 1) cb (ltb_false→le cb.bits 12 late) after.0.0) after)
]
