-- ===== src/Hevc/Engine/Plain.antt =====
-- The bins of hevc_cabac.c that have no context: those of `encode_bypass` and the zero bins of
-- `hevc_cabac_encode_terminate`.
use bc250_vulkan_encode_stop.Base.{
  ℕ, ◌+◌, ◌-◌, ◌*◌, ◌%◌, ◌^◌, ◌≤◌, ◌<◌, ◌≡◌, refl, ap, arith, Bool, true, false, if◌then◌else◌, leb,
  leb→le, le→leb, leb-false, if_split,
}
use bc250_vulkan_encode_stop.Bits.{two_pow_add}
use bc250_vulkan_encode_stop.Cabac.Exact.{bypass, terminal, doublings, narrow, code_bin}
use bc250_vulkan_encode_stop.Cabac.Moves.{coder_eq}
use bc250_vulkan_encode_stop.Hevc.Elements.{flag}
use bc250_vulkan_encode_stop.Hevc.Engine.{
  HevcCabac, shifted, chosen, hevc_cabac_encode_terminate, not_terminated,
}
use bc250_vulkan_encode_stop.Hevc.Engine.Drain.{stand_for, InOrder, Follows, drain-Follows}
use bc250_vulkan_encode_stop.Hevc.Engine.Steps.{shifted-Follows, unwrapped, scaled}

doubled_low :
    (sent low range v b : ℕ)
    → (sent * 2 ^ (b + 9) + low) * 2 + range * v
      ≡ sent * 2 ^ (b + 1 + 9) + (low * 2 ^ 1 + range * v)
doubled_low sent low range v b =
    let above : b + 1 + 9 ≡ 1 + (b + 9) = omega arith in
    rw above (omega (arith, ap (λ (t : ℕ). sent * t) (two_pow_add 1 (b + 9))))

one_bit : (bit : Bool) (range : ℕ) → (if bit then range else 0) ≡ range * flag bit
one_bit true range = omega arith
one_bit false range = omega arith

pub bypassed-Follows :
    (cb : HevcCabac) (sent count : ℕ) (bit : Bool)
    → InOrder 12 cb
    → Follows 20 (code_bin (stand_for cb sent count) (bypass bit)) (chosen 1 (flag bit) cb)
unfolding code_bin stand_for chosen Follows InOrder
bypassed-Follows cb sent count bit (few, low, high, room, usable) =
    let v = flag bit in
    let small : v ≤ 1 = elim bit as (λ b. flag b ≤ 1) [
      | true ↦ omega arith
      | false ↦ omega arith
    ] in
    let part : cb.range * v ≤ cb.range = elim bit as (λ b. cb.range * flag b ≤ cb.range) [
      | true ↦ omega arith
      | false ↦ omega arith
    ] in
    let top : cb.bits + 1 + 10 ≡ 1 + (cb.bits + 10) = omega arith in
    let whole : (cb.low + cb.range) * 2 ^ 1 ≤ 2 ^ (cb.bits + 1 + 10) =
      rw top (scaled (cb.low + cb.range) 1 (cb.bits + 10) room) in
    let next = cb.low * 2 ^ 1 + cb.range * v in
    let fits : next % 2 ^ 32 ≡ next =
      unwrapped next (cb.bits + 1 + 10) (omega (arith, few)) (omega (arith, whole, part)) in
    let exact =
      coder_eq (code_bin (stand_for cb sent count) (bypass bit))
        (stand_for (chosen 1 v cb) sent count)
        (rw fits (rw (one_bit bit cb.range) (doubled_low sent cb.low cb.range v cb.bits))) refl
        (omega arith) refl in
    (
      (omega (arith, few), low, high, rw fits (omega (arith, whole, part)), usable),
      (sent, (count, exact)),
    )

no_doublings : (r : ℕ) → 256 ≤ r → doublings 8 r ≡ 0
unfolding doublings
no_doublings r h = rw (le→leb 256 r h) refl

-- A zero bin that needs no shift.
unshifted-Follows :
    (cb : HevcCabac) (sent count r : ℕ)
    → 256 ≤ r
    → r ≤ cb.range
    → InOrder 12 cb
    → Follows 12 (narrow (stand_for cb sent count) 0 r) (record cb { range = r })
unfolding narrow stand_for Follows InOrder
unshifted-Follows cb sent count r least part (few, low, high, room, usable) =
    let none_left = no_doublings r least in
    let exact =
      coder_eq (narrow (stand_for cb sent count) 0 r)
        (stand_for (record cb { range = r }) sent count) (rw none_left (omega arith))
        (rw none_left (omega arith)) (rw none_left (omega arith)) refl in
    (
      (few, least, omega (arith, part, high), omega (arith, part, room), usable),
      (sent, (count, exact)),
    )

one_doubling : (r : ℕ) → 254 ≤ r → r < 256 → 1 ≡ doublings 8 r
unfolding doublings
one_doubling r low high =
    rw (leb-false 256 r high) (rw (le→leb 256 (r * 2) (omega (arith, low))) refl)

below_of_test : (a b : ℕ) → leb a b ≡ false → b < a
below_of_test a b h = ground arith

not_terminated-Follows :
    (cb : HevcCabac) (sent count r : ℕ)
    → 254 ≤ r
    → r ≤ cb.range
    → InOrder 12 cb
    → Follows 12 (narrow (stand_for cb sent count) 0 r) (not_terminated r cb)
unfolding not_terminated
not_terminated-Follows cb sent count r least part fine =
    if_split (λ (after : HevcCabac). Follows 12 (narrow (stand_for cb sent count) 0 r) after)
      (leb 256 r) (λ h. unshifted-Follows cb sent count r (leb→le 256 r h) part fine)
      (λ h. drain-Follows (narrow (stand_for cb sent count) 0 r) (shifted 1 cb.low r cb) (
        shifted-Follows cb sent count cb.low 0 r 1 (omega arith) (omega (arith, part))
          (omega (arith, least)) (one_doubling r least (omega (arith, below_of_test 256 r h)))
          fine))

pub terminal_case :
    (cb : HevcCabac) (sent count : ℕ)
    → InOrder 12 cb
    → Follows 12
        (code_bin (stand_for cb sent count) terminal)
        (hevc_cabac_encode_terminate false cb)
unfolding code_bin stand_for hevc_cabac_encode_terminate InOrder
terminal_case cb sent count (few, low, high, room, usable) =
    not_terminated-Follows cb sent count (cb.range - 2) (omega (arith, low)) (omega arith)
      (few, low, high, room, usable)
