-- ===== src/Hevc/Engine/Bins.antt =====
-- Sequences of bins through the bin coder of hevc_cabac.c: the decisions of `encode_bin`, the bins
-- of `encode_bypass` and the zero bins of `hevc_cabac_encode_terminate`.
use Prim.{Unit, tt}
use bc250_vulkan_encode_stop.Base.{
  ℕ, ◌<◌, ◌≡◌, refl, sym, ap, ◌∙◌, arith, Bool, true, false, List, [], ◌∷◌, map, length, length-map,
  length-set, get_or,
}
use bc250_vulkan_encode_stop.Base.Int.{ℤ}
use bc250_vulkan_encode_stop.Cabac.Exact.{
  Coder, Bin, decision, bypass, terminal, narrow, code_decision, code_bin, code_bins,
}
use bc250_vulkan_encode_stop.Cabac.{next_state}
use bc250_vulkan_encode_stop.Cabac.Moves.{coder_eq}
use bc250_vulkan_encode_stop.Hevc.Elements.{BinCoder, flag}
use bc250_vulkan_encode_stop.Hevc.Engine.{
  HevcCabac, hevc_cabac_start, chosen, narrowed, encode_bin, encode_bypass, encode_bypass_bins,
  hevc_cabac_encode_terminate,
}
use bc250_vulkan_encode_stop.Hevc.Engine.Drain.{
  counterpart, stand_for, InOrder, Follows, drain-Follows,
}
use bc250_vulkan_encode_stop.Hevc.Engine.Plain.{bypassed-Follows, terminal_case}
use bc250_vulkan_encode_stop.Hevc.Engine.Start.{
  AllUsable, hevc_cabac_reset_contexts, hevc_cabac_reset_contexts-AllUsable,
  hevc_cabac_reset_contexts-length,
}
use bc250_vulkan_encode_stop.Hevc.Engine.Steps.{narrowed-Follows}

-- The bin coder that the syntax elements of hevc_cabac.c run on.
abbrev pub engine : BinCoder HevcCabac
engine = record {
  encode_bin = encode_bin;
  encode_bypass = encode_bypass;
  encode_bypass_bins = encode_bypass_bins;
}

unfoldable pub put_bin : Bin → HevcCabac → HevcCabac
put_bin (decision ctx bit) cb = engine.encode_bin ctx (flag bit) cb
put_bin (bypass bit) cb = engine.encode_bypass (flag bit) cb
put_bin terminal cb = hevc_cabac_encode_terminate false cb

unfoldable pub put_bins : List Bin → HevcCabac → HevcCabac
unfolding put_bin
put_bins [] cb = cb
put_bins (b ∷ bs) cb = put_bins bs (put_bin b cb)

-- Every decision has a context below `n`.
unfoldable pub AllBelow : ℕ → List Bin → Type 0
AllBelow n [] = Unit
AllBelow n (decision ctx bit ∷ bs) = (ctx < n) × AllBelow n bs
AllBelow n (bypass bit ∷ bs) = AllBelow n bs
AllBelow n (terminal ∷ bs) = AllBelow n bs

code_bin-length : (c : Coder) (b : Bin) → length (code_bin c b).state ≡ length c.state
unfolding code_bin code_decision narrow
code_bin-length c (decision ctx bit) =
    length-set c.state ctx (next_state (get_or c.state ctx 0) bit)
code_bin-length c (bypass bit) = refl
code_bin-length c terminal = refl

apart :
    (n : ℕ) (b : Bin) (bs : List Bin) → AllBelow n (b ∷ bs) → AllBelow n (b ∷ []) × AllBelow n bs
unfolding AllBelow
apart n (decision ctx bit) bs h = ((h.0, tt), h.1)
apart n (bypass bit) bs h = (tt, h)
apart n terminal bs h = (tt, h)

stood-Follows :
    (cb : HevcCabac) (sent count : ℕ) (b : Bin)
    → AllBelow (length cb.ctx) (b ∷ [])
    → InOrder 12 cb
    → Follows 12 (code_bin (stand_for cb sent count) b) (put_bin b cb)
unfolding put_bin encode_bin encode_bypass hevc_cabac_encode_terminate code_bin AllBelow
stood-Follows cb sent count (decision ctx true) h fine =
    drain-Follows (code_decision (stand_for cb sent count) ctx true) (narrowed ctx 1 cb)
      (narrowed-Follows cb sent count ctx 1 h.0 fine)
stood-Follows cb sent count (decision ctx false) h fine =
    drain-Follows (code_decision (stand_for cb sent count) ctx false) (narrowed ctx 0 cb)
      (narrowed-Follows cb sent count ctx 0 h.0 fine)
stood-Follows cb sent count (bypass true) h fine =
    drain-Follows (code_bin (stand_for cb sent count) (bypass true)) (chosen 1 1 cb)
      (bypassed-Follows cb sent count true fine)
stood-Follows cb sent count (bypass false) h fine =
    drain-Follows (code_bin (stand_for cb sent count) (bypass false)) (chosen 1 0 cb)
      (bypassed-Follows cb sent count false fine)
stood-Follows cb sent count terminal h fine = terminal_case cb sent count fine

put_bin-Follows :
    (c : Coder) (cb : HevcCabac) (b : Bin)
    → AllBelow (length cb.ctx) (b ∷ [])
    → Follows 12 c cb
    → Follows 12 (code_bin c b) (put_bin b cb)
unfolding Follows
put_bin-Follows c cb b h (fine, (sent, (count, same))) =
    rw same (stood-Follows cb sent count b h fine)

-- A state of the code that stands for an exact coder has the coder's number of contexts.
context_count : (c : Coder) (cb : HevcCabac) → Follows 12 c cb → length cb.ctx ≡ length c.state
unfolding Follows stand_for
context_count c cb (fine, (sent, (count, same))) =
    sym (ap (λ (d : Coder). length d.state) same ∙ length-map cb.ctx counterpart)

-- From a register that follows an exact coder, and for bins whose contexts are in the table, the
-- code's functions lead to one that follows the exact coder after the same bins.
pub put_bins-Follows :
    (c : Coder) (cb : HevcCabac) (bins : List Bin)
    → AllBelow (length c.state) bins
    → Follows 12 c cb
    → Follows 12 (code_bins c bins) (put_bins bins cb)
unfolding put_bins code_bins
put_bins-Follows c cb [] h follows = follows
put_bins-Follows c cb (b ∷ bs) h follows =
    let (first, others) = apart (length c.state) b bs h in
    put_bins-Follows (code_bin c b) (put_bin b cb) bs (rw (code_bin-length c b) others)
      (put_bin-Follows c cb b (rw (context_count c cb follows) first) follows)

-- The exact coder that a slice starts with.
abbrev pub initial : List ℕ → Coder
initial ctx = record { low = 0; range = 510; shifts = 0; state = map counterpart ctx }

start-Follows :
    (cb : HevcCabac) → AllUsable cb.ctx → Follows 12 (initial cb.ctx) (hevc_cabac_start cb)
unfolding Follows InOrder stand_for hevc_cabac_start
start-Follows cb usable = (
  (omega arith, omega arith, omega arith, omega arith, usable),
  (
    0,
    (
      0,
      coder_eq (initial cb.ctx) (stand_for (hevc_cabac_start cb) 0 0) (omega arith) refl
          (omega arith) refl,
    ),
  ),
)

-- For every QP and slice type, when all context states are usable before and all contexts of the
-- bins are in the table, the register that hevc_cabac_start and hevc_cabac_reset_contexts set and
-- the coding functions change, bin by bin, follows the exact arithmetic coder from low 0 and
-- range 510: the ranges and context states agree, the exact low is the register's above a
-- multiple of 2^(bits_left + 21), and the shifts are bits_left + 12 and a multiple of eight;
-- bits_left is negative, the range in 256..510, low + range at most 2^(bits_left + 22), and every
-- state usable.
pub encoded_slice-Follows :
    (cb : HevcCabac) (slice_qp : ℤ) (is_p : Bool) (bins : List Bin)
    → AllUsable cb.ctx
    → AllBelow (length cb.ctx) bins
    → Follows 12
        (code_bins (initial (hevc_cabac_reset_contexts slice_qp is_p cb).ctx) bins)
        (put_bins bins (hevc_cabac_start (hevc_cabac_reset_contexts slice_qp is_p cb)))
encoded_slice-Follows cb slice_qp is_p bins usable h =
    let reset = hevc_cabac_reset_contexts slice_qp is_p cb in
    let count =
      length-map reset.ctx counterpart ∙ hevc_cabac_reset_contexts-length slice_qp is_p cb in
    put_bins-Follows (initial reset.ctx) (hevc_cabac_start reset) bins (rw count h)
      (start-Follows reset (hevc_cabac_reset_contexts-AllUsable slice_qp is_p cb usable))
