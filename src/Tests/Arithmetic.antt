-- ===== src/Tests/Arithmetic.antt =====
-- The arithmetic coder of cabac.c on concrete slices.
use bc250_vulkan_encode_stop.Base.{
  ◌≡◌, ◌*◌, ◌≤◌, ◌+◌, refl, arith, true, false, List, [], ◌∷◌, map, some,
}
use bc250_vulkan_encode_stop.Base.Int.{pos, negsuc, ◌+ℤ◌, ◌*ℤ◌}
use bc250_vulkan_encode_stop.Cabac.{
  CabacEngine, cabac_context_init, cabac_engine_init, cabac_encode_flush, cabac_encode_decision,
  cabac_encode_bypass, cabac_encode_terminal, cabac_putbyte, cabac_encode_ue_bypass, ue_bypass_loop,
  cabac_clz32,
}
use bc250_vulkan_encode_stop.Cabac.Tables.{cabac_bypass_lut}
use bc250_vulkan_encode_stop.Cabac.Value.{LastBelow}
use bc250_vulkan_encode_stop.Cabac.Invariant.{IsOpen, Keeps, cabac_putbyte-Keeps}
use bc250_vulkan_encode_stop.Cabac.Exact.{Bin, decision, bypass, terminal, code_bins}
use bc250_vulkan_encode_stop.Cabac.Moves.{view, HasStates, IsCoder, Reaches}
use bc250_vulkan_encode_stop.Cabac.Steps.{InTable}
use bc250_vulkan_encode_stop.Cabac.Sequence.{
  encode_bin, encode_bins, AllInTable, encode_bins-Reaches,
}
use bc250_vulkan_encode_stop.Cabac.Decoder.{request, bit_of}
use bc250_vulkan_encode_stop.Cabac.Contexts.{cabac_context_init-HasStates}
use bc250_vulkan_encode_stop.Cabac.Elements.{
  cabac_write_mb_type_i16x16, cabac_write_mvd_component, mvd_ones, cabac_mvd_unary_ctx,
}
use bc250_vulkan_encode_stop.Cabac.Residual.{
  write_level, level_ones, cabac_level1_ctx, cabac_levelgt1_ctx, cabac_level_transition,
}
use bc250_vulkan_encode_stop.Cabac.Levels.{node_of, level_bins}
use bc250_vulkan_encode_stop.Cabac.Coded.{cabac_encode_ue_bypass-Reaches, write_level-Reaches}
use bc250_vulkan_encode_stop.Cabac.Golomb.{suffix_bits}
use bc250_vulkan_encode_stop.Cabac.Room.{decode_slice-enough_room}
use bc250_vulkan_encode_stop.Cabac.RoundTrip.{
  fresh, decode_slice, stream_bits, cabac_engine_init-IsCoder,
}

abbrev blank : CabacEngine
blank = record {
  low = 0;
  range = 0;
  queue = 0;
  bytes_outstanding = 0;
  buffer = record { before = 0; written = []; room = 0; overflow = false };
  state = [];
}

-- An intra slice at QP 26, and its engine on 16 bytes behind the byte 7.
abbrev intra : CabacEngine
intra = cabac_context_init blank true (pos 26)

abbrev start : CabacEngine
start = cabac_engine_init intra 7 16

usual : HasStates intra.state
usual = cabac_context_init-HasStates blank true (pos 26)

ready : IsCoder start
ready = cabac_engine_init-IsCoder intra 7 16 (omega arith) usual

abbrev some_bins : List Bin
some_bins =
    decision 3 true
    ∷ terminal
    ∷ decision 6 false
    ∷ decision 7 true
    ∷ decision 8 false
    ∷ bypass true
    ∷ bypass true
    ∷ bypass false
    ∷ bypass true
    ∷ decision 85 true
    ∷ decision 105 true
    ∷ bypass true
    ∷ bypass true
    ∷ bypass true
    ∷ bypass true
    ∷ bypass true
    ∷ bypass true
    ∷ bypass true
    ∷ []

listed : AllInTable some_bins
unfolding AllInTable InTable
listed = (
  omega arith,
  (
    tt,
    (
      omega arith,
      (
        omega arith,
        (
          omega arith,
          (
            tt,
            (
              tt,
              (
                tt,
                (tt, (omega arith, (omega arith, (tt, (tt, (tt, (tt, (tt, (tt, (tt, tt)))))))))),
              ),
            ),
          ),
        ),
      ),
    ),
  ),
)

coded_bytes :
    (cabac_encode_flush (encode_bins start some_bins) 3).buffer.written ≡ 240 ∷ 215 ∷ 140 ∷ 253 ∷ []
unfolding cabac_encode_flush cabac_engine_init encode_bins encode_bin cabac_context_init
    cabac_encode_decision cabac_encode_bypass cabac_encode_terminal cabac_putbyte ◌+ℤ◌ ◌*ℤ◌
coded_bytes = refl

fits : (cabac_encode_flush (encode_bins start some_bins) 3).buffer.overflow ≡ false
unfolding cabac_encode_flush cabac_engine_init encode_bins encode_bin cabac_context_init
    cabac_encode_decision cabac_encode_bypass cabac_encode_terminal cabac_putbyte ◌+ℤ◌ ◌*ℤ◌
fits = refl

fits_before : (encode_bins start some_bins).buffer.overflow ≡ false
unfolding cabac_engine_init encode_bins encode_bin cabac_context_init cabac_encode_decision
    cabac_encode_bypass cabac_encode_terminal cabac_putbyte ◌+ℤ◌ ◌*ℤ◌
fits_before = refl

small : (code_bins (fresh intra.state) some_bins).shifts + 24 ≤ 8 * 16
unfolding code_bins cabac_context_init ◌+ℤ◌ ◌*ℤ◌
small = omega arith

decode_slice-enough_room_example :
    ((cabac_encode_flush (encode_bins start some_bins) 3).buffer.overflow ≡ false)
    × (decode_slice intra.state
          (map request some_bins)
          (stream_bits (cabac_encode_flush (encode_bins start some_bins) 3).buffer.written)
        ≡ some (map bit_of some_bins, true))
    × ((cabac_encode_flush (encode_bins start some_bins) 3).buffer.before ≡ 7)
decode_slice-enough_room_example =
    decode_slice-enough_room intra 7 16 3 some_bins usual (omega arith) listed small

encode_bins-Reaches_example :
    Reaches start (code_bins (view start) some_bins) (encode_bins start some_bins)
encode_bins-Reaches_example = encode_bins-Reaches start some_bins ready listed fits_before

cabac_context_init-HasStates_example : HasStates (cabac_context_init blank false (negsuc 4)).state
cabac_context_init-HasStates_example = cabac_context_init-HasStates blank false (negsuc 4)

-- An engine with a byte to give out and one byte that waits for a carry.
abbrev full : CabacEngine
full = record {
  low = 0x40012;
  range = 300;
  queue = 9;
  bytes_outstanding = 1;
  buffer = record { before = 7; written = 5 ∷ 6 ∷ []; room = 4; overflow = false };
  state = [];
}

full-IsOpen : IsOpen 300 full
unfolding IsOpen LastBelow
full-IsOpen = (omega arith, λ empty. grind arith, (omega arith, (omega arith, tt)), omega arith)

full_fits : (cabac_putbyte full).buffer.overflow ≡ false
unfolding cabac_putbyte
full_fits = refl

cabac_putbyte-Keeps_example : Keeps 300 full (cabac_putbyte full)
cabac_putbyte-Keeps_example =
    cabac_putbyte-Keeps 300 full (omega arith) (omega arith) full-IsOpen full_fits

escape_fits : (cabac_encode_ue_bypass start 3 11).buffer.overflow ≡ false
unfolding cabac_encode_ue_bypass cabac_clz32 ue_bypass_loop cabac_bypass_lut cabac_engine_init
escape_fits = refl

cabac_encode_ue_bypass-Reaches_example :
    Reaches start
      (code_bins (view start) (map bypass (suffix_bits 3 1 3)))
      (cabac_encode_ue_bypass start 3 11)
cabac_encode_ue_bypass-Reaches_example =
    cabac_encode_ue_bypass-Reaches start 3 1 3 11 (omega arith) (omega arith) (omega arith)
      (omega arith) ready escape_fits

mb_type_fits : (cabac_write_mb_type_i16x16 start 2 true 2 3).buffer.overflow ≡ false
unfolding cabac_write_mb_type_i16x16 cabac_engine_init cabac_context_init cabac_encode_decision
    cabac_encode_terminal ◌+ℤ◌ ◌*ℤ◌
mb_type_fits = refl

mvd_fits : (cabac_write_mvd_component start false 1 (negsuc 19)).0.buffer.overflow ≡ false
unfolding cabac_write_mvd_component mvd_ones cabac_mvd_unary_ctx cabac_engine_init
    cabac_context_init cabac_encode_decision cabac_encode_bypass cabac_encode_ue_bypass cabac_clz32
    ue_bypass_loop cabac_bypass_lut ◌+ℤ◌ ◌*ℤ◌
mvd_fits = refl

level_fits : (write_level 227 start (node_of 1 0) (negsuc 19)).0.buffer.overflow ≡ false
unfolding write_level node_of level_ones cabac_level1_ctx cabac_levelgt1_ctx cabac_level_transition
    cabac_engine_init cabac_context_init cabac_encode_decision cabac_encode_bypass
    cabac_encode_ue_bypass cabac_clz32 ue_bypass_loop cabac_bypass_lut ◌+ℤ◌ ◌*ℤ◌
level_fits = refl

write_level-Reaches_example :
    Reaches start
      (code_bins (view start) (level_bins 227 1 0 (negsuc 19) 2 2))
      (write_level 227 start (node_of 1 0) (negsuc 19)).0
    × ((write_level 227 start (node_of 1 0) (negsuc 19)).1 ≡ node_of 1 1)
write_level-Reaches_example =
    write_level-Reaches 227 1 0 start (negsuc 19) 2 2 (omega arith) (omega arith) (λ large. refl)
      ready (omega arith) level_fits
