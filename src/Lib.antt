-- ===== src/Lib.antt =====
-- The H.264 side of the BC-250 compute encoder and the intra prediction of its HEVC side. The
-- encoder is a VA-API driver that codes video with compute shaders and writes the bitstream on the
-- CPU. This library models the CPU's own logic:
--
--  * Bitstream: the bit writer (`bitstream_t`) of approach1-compute-encoder/src/bitstream.c and
--    bitstream.h. A stream is a record with the source's fields; every function from stream to stream
--    is a `Writer`, and `▸` runs one after the other. Content gives the bits a stream stands for,
--    Write and Writes what a writer appends, Golomb and Signed the Exp-Golomb codes with the readers
--    of the standard, Trailing and Payload the end of a payload.
--  * Nal: headers, emulation prevention and filler units of the same file; ParameterSets: its SPS
--    and PPS writers and their defaults. Both run on Bitstream.
--  * Cavlc: the CAVLC coder of approach1-compute-encoder/src/cavlc.c. Cavlc.antt and Header are the
--    macroblock headers and the scan of a block, Tables the code tables, Residual the writers of
--    levels, zeros, runs and whole blocks, Reader a reader of P16x16 headers, LevelCode and Levels the
--    reader of levels, Codes the comparison of the codes.
--  * Blocks: from approach1-compute-encoder/src/encoder_h264.c the order of the 4x4 blocks, the DC
--    transforms and their quantization, and the numbers of coefficients of the neighbours; Quantize
--    holds the rounding.
--  * Cabac: the arithmetic coder of approach1-compute-encoder/src/cabac.c and cabac.h. Cabac.antt is
--    the engine (`cabac_engine_t` and the functions on it), Tables and Initial its tables, Elements
--    and Residual the writers of syntax elements. Value and Invariant hold the number an engine stands
--    for and the interval that loses no carry; Exact is the coder of the standard on whole numbers,
--    Moves, Steps and Sequence the refinement from bin to bin; Decoder and Inverse are the decoder of
--    the standard and its run against Exact; Flush, Final and RoundTrip the end of a slice and the
--    whole way, and Room the size of a buffer; Contexts the initial states; Escape, Golomb,
--    Binarization, Levels and Coded what the syntax elements put out.
--  * RateControl: the controller of approach1-compute-encoder/src/rate_control.c. Init holds its
--    clamps, Invariant its invariant through every operation, Reach whole sessions, Drain the choice
--    between the nominal and the wall-clock drain.
--  * Encoder: from approach1-compute-encoder/src/encoder_h264.c the settings (h264_encoder_set_...),
--    the access unit delimiter and the filler padding, which use RateControl and Nal.
--  * MotionVectors: from the same file the motion vector predictors; Median and Predictor compare
--    them neighbour by neighbour with the standard's, Standard takes the neighbours by address.
--  * Hevc: approach1-compute-encoder/src/hevc_intra.c, and the syntax elements and the bin coder
--    of hevc_cabac.c in the same folder. Transform holds the 4x4 butterflies and the matrix
--    products beside them, Quantize the quantization and its inverse, Sizes both for the larger
--    blocks. Intra/Order is the coding order and the gathering of the reference samples
--    (Intra/Gathered: their range), Intra/Predict the prediction from them, Intra/Search the
--    choice of a mode; Modes the probable modes. Elements holds the syntax elements over a
--    `BinCoder`, the interface of the three functions that put out bins, and `listing` is the
--    coder that lists them; LumaMode and Vectors read them back. Engine is the bin coder of the
--    same file, with its Tables and the states it starts with (Start); Drain, Interval, Steps,
--    Plain and Bins set its register against the exact coder of Cabac/Exact, which the H.264
--    engine also follows.
--  * Base and Bits are shared: numbers, lists, integers, masks and the bits of a number. Tests holds
--    the runs at concrete inputs.
--
-- Numbers. Unsigned values are natural numbers with the wrap-around of their C type written out
-- where it can occur. Signed values are integers without bound, since their overflow is undefined
-- in C. Bits are lists of Booleans, the first bit first. A buffer is the list of its bytes, and a
-- size that the source passes beside a pointer is a hypothesis `size ≤ length buffer`.
--
-- Fuel. The scan of a block runs 32 rounds, for each clears a bit of a 32-bit mask; the search for
-- the suffix size of an escape runs 31, for the values it shifts are below 2^31; `bc250_clz32` runs 32,
-- one for each bit, and so does `cabac_clz32`; the loop of `cabac_encode_ue_bypass` runs 8, for a code
-- has at most 32 bits; the loop around `cabac_write_out` of hevc_cabac.c runs once for each eight bits
-- that the register holds, and `high_bit` eight times, for a byte; the prefix of `write_egk_bypass` runs 32, for a value of 32 bits has no longer
-- one. All other loops run over a list or a count of the source.
--
-- Parameters. The C library's doubles (arithmetic, `log`, rounding, conversion) are the record
-- `Doubles`, an argument of the rate controller and of the mode search, which takes `pow` and `sqrt`
-- beside it; no law of them is assumed. The environment, the process name and the clock are arguments
-- of the functions that read them. A plane of samples is a function from indices to samples.
--
-- Not modelled: the GPU side (gpu_compute.c, shaders), the VA-API glue (va_backend.c), the HEVC
-- encoder (encoder_h265.c), the residual blocks of hevc_cabac.c, the tests, tools and the audio fix, and of encoder_h264.c the neighbour contexts of CABAC, the
-- macroblocks and the frame loop; diagnostics printed to stderr, tests for null pointers, the function
-- gather_neighbors that nothing calls, and the profiling builds of cavlc.c, hevc_intra.c and
-- hevc_cabac.c.
pub mod Base
pub mod Bits
pub mod Bitstream
pub mod Nal
pub mod ParameterSets
pub mod Tests
pub mod Blocks
pub mod Cabac
pub mod Cavlc
pub mod RateControl
pub mod Encoder
pub mod Hevc
pub mod MotionVectors
