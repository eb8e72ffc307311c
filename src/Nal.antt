-- ===== src/Nal.antt =====
-- NAL unit framing of approach1-compute-encoder/src/bitstream.c and bitstream.h: the two NAL headers,
-- emulation prevention (`bs_rbsp_to_ebsp`, `ebsp_worst_case`) and filler NAL units.
-- The bytes that a function leaves at `dst` or `buf` are a list; its length is the size returned.
pub mod Emulation
pub mod StartCode
pub mod Capacity
pub mod Header
use bc250_vulkan_encode_stop.Base.{
  ℕ, zero, suc, ◌+◌, ◌-◌, ◌*◌, ◌/◌, ◌^◌, bit_and, bit_or, Bool, List, [], ◌∷◌, ◌&&◌, leb, ◌==◌,
  if◌then◌else◌, take,
}
use bc250_vulkan_encode_stop.Bitstream.{
  Bitstream, Writer, ◌▸◌, bs_init, bs_write_u, bs_write1, bs_rbsp_trailing_bits, bs_bytes_written,
}

abbrev pub nal_type_sps : ℕ
nal_type_sps = 7

abbrev pub nal_type_pps : ℕ
nal_type_pps = 8

abbrev pub nal_type_filler : ℕ
nal_type_filler = 12

abbrev pub nal_ref_idc_none : ℕ
nal_ref_idc_none = 0

abbrev pub nal_ref_idc_high : ℕ
nal_ref_idc_high = 3

abbrev pub filler_min_nal_size : ℕ
filler_min_nal_size = 6

-- `(0 << 7) | ((nal_ref_idc & 3) << 5) | (nal_type & 0x1f)`
unfoldable pub nal_header_byte : ℕ → ℕ → ℕ
nal_header_byte nal_ref_idc nal_type =
    bit_or (bit_or 0 (bit_and nal_ref_idc 3 * 2 ^ 5)) (bit_and nal_type 0x1f)

unfoldable pub nal_header_writer : ℕ → ℕ → Writer
nal_header_writer nal_ref_idc nal_type =
    bs_write_u 32 0x00000001 ▸ bs_write_u 8 (nal_header_byte nal_ref_idc nal_type)

unfoldable pub bs_write_nal_header : ℕ → ℕ → Bitstream → Bitstream × ℕ
unfolding nal_header_writer
bs_write_nal_header nal_ref_idc nal_type s =
    let t = nal_header_writer nal_ref_idc nal_type s in (t, bs_bytes_written t)

unfoldable pub nal_header_hevc_writer : ℕ → Writer
nal_header_hevc_writer nal_unit_type =
    bs_write_u 32 0x00000001
    ▸ bs_write1 0
    ▸ bs_write_u 6 (bit_and nal_unit_type 0x3f)
    ▸ bs_write_u 6 0
    ▸ bs_write_u 3 1

unfoldable pub bs_write_nal_header_hevc : ℕ → Bitstream → Bitstream × ℕ
unfolding nal_header_hevc_writer
bs_write_nal_header_hevc nal_unit_type s =
    let t = nal_header_hevc_writer nal_unit_type s in (t, bs_bytes_written t)

-- `zero_count` after a byte.
abbrev pub count_zero : ℕ → ℕ → ℕ
count_zero zero_count b = if b == 0 then zero_count + 1 else 0

-- The loop over `src` with `room` = dst_size - j bytes left in `dst`; either `break` ends it.
unfoldable pub ebsp_loop : ℕ → ℕ → List ℕ → List ℕ
ebsp_loop room zero_count [] = []
ebsp_loop room zero_count (b ∷ src) =
    let escape = zero_count == 2 && leb b 0x03 in
    let rest =
      ebsp_loop (room - (if escape then 2 else 1)) (count_zero (if escape then 0 else zero_count) b)
        src in
    if room == 0
    then []
    else if escape
    then (if room == 1 then 0x03 ∷ [] else 0x03 ∷ b ∷ rest)
    else b ∷ rest

unfoldable pub bs_rbsp_to_ebsp : ℕ → List ℕ → List ℕ
bs_rbsp_to_ebsp dst_size src = ebsp_loop dst_size 0 src

unfoldable pub ebsp_worst_case : ℕ → ℕ
ebsp_worst_case rbsp_size = rbsp_size + rbsp_size / 3 + 2

-- The loop of `bs_write_filler`.
unfoldable pub filler_loop : ℕ → Writer
filler_loop zero s = s
filler_loop (suc left) s =
    let more = filler_loop left (bs_write_u 8 0xff s) in if s.overflow then s else more

unfoldable pub filler_stream : List ℕ → ℕ → ℕ → Bitstream
unfolding nal_header_writer
filler_stream buf buf_size filler_ff_count =
    (nal_header_writer nal_ref_idc_none nal_type_filler
        ▸ filler_loop filler_ff_count
        ▸ bs_rbsp_trailing_bits)
      (bs_init buf buf_size)

-- The bytes of `buf` that `bs_write_filler` reports as written.
unfoldable pub bs_write_filler : List ℕ → ℕ → ℕ → List ℕ
bs_write_filler buf buf_size filler_ff_count =
    let s = filler_stream buf buf_size filler_ff_count in take (bs_bytes_written s) s.buffer
