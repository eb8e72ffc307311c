-- ===== src/Tests/Streams.antt =====
-- The bit writer and its codes.
use bc250_vulkan_encode_stop.Base.{
  Bool, List, ◌-◌, ◌≡◌, refl, true, false, [], ◌∷◌, ◌++◌, some, arith,
}
use bc250_vulkan_encode_stop.Base.Int.{negsuc}
use bc250_vulkan_encode_stop.Bits.{bits_of}
use bc250_vulkan_encode_stop.Bitstream.{
  Bitstream, bs_write_u, bs_write_ue, bs_rbsp_trailing_bits, write_bytes, keep_rest, combine,
  bc250_clz32, clz_loop, bs_write1, bs_flush, se_mapped,
}
use bc250_vulkan_encode_stop.Bitstream.Content.{IsValid, Wrote}
use bc250_vulkan_encode_stop.Bitstream.Write.{bs_write_u-Wrote, bs_write_u-full}
use bc250_vulkan_encode_stop.Bitstream.Writes.{Writes}
use bc250_vulkan_encode_stop.Bitstream.Golomb.{read_ue, bs_write_ue-read}
use bc250_vulkan_encode_stop.Bitstream.Signed.{se_code, read_se, read_se-se_code}

abbrev two_bytes : Bitstream
two_bytes = record {
  buffer = 9 ∷ 9 ∷ [];
  size = 2;
  byte_offset = 0;
  bit_offset = 0;
  overflow = false;
  accum = 0;
}

two_bytes-IsValid : IsValid two_bytes
two_bytes-IsValid = omega arith

-- 11 bits: a whole byte is stored and three bits are pending.
write_eleven :
    bs_write_u 11 0x5a3 two_bytes
    ≡ record two_bytes { buffer = 0xb4 ∷ 9 ∷ []; byte_offset = 1; bit_offset = 3; accum = 3 }
unfolding bs_write_u write_bytes keep_rest combine
write_eleven = refl

write_too_much : (bs_write_u 24 1 two_bytes).overflow ≡ true
unfolding bs_write_u write_bytes keep_rest combine
write_too_much = refl

write_ue_three : (bs_rbsp_trailing_bits (bs_write_ue 3 two_bytes)).buffer ≡ 0x24 ∷ 9 ∷ []
unfolding bs_write_ue bs_write_u write_bytes keep_rest combine bc250_clz32 clz_loop bs_write1
    bs_flush bs_rbsp_trailing_bits
write_ue_three = refl

-- INT32_MIN wraps to the code of 0.
write_se_minimum : se_mapped (negsuc (2147483648 - 1)) ≡ 0
unfolding se_mapped
write_se_minimum = refl

bs_write_u-Wrote_example : Wrote two_bytes (bits_of 11 0x5a3) (bs_write_u 11 0x5a3 two_bytes)
unfolding bits_of
bs_write_u-Wrote_example =
    bs_write_u-Wrote 11 0x5a3 two_bytes (omega arith) (omega arith) two_bytes-IsValid refl
      (omega arith)

bs_write_u-full_example :
    IsValid (bs_write_u 24 1 two_bytes) × ((bs_write_u 24 1 two_bytes).overflow ≡ true)
unfolding bits_of
bs_write_u-full_example =
    bs_write_u-full 24 1 two_bytes (omega arith) (omega arith) two_bytes-IsValid refl (omega arith)

bs_write_ue-read_example :
    (code : List Bool) × (Writes (bs_write_ue 5) code
      × ((rest : List Bool) → read_ue (code ++ rest) ≡ some (5, rest)))
bs_write_ue-read_example = bs_write_ue-read 5 (omega arith)

read_se-se_code_example : read_se (se_code (negsuc 4) ++ []) ≡ some (negsuc 4, [])
read_se-se_code_example = read_se-se_code (negsuc 4) [] (omega arith)
