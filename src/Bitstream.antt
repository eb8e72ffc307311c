-- ===== src/Bitstream.antt =====
-- The bit writer of approach1-compute-encoder/src/bitstream.h and bitstream.c: `bitstream_t`,
-- `bs_init`, `bs_write_u`, `bs_write1`, `bs_write_ue`, `bs_write_se`, `bs_flush`,
-- `bs_rbsp_trailing_bits`, `bs_bytes_written`, `bs_overflowed`.
-- `buffer` is the memory that the pointer leads to. Words are numbers below 2^32; `int bits` is never
-- negative in a call. A state comes last, so that a writer is a function on streams.
pub mod Content
pub mod Loop
pub mod Write
pub mod Writes
pub mod Golomb
pub mod Signed
pub mod Trailing
pub mod Payload
use bc250_vulkan_encode_stop.Base.{
  ℕ, zero, suc, ◌+◌, ◌-◌, ◌*◌, ◌/◌, ◌%◌, ◌^◌, bit_and, bit_or, Bool, true, false, ◌||◌, List, ltb,
  leb, ◌==◌, if◌then◌else◌, set,
}
use bc250_vulkan_encode_stop.Base.Int.{ℤ, pos, negsuc}

pub record Bitstream : Type 0 where
  pub buffer : List ℕ
  pub size : ℕ
  pub byte_offset : ℕ
  pub bit_offset : ℕ
  pub overflow : Bool
  pub accum : ℕ

-- A writer changes the stream; `f ▸ g` is the statement `f` and then `g`.
abbrev pub Writer : Type 0
Writer = Bitstream → Bitstream

infixr 30 ◌▸◌
abbrev pub ◌▸◌ : Writer → Writer → Writer
◌▸◌ f g s = g (f s)

unfoldable pub bs_init : List ℕ → ℕ → Bitstream
bs_init buf size = record {
  buffer = buf;
  size = size;
  byte_offset = 0;
  bit_offset = 0;
  overflow = false;
  accum = 0;
}

-- The loop of `bs_write_u` with `left` = nbytes - i rounds to go; a full buffer ends it.
unfoldable pub write_bytes : ℕ → ℕ → ℕ → Writer
write_bytes combined rem zero s = s
write_bytes combined rem (suc left) s =
    if leb s.size s.byte_offset
    then record s { overflow = true }
    else write_bytes combined rem left (record s {
      buffer = set s.buffer s.byte_offset (combined / 2 ^ (left * 8 + rem) % 256);
      byte_offset = s.byte_offset + 1;
    })

-- What follows the loop; a `return` inside the loop skips it.
unfoldable pub keep_rest : ℕ → ℕ → Writer
keep_rest combined rem s = if s.overflow then s else record s {
  accum = if rem == 0 then 0 else bit_and combined (2 ^ rem - 1);
  bit_offset = rem;
}

-- `val &= (1u << bits) - 1`, and `val` shifted in behind the pending bits.
unfoldable pub combine : ℕ → ℕ → ℕ → ℕ
combine accum bits val =
    bit_or (accum * 2 ^ bits) (if ltb bits 32 then bit_and val (2 ^ bits - 1) else val)

unfoldable pub bs_write_u : ℕ → ℕ → Writer
bs_write_u bits val s =
    if s.overflow || bits == 0
    then s
    else let combined = combine s.accum bits val in
      let total_bits = s.bit_offset + bits in
      let rem = bit_and total_bits 7 in
      keep_rest combined rem (write_bytes combined rem (total_bits / 8) s)

unfoldable pub bs_write1 : ℕ → Writer
bs_write1 val = bs_write_u 1 val

-- The portable loop of `bc250_clz32`; a nonzero word needs at most 31 rounds.
unfoldable pub clz_loop : ℕ → ℕ → ℕ → ℕ
clz_loop zero x n = n
clz_loop (suc fuel) x n =
    let more = clz_loop fuel (x * 2 % 2 ^ 32) (n + 1) in
    if bit_and x 0x80000000 == 0 then more else n

unfoldable pub bc250_clz32 : ℕ → ℕ
bc250_clz32 x = clz_loop 32 x 0

unfoldable pub bs_write_ue : ℕ → Writer
bs_write_ue val =
    let code_num = val + 1 in
    if leb code_num 0xffffffff
    then (let zeros = 31 - bc250_clz32 code_num in
        bs_write_u zeros 0 ▸ bs_write_u (zeros + 1) code_num)
    else bs_write_u 32 0 ▸ bs_write1 1 ▸ bs_write_u 32 0

-- `(uint32_t)(-(int64_t)val * 2)` and `(uint32_t)val * 2 - 1`, of an int32_t.
unfoldable pub se_mapped : ℤ → ℕ
se_mapped (pos zero) = 0
se_mapped (pos (suc n)) = (suc n * 2 + 2 ^ 32 - 1) % 2 ^ 32
se_mapped (negsuc n) = suc n * 2 % 2 ^ 32

unfoldable pub bs_write_se : ℤ → Writer
bs_write_se val = bs_write_ue (se_mapped val)

unfoldable pub bs_flush : Writer
bs_flush s =
    if s.overflow
    then s
    else if s.bit_offset == 0
    then s
    else if leb s.size s.byte_offset
    then record s { overflow = true }
    else record s {
      buffer = set s.buffer s.byte_offset (s.accum * 2 ^ (8 - s.bit_offset) % 256);
      byte_offset = s.byte_offset + 1;
      accum = 0;
      bit_offset = 0;
    }

unfoldable pub bs_rbsp_trailing_bits : Writer
bs_rbsp_trailing_bits = bs_write1 1 ▸ bs_flush

unfoldable pub bs_bytes_written : Bitstream → ℕ
bs_bytes_written s = s.byte_offset + (if ltb 0 s.bit_offset then 1 else 0)

unfoldable pub bs_overflowed : Bitstream → Bool
bs_overflowed s = s.overflow
