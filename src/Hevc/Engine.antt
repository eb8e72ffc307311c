-- ===== src/Hevc/Engine.antt =====
-- The bin coder of hevc_cabac.c, up to the bytes it writes. `bits` is `bits_left + 12`, which is
-- never negative. The words wrap at 2^32 where the code shifts or adds to `low`.
pub mod Tables
pub mod Start
pub mod Drain
pub mod Interval
pub mod Steps
pub mod Plain
pub mod Bins
use bc250_vulkan_encode_stop.Base.{
  ℕ, zero, suc, ◌+◌, ◌-◌, ◌*◌, ◌/◌, ◌%◌, ◌^◌, Bool, true, false, List, [], ◌∷◌, if◌then◌else◌, ltb,
  leb, ◌==◌, set, get_or,
}
use bc250_vulkan_encode_stop.Bits.{odd}
use bc250_vulkan_encode_stop.Bitstream.{Bitstream, Writer, ◌▸◌, bs_write_u}
use bc250_vulkan_encode_stop.Cabac.{differs}
use Tables.{next_states, lps_ranges}

pub record HevcCabac : Type 0 where
  pub bs : Bitstream
  pub low : ℕ
  pub range : ℕ
  pub bits : ℕ
  pub buffered_byte : ℕ
  pub num_buffered_bytes : ℕ
  pub ctx : List ℕ

unfoldable pub hevc_cabac_start : HevcCabac → HevcCabac
hevc_cabac_start cb = record cb {
  low = 0;
  range = 510;
  bits = 0;
  num_buffered_bytes = 0;
  buffered_byte = 255;
}

unfoldable pub cabac_put_byte : ℕ → Writer
cabac_put_byte b = bs_write_u 8 (b % 2 ^ 8)

unfoldable pub put_times : ℕ → ℕ → Writer
unfolding cabac_put_byte
put_times zero b s = s
put_times (suc n) b s = put_times n b (cabac_put_byte b s)

-- The two writes of the held bytes, when there are any.
unfoldable pub release : ℕ → HevcCabac → Writer
unfolding cabac_put_byte put_times
release carry cb =
    if ltb 0 cb.num_buffered_bytes
    then cabac_put_byte (cb.buffered_byte + carry)
      ▸ put_times (cb.num_buffered_bytes - 1) ((255 + carry) % 256)
    else (λ s. s)

-- What becomes of the byte that leaves `low`.
unfoldable pub hold : ℕ → HevcCabac → HevcCabac
unfolding release
hold lead_byte cb =
    if lead_byte == 255
    then record cb { num_buffered_bytes = cb.num_buffered_bytes + 1 }
    else record cb {
      bs = release (lead_byte / 256) cb cb.bs;
      num_buffered_bytes = 1;
      buffered_byte = lead_byte;
    }

unfoldable pub cabac_write_out : HevcCabac → HevcCabac
unfolding hold
cabac_write_out cb =
    hold (cb.low / 2 ^ (cb.bits + 1))
      (record cb { bits = cb.bits - 8; low = cb.low % 2 ^ (cb.bits + 1) })

-- `while (cb->bits_left >= 0) cabac_write_out(cb);`.
unfoldable pub drain_loop : ℕ → HevcCabac → HevcCabac
unfolding cabac_write_out
drain_loop zero cb = cb
drain_loop (suc fuel) cb =
    let rest = drain_loop fuel (cabac_write_out cb) in if leb 12 cb.bits then rest else cb

unfoldable pub drain : HevcCabac → HevcCabac
unfolding drain_loop
drain cb = drain_loop (cb.bits / 8) cb

-- `31 - __builtin_clz(v)` for a positive `v`; `fuel` bounds the halvings.
unfoldable pub high_bit : ℕ → ℕ → ℕ
high_bit zero v = 0
high_bit (suc fuel) v = let rest = high_bit fuel (v / 2) in if ltb v 2 then 0 else suc rest

-- `g_hevc_next_state[mstate][bin & 1]`.
unfoldable pub state_after : ℕ → Bool → ℕ
unfolding next_states
state_after mstate bin =
    let (zero_bin, one_bin) = get_or next_states mstate (0, 0) in if bin then one_bin else zero_bin

-- `g_hevc_lps_range[mstate >> 1][(range >> 6) & 3]`.
unfoldable pub lps_of : ℕ → ℕ → ℕ
unfolding lps_ranges
lps_of mstate range = get_or (get_or lps_ranges (mstate / 2) []) (range / 64 % 4) 0

-- `num_bits` of the two cases of `encode_bin`.
unfoldable pub lps_num_bits : ℕ → ℕ → ℕ
unfolding high_bit
lps_num_bits mstate lps = if leb 63 (mstate / 2) then 6 else 8 - high_bit 8 lps

unfoldable pub mps_num_bits : ℕ → ℕ
mps_num_bits range = if ltb range 256 then 1 else 0

-- The new interval, `num_bits` up.
unfoldable pub shifted : ℕ → ℕ → ℕ → HevcCabac → HevcCabac
shifted num_bits low range cb = record cb {
  low = low * 2 ^ num_bits % 2 ^ 32;
  range = range * 2 ^ num_bits;
  bits = cb.bits + num_bits;
}

-- `encode_bin` but for its loop.
unfoldable pub narrowed : ℕ → ℕ → HevcCabac → HevcCabac
unfolding state_after lps_of lps_num_bits mps_num_bits shifted
narrowed ctx_idx bin cb =
    let mstate = get_or cb.ctx ctx_idx 0 in
    let lps = lps_of mstate cb.range in
    let next = record cb { ctx = set cb.ctx ctx_idx (state_after mstate (odd bin)) } in
    if differs (odd bin) (odd mstate)
    then shifted (lps_num_bits mstate lps) ((cb.low + (cb.range - lps)) % 2 ^ 32) lps next
    else shifted (mps_num_bits (cb.range - lps)) cb.low (cb.range - lps) next

unfoldable pub encode_bin : ℕ → ℕ → HevcCabac → HevcCabac
unfolding narrowed drain
encode_bin ctx_idx bin cb = drain (narrowed ctx_idx bin cb)

-- `low` a number of bits up, and then the part of the interval that the bins choose.
unfoldable pub chosen : ℕ → ℕ → HevcCabac → HevcCabac
chosen num_bins value cb = record cb {
  low = (cb.low * 2 ^ num_bins + cb.range * value) % 2 ^ 32;
  bits = cb.bits + num_bins;
}

unfoldable pub encode_bypass : ℕ → HevcCabac → HevcCabac
unfolding chosen drain
encode_bypass bin cb = drain (chosen 1 (if bin == 0 then 0 else 1) cb)

-- The loop of `encode_bypass_bins` with its end; `fuel` bounds its rounds of eight bins.
unfoldable pub bypass_bins_loop : ℕ → ℕ → ℕ → HevcCabac → HevcCabac
unfolding chosen drain
bypass_bins_loop zero value num_bins cb = drain (chosen num_bins value cb)
bypass_bins_loop (suc fuel) value num_bins cb =
    let left = num_bins - 8 in
    let rest =
      bypass_bins_loop fuel (value % 2 ^ left) left (drain (chosen 8 (value / 2 ^ left) cb)) in
    if ltb 8 num_bins then rest else drain (chosen num_bins value cb)

unfoldable pub encode_bypass_bins : ℕ → ℕ → HevcCabac → HevcCabac
unfolding bypass_bins_loop
encode_bypass_bins value num_bins cb = bypass_bins_loop (num_bins / 8) value num_bins cb

-- The end of `hevc_cabac_encode_terminate` for a zero bin.
unfoldable pub not_terminated : ℕ → HevcCabac → HevcCabac
unfolding shifted drain
not_terminated range cb =
    if leb 256 range then record cb { range = range } else drain (shifted 1 cb.low range cb)

unfoldable pub hevc_cabac_encode_terminate : Bool → HevcCabac → HevcCabac
unfolding shifted drain not_terminated
hevc_cabac_encode_terminate bin cb =
    let range = cb.range - 2 in
    if bin
    then drain (record (shifted 7 ((cb.low + range) % 2 ^ 32) 2 cb) { range = 2 * 2 ^ 7 })
    else not_terminated range cb

-- `hevc_cabac_finish` but for the bits of `low`: the held bytes with the last carry.
unfoldable pub settled : HevcCabac → HevcCabac
unfolding cabac_put_byte put_times
settled cb =
    let held = cb.num_buffered_bytes in
    let left = if ltb 1 held then 1 else held in
    if leb 1 (cb.low / 2 ^ (cb.bits + 9))
    then record cb {
      bs = put_times (held - 1) 0 (cabac_put_byte (cb.buffered_byte + 1) cb.bs);
      low = cb.low - 2 ^ (cb.bits + 9);
      num_buffered_bytes = left;
    }
    else record cb {
      bs =
          put_times (held - 1) 255
            (if ltb 0 held then cabac_put_byte cb.buffered_byte cb.bs else cb.bs);
      num_buffered_bytes = left;
    }

unfoldable pub hevc_cabac_finish : HevcCabac → HevcCabac
unfolding settled
hevc_cabac_finish cb =
    let done = settled cb in
    record done { bs = bs_write_u (done.bits + 1) (done.low / 2 ^ 8) done.bs }
