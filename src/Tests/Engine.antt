-- ===== src/Tests/Engine.antt =====
-- The bin coder of hevc_cabac.c on a few bins.
use Prim.{tt}
use bc250_vulkan_encode_stop.Base.{
  ℕ, zero, suc, arith, true, false, List, [], ◌∷◌, length, replicate,
}
use bc250_vulkan_encode_stop.Base.Int.{pos}
use bc250_vulkan_encode_stop.Bitstream.{bs_init}
use bc250_vulkan_encode_stop.Cabac.Exact.{Bin, decision, bypass, terminal, code_bins}
use bc250_vulkan_encode_stop.Hevc.Engine.{HevcCabac, hevc_cabac_start}
use bc250_vulkan_encode_stop.Hevc.Engine.Bins.{put_bins, AllBelow, initial, encoded_slice-Follows}
use bc250_vulkan_encode_stop.Hevc.Engine.Drain.{Follows}
use bc250_vulkan_encode_stop.Hevc.Engine.Start.{AllUsable, hevc_cabac_reset_contexts}

abbrev fresh : HevcCabac
fresh = record {
  bs = bs_init (replicate 8 0) 8;
  low = 0;
  range = 0;
  bits = 12;
  buffered_byte = 0;
  num_buffered_bytes = 0;
  ctx = replicate 139 0;
}

abbrev some_bins : List Bin
some_bins =
    decision 122 true
    ∷ decision 0 false
    ∷ bypass true
    ∷ bypass false
    ∷ decision 122 true
    ∷ bypass true
    ∷ decision 138 true
    ∷ terminal
    ∷ []

replicate-AllUsable : (n : ℕ) → AllUsable (replicate n 0)
replicate-AllUsable zero i = omega arith
replicate-AllUsable (suc n) zero = omega arith
replicate-AllUsable (suc n) (suc i) = replicate-AllUsable n i

some_bins-AllBelow : AllBelow (length fresh.ctx) some_bins
unfolding AllBelow
some_bins-AllBelow = (omega arith, (omega arith, (omega arith, (omega arith, tt))))

encoded_slice-Follows_example :
    Follows 12
      (code_bins (initial (hevc_cabac_reset_contexts (pos 30) true fresh).ctx) some_bins)
      (put_bins some_bins (hevc_cabac_start (hevc_cabac_reset_contexts (pos 30) true fresh)))
encoded_slice-Follows_example =
    encoded_slice-Follows fresh (pos 30) true some_bins (replicate-AllUsable 139) some_bins-AllBelow
