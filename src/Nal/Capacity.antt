-- ===== src/Nal/Capacity.antt =====
-- How many bytes `bs_rbsp_to_ebsp` writes, and the capacity that `ebsp_worst_case` promises.
use bc250_vulkan_encode_stop.Base.{
  ℕ, zero, suc, ◌+◌, ◌-◌, ◌*◌, ◌/◌, ◌≤◌, ◌<◌, List, [], ◌∷◌, arith, length, replicate,
}
use bc250_vulkan_encode_stop.Nal.{count_zero, ebsp_loop, bs_rbsp_to_ebsp, ebsp_worst_case}
use bc250_vulkan_encode_stop.Nal.Emulation.{unescape, ebsp_to_rbsp}

length-ebsp_loop :
    (room zero_count : ℕ) (src : List ℕ)
    → zero_count ≤ 2
    → (length (ebsp_loop room zero_count src) ≤ room)
      × (2 * length (ebsp_loop room zero_count src) ≤ 3 * length src + zero_count)
unfolding ebsp_loop
length-ebsp_loop room z [] hz = omega arith
length-ebsp_loop room z (b ∷ src) hz = ground (
  arith,
  length-ebsp_loop (room - 2) (count_zero 0 b) src,
  length-ebsp_loop (room - 1) (count_zero z b) src,
)

-- bs_rbsp_to_ebsp writes no more than dst_size bytes, and at most half as many again as it reads.
pub length-bs_rbsp_to_ebsp :
    (dst_size : ℕ) (src : List ℕ)
    → (length (bs_rbsp_to_ebsp dst_size src) ≤ dst_size)
      × (length (bs_rbsp_to_ebsp dst_size src) ≤ length src + length src / 2)
unfolding bs_rbsp_to_ebsp
length-bs_rbsp_to_ebsp dst_size src = omega (arith, length-ebsp_loop dst_size 0 src (omega arith))

-- Zero bytes that get through when the room is short.
zeros_cut :
    (room zero_count n : ℕ)
    → zero_count ≤ 2
    → 1 ≤ n
    → room < n + (n + zero_count - 1) / 2
    → length (unescape zero_count (ebsp_loop room zero_count (replicate n 0))) < n
unfolding unescape ebsp_loop
zeros_cut room z zero hz hn short = absurd (omega arith)
zeros_cut room z (suc zero) hz hn short = ground arith
zeros_cut room z (suc (suc n)) hz hn short =
    ground (arith, zeros_cut (room - 2) 1 (suc n), zeros_cut (room - 1) (z + 1) (suc n))

-- From 19 zero bytes on, a destination of ebsp_worst_case bytes cuts the payload off.
pub ebsp_worst_case_too_small :
    (n : ℕ)
    → 19 ≤ n
    → length (ebsp_to_rbsp (bs_rbsp_to_ebsp (ebsp_worst_case n) (replicate n 0))) < n
unfolding ebsp_to_rbsp bs_rbsp_to_ebsp ebsp_worst_case
ebsp_worst_case_too_small n h =
    zeros_cut (n + n / 3 + 2) 0 n (omega arith) (omega arith) (omega arith)
