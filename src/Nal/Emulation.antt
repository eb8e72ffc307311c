-- ===== src/Nal/Emulation.antt =====
-- `bs_rbsp_to_ebsp` loses nothing when the destination is large enough: what a decoder does to a NAL
-- unit (H.264, 7.3.1) gives the payload back.
use bc250_vulkan_encode_stop.Base.{
  ℕ, ◌+◌, ◌-◌, ◌*◌, ◌/◌, ◌≤◌, ◌≡◌, refl, List, [], ◌∷◌, arith, ◌&&◌, ◌==◌, if◌then◌else◌, length,
}
use bc250_vulkan_encode_stop.Nal.{count_zero, ebsp_loop, bs_rbsp_to_ebsp}

-- The decoder drops the byte 0x03 behind two zero bytes.
unfoldable pub unescape : ℕ → List ℕ → List ℕ
unescape zero_count [] = []
unescape zero_count (b ∷ bytes) =
    let dropped = zero_count == 2 && b == 0x03 in
    let rest = unescape (if dropped then 0 else count_zero zero_count b) bytes in
    if dropped then rest else b ∷ rest

unfoldable pub ebsp_to_rbsp : List ℕ → List ℕ
ebsp_to_rbsp bytes = unescape 0 bytes

unescape-ebsp_loop :
    (room zero_count : ℕ) (src : List ℕ)
    → zero_count ≤ 2
    → 3 * length src + zero_count ≤ 2 * room + 1
    → unescape zero_count (ebsp_loop room zero_count src) ≡ src
unfolding unescape ebsp_loop
unescape-ebsp_loop room z [] hz fits = refl
unescape-ebsp_loop room z (b ∷ src) hz fits = ground (
  arith,
  unescape-ebsp_loop (room - 2) (count_zero 0 b) src,
  unescape-ebsp_loop (room - 1) (count_zero z b) src,
)

-- With half as many bytes of room again as the payload has, removing the emulation prevention
-- bytes gives back exactly the payload.
pub ebsp_to_rbsp-bs_rbsp_to_ebsp :
    (dst_size : ℕ) (src : List ℕ)
    → length src + length src / 2 ≤ dst_size
    → ebsp_to_rbsp (bs_rbsp_to_ebsp dst_size src) ≡ src
unfolding ebsp_to_rbsp bs_rbsp_to_ebsp
ebsp_to_rbsp-bs_rbsp_to_ebsp dst_size src fits =
    unescape-ebsp_loop dst_size 0 src (omega arith) (omega arith)
