-- ===== src/Nal/StartCode.antt =====
-- The output of `bs_rbsp_to_ebsp` holds no start code and no other forbidden pattern.
use bc250_vulkan_encode_stop.Base.{ℕ, ◌-◌, ◌≤◌, ◌≡◌, List, [], ◌∷◌, ◌++◌, arith}
use bc250_vulkan_encode_stop.Nal.{count_zero, ebsp_loop, bs_rbsp_to_ebsp}

-- No byte up to 2 stands behind two zeros, of which `zero_count` came before the list.
abbrev IsClean : ℕ → List ℕ → Type 0
IsClean zero_count [] = Unit {0}
IsClean zero_count (b ∷ bytes) = (2 ≤ zero_count → 3 ≤ b) × IsClean (count_zero zero_count b) bytes

ebsp_loop-IsClean :
    (room zero_count : ℕ) (src : List ℕ)
    → zero_count ≤ 2
    → IsClean zero_count (ebsp_loop room zero_count src)
unfolding ebsp_loop
ebsp_loop-IsClean room z [] hz = tt
ebsp_loop-IsClean room z (b ∷ src) hz = ground (
  arith,
  ebsp_loop-IsClean (room - 2) (count_zero 0 b) src,
  ebsp_loop-IsClean (room - 1) (count_zero z b) src,
)

IsClean-pattern :
    (z : ℕ) (front : List ℕ) (b : ℕ) (back : List ℕ) → IsClean z (front ++ 0 ∷ 0 ∷ b ∷ back) → 3 ≤ b
IsClean-pattern z [] b back h = h.1.1.0 (omega arith)
IsClean-pattern z (x ∷ front) b back h = IsClean-pattern (count_zero z x) front b back h.1

-- Wherever two zero bytes stand in the escaped output, for any size of the destination, the next
-- byte is at least 3.
pub bs_rbsp_to_ebsp-no_start_code :
    (dst_size : ℕ) (src front : List ℕ) (b : ℕ) (back : List ℕ)
    → bs_rbsp_to_ebsp dst_size src ≡ front ++ 0 ∷ 0 ∷ b ∷ back
    → 3 ≤ b
unfolding bs_rbsp_to_ebsp
bs_rbsp_to_ebsp-no_start_code dst_size src front b back e =
    IsClean-pattern 0 front b back (rw e at (ebsp_loop-IsClean dst_size 0 src (omega arith)))
