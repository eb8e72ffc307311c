-- ===== src/Bits.antt =====
-- The C operators `&` and `|` on unsigned words as arithmetic, and bit strings: the bits of a word
-- from the most significant one, which is the order in which bitstream.h writes them.
mod Mask
mod Code
pub use Mask.*
unfoldable pub use Code.*
