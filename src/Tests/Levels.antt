-- ===== src/Tests/Levels.antt =====
-- The levels of a block.
use bc250_vulkan_encode_stop.Base.{true, [], ◌∷◌, ◌&&◌, arith}
use bc250_vulkan_encode_stop.Base.Int.{pos, negsuc}
use bc250_vulkan_encode_stop.Cavlc.Residual.{levels_loop}
use bc250_vulkan_encode_stop.Cavlc.Levels.{AreRead, levels_loop-AreRead}

levels_loop-AreRead_example :
    AreRead
      (levels_loop (pos 40 ∷ negsuc 6 ∷ pos 1 ∷ []) true true 0)
      (true && true)
      0
      (pos 40 ∷ negsuc 6 ∷ pos 1 ∷ [])
levels_loop-AreRead_example =
    levels_loop-AreRead (pos 40 ∷ negsuc 6 ∷ pos 1 ∷ []) true true 0
      ((omega arith, omega arith), ((omega arith, omega arith), ((omega arith, omega arith), tt)))
      (omega arith)
