-- ===== src/Hevc.antt =====
-- The parts of the HEVC encoder that code hevc_intra.c and hevc_cabac.c.
pub mod Transform
pub mod Quantize
pub mod Sizes
pub mod Intra
pub mod Modes
pub mod Elements
pub mod Engine
