-- ===== src/Hevc/Intra.antt =====
-- Intra prediction of hevc_intra.c: which samples have been decoded, the reference samples of a
-- block, and the prediction from them.
pub mod Order
pub mod Predict
pub mod Causal
pub mod Sizes
pub mod Range
pub mod Gathered
pub mod Search
