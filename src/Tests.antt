-- ===== src/Tests.antt =====
-- Runs of the models on small inputs, and the theorems at concrete inputs.
mod Streams
mod Units
mod Controls
mod Macroblocks
mod Levels
mod Arithmetic
mod Hevc
mod Engine
