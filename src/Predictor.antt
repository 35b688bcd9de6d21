-- ===== src/Predictor.antt =====
-- The near-end models that prewhiten the canceller's signals (include/mutap/lpc.h).
pub mod Recursion
pub mod Lpc
pub mod Warped
pub mod Speech
