-- ===== src/Detector.antt =====
-- The per-signal howl detector (include/mutap/howl_detector.h).
pub mod Types
pub mod Loops
pub mod Decide
pub mod Block
pub mod Setup
