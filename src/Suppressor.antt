-- ===== src/Suppressor.antt =====
-- The learned suppressor (include/mutap/nn_suppressor.h): its members, constructor, reset() and
-- process_block().
pub mod Weights
pub mod Bands
pub mod Noise
pub mod Engine
