-- ===== src/Guard.antt =====
-- The anti-howl guard (include/mutap/howl_guard.h).
pub mod Types
pub mod Machine
pub mod Ramp
pub mod Attribution
pub mod Policy
pub mod Calibration
pub mod Operations
pub mod Session
pub mod Reach
