-- ===== src/Chain.antt =====
-- The anti-howl chain (include/mutap/afc_chain.h).
pub mod Types
pub mod Ring
pub mod Process
