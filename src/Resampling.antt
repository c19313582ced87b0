-- ===== src/Resampling.antt =====
-- The effect-independent top-up rule, src/model_forensics/resampling.py.
pub mod TopUp
pub mod Plan
pub mod Prefixes
pub mod Rendered
pub mod Cut
mod Tests
