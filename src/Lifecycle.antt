-- ===== src/Lifecycle.antt =====
-- The reader of the private lifecycle state, src/model_forensics/runpod_lifecycle_state.py.
pub mod State
pub mod Fresh
mod Tests
