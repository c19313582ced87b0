-- ===== src/Checkpoint.antt =====
-- The per-record checkpoints, src/model_forensics/record_checkpoint.py.
pub mod Store
pub mod Commits
pub mod Final
pub mod Finish
pub mod Reload
mod Tests
