-- ===== src/Trajectory.antt =====
-- The features of a trajectory of estimates, src/model_forensics/parsing.py.
pub mod Features
pub mod Derived
pub mod Tests
