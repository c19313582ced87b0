-- ===== src/Sentences.antt =====
-- The sentence spans of a text, src/model_forensics/anchors.py.
pub mod Scan
pub mod Steps
pub mod Ordered
pub mod Tests
