-- ===== src/EstimateSpans.antt =====
-- The source spans of first estimates, src/model_forensics/estimate_spans.py.
pub mod Span
pub mod Collect
pub mod Positions
pub mod Resolved
pub mod Tests
