-- ===== src/Spans.antt =====
-- The mapping from characters to the original tokens, src/model_forensics/token_spans.py.
pub mod Search
pub mod Sections
pub mod Trim
pub mod Located
pub mod Map
pub mod Cover
pub mod Least
pub mod Total
pub mod Streams
pub mod Provenance
mod Tests
