-- ===== src/PaidResponses.antt =====
-- The durable store of paid responses, src/model_forensics/paid_response_store.py.
pub mod Records
pub mod Files
pub mod Store
pub mod Effects
pub mod History
pub mod Replay
pub mod Attempts
pub mod Tests
