-- ===== src/TimeLedger.antt =====
-- The investigation-time ledger, src/model_forensics/timeledger.py.
pub mod Ledger
pub mod Returned
pub mod Limit
pub mod Sessions
pub mod Usage
mod Tests
