-- ===== src/GpuBudget.antt =====
-- The cumulative budget of a GPU phase, src/model_forensics/gpu_budget.py, on top of the ledger.
pub mod Texts
pub mod Receipt
pub mod Reserve
pub mod Resume
pub mod Granted
pub mod Checked
pub mod Balanced
pub mod Accepted
pub mod Bounds
pub mod Refused
pub mod Paid
pub mod Settled
pub mod Tests
