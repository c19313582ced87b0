-- ===== src/Budget/Calls.antt =====
-- Every call of `CostLedger` (budget.py) raises and leaves the file alone, or leaves a file that
-- loads, changed by the steps of the ledger.
pub mod Frame
pub mod Reserve
pub mod Once
pub mod Returned
pub mod Batch
pub mod Settle
